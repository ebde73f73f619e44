-- ===== src/Atop/Acct/Stream/Count.antt =====
-- acctprocnt and acctphotoproc of Qt/FakeAtop/acctproc.c together: what is counted is what is read.
use practice.Base.{
  ℕ, zero, suc, ◌+◌, ◌*◌, ◌-◌, ◌%◌, ◌^◌, ◌<◌, ◌≤◌, ◌≡◌, refl, ap, ◌∙◌, Bool, true, false, Option,
  some, List, [], ◌∷◌, ltb, leb, ◌==◌, if◌then◌else◌, length, length-append, drop, arith,
  Bool-cases, inl, inr,
}
use practice.Atop.Tstat.{Tstat}
use practice.Atop.Acct.{
  Acctrec, Acct, records, records_between, st_size, stat_size, shadow_count, shadow_records,
  open_records, acctprocnt,
}
use practice.Atop.Acct.Read.{
  open_size, acct_rounds, acctmaxfilesz, too_large, photo_of, acctphotoproc,
}
use practice.Atop.Acct.Stream.{size_count, size_between, filled, later, stream, AreFull, IsAt, rest}
use practice.Atop.Acct.Stream.Rounds.{rounds}

module _ (files : ℕ → Option (List Acctrec)) where
  length-drop : (n : ℕ) (xs : List Acctrec) → length (drop n xs) ≡ length xs - n
  length-drop zero xs = omega arith
  length-drop (suc n) [] = omega arith
  length-drop (suc n) (x ∷ xs) = omega (arith, length-drop n xs)

  -- The files behind a full one, of which all but the last are full.
  length-later :
      (max q k n : ℕ)
      → AreFull files max q (suc k)
      → n ≡ q + suc k
      → (length (later files q (suc k)) ≡ k * max + length (records files n))
        × (files n ≡ some (records files n))
  unfolding later
  length-later max q zero n f e =
      let e' : n ≡ suc q = omega arith in
      rw e' (omega (arith, length-append (records files (suc q)) []), f.1)
  length-later max q (suc k) n f e =
      let ih = length-later max (suc q) k n f.2 (omega arith) in
      let a = length-append (records files (suc q)) (later files (suc q) (suc k)) in
      (omega (arith, a, ih.0, f.2.0), ih.1)

  between-count :
      (k : ℕ) (s : Acct)
      → IsAt files k s
      → records_between (length (records files s.curshadowseq) * s.acctrecsz) s.acctsize s.acctrecsz
        ≡ length (records files s.curshadowseq) - s.offset
  between-count k s h =
      let l = length (records files s.curshadowseq) in
      let b = size_between l s.offset s.acctrecsz h.inside in
      let c = size_count (l - s.offset) s.acctrecsz h.recsz_pos in
      let le : leb (s.offset * s.acctrecsz) (l * s.acctrecsz) ≡ true =
        (let i = h.inside in grind arith) in
      rw (h.size_is, le, b, c) refl

  -- The sizes of shadow_records in records.
  shadow_records-count :
      (k : ℕ) (s : Acct) (current : Option ℕ)
      → IsAt files k s
      → shadow_records files current s.curshadowseq s ≡ (
          let l = length (records files s.curshadowseq) in
          if ltb l s.maxshadowrec
          then l - s.offset
          else shadow_count files current (l - s.offset) (l * s.acctrecsz) s.curshadowseq s)
  unfolding shadow_records st_size
  shadow_records-count k s current h =
      rw
        (
          between-count k s h,
          size_count (length (records files s.curshadowseq)) s.acctrecsz h.recsz_pos,
        )
        refl

  shadow_records-rest :
      (k : ℕ) (s : Acct)
      → IsAt files k s
      → s.curshadowseq + k < 2 ^ 64
      → length (rest files k s) < 2 ^ 64
      → shadow_records files (some (s.curshadowseq + k)) s.curshadowseq s ≡ length (rest files k s)
  unfolding stream shadow_count stat_size
  shadow_records-rest zero s h q b =
      let c = length-append (drop s.offset (records files s.curshadowseq)) [] in
      let d = length-drop s.offset (records files s.curshadowseq) in
      let z : length (later files s.curshadowseq 0) ≡ 0 = unfold later in refl in
      let e =
        length-append (drop s.offset (records files s.curshadowseq))
          (later files s.curshadowseq 0) in
      let same : (s.curshadowseq + 0 == s.curshadowseq) ≡ true = ground arith in
      rw (shadow_records-count zero s (some (s.curshadowseq + 0)) h, same) (ground arith)
  shadow_records-rest (suc k) s h q b =
      let n = s.curshadowseq + suc k in
      let l = length-later s.maxshadowrec s.curshadowseq k n h.full refl in
      let d = length-drop s.offset (records files s.curshadowseq) in
      let e =
        length-append (drop s.offset (records files s.curshadowseq))
          (later files s.curshadowseq (suc k)) in
      let other : (n == s.curshadowseq) ≡ false = ground arith in
      let whole : ltb (length (records files s.curshadowseq)) s.maxshadowrec ≡ false =
        (let f = h.full.0 in ground arith) in
      let between : (n + 2 ^ 64 - s.curshadowseq - 1) % 2 ^ 64 ≡ k = omega arith in
      let last = size_count (length (records files n)) s.acctrecsz h.recsz_pos in
      let st : stat_size files n s.acctrecsz (length (records files s.curshadowseq) * s.acctrecsz)
          ≡ length (records files n) * s.acctrecsz =
        (let o = l.1 in rw (stat_size, o) refl) in
      rw (shadow_records-count (suc k) s (some n) h, whole, other, between, st, last)
        (omega (arith, l.0, d, e, b, h.inside))

  -- Where the file "current" holds the number of the last shadow file, all shadow files before it are
  -- full, and the numbers fit in 64 bits: acctprocnt counts exactly the records of the shadow files
  -- that have not been read yet.
  pub acctprocnt-rest :
      (k : ℕ) (s : Acct)
      → IsAt files k s
      → s.curshadowseq + k < 2 ^ 64
      → length (rest files k s) < 2 ^ 64
      → (acctprocnt files (some (s.curshadowseq + k)) s).0 ≡ length (rest files k s)
  unfolding acctprocnt open_records stream
  acctprocnt-rest k s h q b =
      rw (acctprocnt, h.fd_is)
        (let z : (s.maxshadowrec == 0) ≡ false = (let m = h.max_pos in ground arith) in
          rw (open_records, z) (shadow_records-rest k s h q b))

  -- What acctphotoproc returns: the number, the tasks, and a state from which the records behind those
  -- that were read are left.
  pub record IsPhoto (k : ℕ) (accproc : List Tstat) (s : Acct) (out : ℕ × List Tstat × Acct)
      : Type 0 where
    pub nr : out.0 ≡ length accproc
    pub tasks_are : out.1 ≡ filled s.acctversion (rest files k s) accproc
    pub left : ℕ
    pub at : IsAt files left out.2
    pub rest_is : rest files left out.2 ≡ drop (length accproc) (rest files k s)
    pub same_last : out.2.curshadowseq + left ≡ s.curshadowseq + k

  -- Over the shadow files of atopacctd, all but the last of which are full: where accproc has not more
  -- entries than there are records left, acctphotoproc fills them from these records in their order,
  -- as many as it has entries, and what is left of the records is what comes behind them.
  pub acctphotoproc-rest :
      (k users : ℕ) (truncated : Bool) (accproc : List Tstat) (s : Acct)
      → IsAt files k s
      → length accproc ≤ length (rest files k s)
      → IsPhoto k accproc s (acctphotoproc files users truncated accproc s)
  unfolding acctphotoproc too_large
  acctphotoproc-rest k users truncated accproc s h l =
      let r = rounds files k s accproc h l in
      let out = acct_rounds files (open_size files s) s accproc in
      let z : (out.0.maxshadowrec == 0) ≡ false = (let m = r.at.max_pos in ground arith) in
      let small : too_large files users truncated out.0 ≡ out.0 =
        elim (Bool-cases (ltb acctmaxfilesz out.0.acctsize)) [
          | inl e ↦ rw (too_large, z, e) refl
          | inr e ↦ rw (too_large, e) refl
        ] in
      let o : acctphotoproc files users truncated accproc s ≡ (length accproc, out.1, out.0) =
        ap (λ fd. photo_of files fd users truncated accproc s) h.fd_is
        ∙ (unfold photo_of in rw small refl) in
      rw o (record {
        nr = refl;
        tasks_are = r.tasks_are;
        left = r.left;
        at = r.at;
        rest_is = r.rest_is;
        same_last = r.same_last;
      })
