-- ===== src/Atop/Acct/Stream.antt =====
-- The shadow files of Qt/FakeAtop/acctproc.c, read as the one stream of records that they hold.
pub mod Rounds
pub mod Count
use practice.Base.{
  ℕ, zero, suc, ◌+◌, ◌*◌, ◌/◌, ◌-◌, ◌%◌, ◌^◌, ◌<◌, ◌≤◌, ◌≡◌, refl, sym, ap, ◌∙◌, Bool, true, false,
  ◌&&◌, ◌||◌, not, Option, none, some, List, [], ◌∷◌, ◌++◌, ltb, leb, ◌==◌, if◌then◌else◌, length,
  length-append, get_elem?, drop, arith, Bool-cases, inl, inr,
}
use practice.Atop.Tstat.{Tstat}
use practice.Atop.Acct.{Acctrec, Acct, records, st_size, switchshadow}
use practice.Atop.Acct.Read.{
  acct_task, read_next, acct_file, open_size, read_acct, at_end, next_size, acct_round, acct_rounds,
}

pub size_suc : (a r : ℕ) → suc a * r ≡ a * r + r
size_suc a r = omega arith

pub size_lt : (a b r : ℕ) → a < b → 0 < r → a * r < b * r
size_lt a b r h k = grind arith

pub size_count : (a r : ℕ) → 0 < r → (a * r) / r ≡ a
size_count a r h = grind arith

pub size_between : (a b r : ℕ) → b ≤ a → a * r - b * r ≡ (a - b) * r
size_between a b r h = grind arith

-- The entries of accproc behind a call, for the records of a stream.
unfoldable pub filled : ℕ → List Acctrec → List Tstat → List Tstat
filled version [] ts = ts
filled version (r ∷ rs) [] = []
filled version (r ∷ rs) (t ∷ ts) = acct_task version r t ∷ filled version rs ts

module _ (files : ℕ → Option (List Acctrec)) where
  -- The records of the k files behind the file q.
  unfoldable pub later : ℕ → ℕ → List Acctrec
  later q zero = []
  later q (suc k) = records files (suc q) ++ later (suc q) k

  -- What is not read yet of the file q, and the k files behind it.
  unfoldable pub stream : ℕ → ℕ → ℕ → List Acctrec
  stream q off k = drop off (records files q) ++ later q k

  -- The file q and those behind it are full, but for the last, and each of them can be opened.
  abbrev pub AreFull : ℕ → ℕ → ℕ → Type 0
  AreFull max q zero = Unit
  AreFull max q (suc k) =
      (length (records files q) ≡ max)
      × (files (suc q) ≡ some (records files (suc q)))
      × AreFull max (suc q) k

  -- The state between two reads, with k files behind the current one.
  pub record IsAt (k : ℕ) (s : Acct) : Type 0 where
    pub fd_is : s.acctfd ≡ some s.curshadowseq
    pub version_known : (s.acctversion == 2 || s.acctversion == 3) ≡ true
    pub size_is : s.acctsize ≡ s.offset * s.acctrecsz
    pub recsz_pos : 0 < s.acctrecsz
    pub max_pos : 0 < s.maxshadowrec
    pub inside : s.offset ≤ length (records files s.curshadowseq)
    pub full : AreFull s.maxshadowrec s.curshadowseq k

  abbrev pub rest : ℕ → Acct → List Acctrec
  rest k s = stream s.curshadowseq s.offset k

  drop-inside :
      (n : ℕ) (xs : List Acctrec)
      → n < length xs
      → (r : Acctrec) × (get_elem? xs n ≡ some r) × (drop n xs ≡ r ∷ drop (suc n) xs)
  drop-inside n [] h = absurd (omega arith)
  drop-inside zero (x ∷ xs) h = (x, refl, refl)
  drop-inside (suc n) (x ∷ xs) h = drop-inside n xs (omega arith)

  drop-all : (n : ℕ) (xs : List Acctrec) → length xs ≤ n → drop n xs ≡ []
  drop-all zero [] h = refl
  drop-all zero (x ∷ xs) h = absurd (omega arith)
  drop-all (suc n) [] h = refl
  drop-all (suc n) (x ∷ xs) h = drop-all n xs (omega arith)

  acct_file-at : (k : ℕ) (s : Acct) → IsAt k s → acct_file files s ≡ records files s.curshadowseq
  unfolding acct_file
  acct_file-at k s h = rw (acct_file, h.fd_is) refl

  -- The state behind the switch at the end of a file, from which the next record can be read.
  pub record IsReady (k : ℕ) (s : Acct) (size : ℕ) : Type 0 where
    pub left : ℕ
    pub at : IsAt left (at_end files size s)
    pub size_kept : next_size files size s ≡ open_size files (at_end files size s)
    pub more :
        (at_end files size s).offset < length (records files (at_end files size s).curshadowseq)
    pub same_rest : rest left (at_end files size s) ≡ rest k s
    pub same_version : (at_end files size s).acctversion ≡ s.acctversion
    pub same_last : (at_end files size s).curshadowseq + left ≡ s.curshadowseq + k

  IsReady-inside :
      (k : ℕ) (s : Acct)
      → IsAt k s
      → s.offset < length (records files s.curshadowseq)
      → IsReady k s (open_size files s)
  unfolding at_end next_size open_size
  IsReady-inside k s h l =
      let c : leb (open_size files s) s.acctsize ≡ false =
        (let e = acct_file-at k s h in
          let m =
            size_lt s.offset (length (records files s.curshadowseq)) s.acctrecsz l h.recsz_pos in
          let z = h.size_is in unfold open_size in rw e (ground arith)) in
      let b : (not (s.maxshadowrec == 0) && leb (open_size files s) s.acctsize) ≡ false =
        ground arith in
      let a : at_end files (open_size files s) s ≡ s = rw (at_end, b) refl in
      let n : next_size files (open_size files s) s ≡ open_size files s = rw (next_size, b) refl in
      record {
        left = k;
        at = rw a h;
        size_kept = rw (n, a) refl;
        more = rw a l;
        same_rest = rw a refl;
        same_version = rw a refl;
        same_last = rw a refl;
      }

  -- Behind the end of a file that is full, the next one has a record.
  IsReady-end :
      (k : ℕ) (s : Acct)
      → IsAt k s
      → s.offset ≡ length (records files s.curshadowseq)
      → 0 < length (rest k s)
      → IsReady k s (open_size files s)
  unfolding at_end next_size open_size stream later switchshadow
  IsReady-end zero s h e l =
      let d = drop-all s.offset (records files s.curshadowseq) (omega arith) in
      let z : length (rest zero s) ≡ 0 = rw d refl in absurd (omega arith)
  IsReady-end (suc k) s h e l = record {
    left = k;
    at = rw a (record {
      fd_is = refl;
      version_known = h.version_known;
      size_is = omega arith;
      recsz_pos = h.recsz_pos;
      max_pos = h.max_pos;
      inside = omega arith;
      full = h.full.2;
    });
    size_kept = rw (n, a) refl;
    more = rw a (some_left k h.full.2 h.max_pos (rw whole at l));
    same_rest = rw (a, whole) refl;
    same_version = rw a refl;
    same_last = rw a (omega arith);
  }
    where
      next : Acct
      next = record s {
        curshadowseq = suc s.curshadowseq;
        acctfd = some (suc s.curshadowseq);
        offset = 0;
        acctsize = 0;
      }

      switched : switchshadow files s ≡ record s {
        curshadowseq = suc s.curshadowseq;
        acctfd = some (suc s.curshadowseq);
        offset = 0;
      }
      switched = let o = h.full.1 in rw (switchshadow, o) refl

      b : (not (s.maxshadowrec == 0) && leb (open_size files s) s.acctsize) ≡ true
      b =
          let f = acct_file-at (suc k) s h in
          let z = h.size_is in let m = h.max_pos in unfold open_size in rw (f, sym e) (ground arith)

      a : at_end files (open_size files s) s ≡ next
      a = rw (at_end, b, switched) refl

      n : next_size files (open_size files s) s ≡ open_size files next
      n = rw (next_size, b, switched) (unfold open_size acct_file in refl)

      whole : rest (suc k) s ≡ records files (suc s.curshadowseq) ++ later (suc s.curshadowseq) k
      whole = let d = drop-all s.offset (records files s.curshadowseq) (omega arith) in rw d refl

      some_left :
          (j : ℕ)
          → AreFull s.maxshadowrec (suc s.curshadowseq) j
          → 0 < s.maxshadowrec
          → 0 < length (records files (suc s.curshadowseq) ++ later (suc s.curshadowseq) j)
          → 0 < length (records files (suc s.curshadowseq))
      some_left zero f m l = omega (arith, length-append (records files (suc s.curshadowseq)) [])
      some_left (suc j) f m l = omega (arith, f.0)

  pub ready :
      (k : ℕ) (s : Acct) → IsAt k s → 0 < length (rest k s) → IsReady k s (open_size files s)
  ready k s h l = elim (Bool-cases (ltb s.offset (length (records files s.curshadowseq)))) [
    | inl e ↦ IsReady-inside k s h (ground arith)
    | inr e ↦ IsReady-end k s h (let i = h.inside in ground arith) l
  ]
