-- ===== src/Atop/Acct/Stream/Rounds.antt =====
-- acctphotoproc and acctprocnt of Qt/FakeAtop/acctproc.c against the stream of the shadow files.
use practice.Base.{
  ℕ, suc, ◌+◌, ◌<◌, ◌≤◌, ◌≡◌, refl, sym, ap, ◌∙◌, Option, List, [], ◌∷◌, length, drop, arith,
}
use practice.Atop.Tstat.{Tstat}
use practice.Atop.Acct.{Acctrec, Acct, records}
use practice.Atop.Acct.Read.{
  acct_task, read_next, acct_file, open_size, read_acct, at_end, acct_round, acct_rounds,
}
use practice.Atop.Acct.Stream.{
  size_suc, filled, stream, IsAt, rest, drop-inside, acct_file-at, IsReady, ready,
}

module _ (files : ℕ → Option (List Acctrec)) where
  -- One record is read: the state behind it.
  pub record IsReadOne (k : ℕ) (s : Acct) (t : Tstat) (version : ℕ) : Type 0 where
    pub r : Acctrec
    pub task_is : (read_acct files s t).1 ≡ acct_task version r t
    pub at : IsAt files k (record (read_acct files s t).0 {
      acctsize = (read_acct files s t).0.acctsize + (read_acct files s t).0.acctrecsz;
    })
    pub next_rest : rest files k s ≡ r ∷ rest files k (read_acct files s t).0
    pub same_seq : (read_acct files s t).0.curshadowseq ≡ s.curshadowseq
    pub same_version : (read_acct files s t).0.acctversion ≡ s.acctversion
    pub same_open :
        open_size files (record (read_acct files s t).0 {
          acctsize = (read_acct files s t).0.acctsize + (read_acct files s t).0.acctrecsz;
        })
        ≡ open_size files s

  read_one :
      (k : ℕ) (s : Acct) (t : Tstat)
      → IsAt files k s
      → s.offset < length (records files s.curshadowseq)
      → IsReadOne k s t s.acctversion
  unfolding stream
  read_one k s t h l =
      let d = drop-inside files s.offset (records files s.curshadowseq) l in
      let o : read_acct files s t
          ≡ (record s { offset = suc s.offset }, acct_task s.acctversion d.0 t) =
        unfold read_acct in
        rw (h.version_known, acct_file-at files k s h, d.1) (unfold read_next in refl) in
      let b = d.2 in
      record {
        r = d.0;
        task_is = rw o refl;
        at = rw o (record {
          fd_is = h.fd_is;
          version_known = h.version_known;
          size_is = let z = h.size_is in rw (z) (sym (size_suc s.offset s.acctrecsz));
          recsz_pos = h.recsz_pos;
          max_pos = h.max_pos;
          inside = omega arith;
          full = h.full;
        });
        next_rest = rw (o, b) refl;
        same_seq = rw o refl;
        same_version = rw o refl;
        same_open = rw o (unfold open_size acct_file in refl);
      }

  -- The records of n entries are read from the stream.
  pub record IsAdvanced (k n : ℕ) (s : Acct) (ts : List Tstat) (out : Acct × List Tstat)
      : Type 0 where
    pub left : ℕ
    pub at : IsAt files left out.0
    pub tasks_are : out.1 ≡ filled s.acctversion (rest files k s) ts
    pub rest_is : rest files left out.0 ≡ drop n (rest files k s)
    pub same_last : out.0.curshadowseq + left ≡ s.curshadowseq + k

  -- The state at the end of a file, and behind a record.
  abbrev before_read : Acct → Acct
  before_read s = at_end files (open_size files s) s

  abbrev behind_read : Acct → Tstat → Acct
  behind_read s t = record (read_acct files (before_read s) t).0 {
    acctsize =
        (read_acct files (before_read s) t).0.acctsize
        + (read_acct files (before_read s) t).0.acctrecsz;
  }

  rounds-nil :
      (k : ℕ) (s : Acct)
      → IsAt files k s
      → IsAdvanced k 0 s [] (acct_rounds files (open_size files s) s [])
  unfolding acct_rounds
  rounds-nil k s h = record {
    left = k;
    at = h;
    tasks_are = none_filled (rest files k s);
    rest_is = refl;
    same_last = refl;
  }
    where
      none_filled : (rs : List Acctrec) → [] ≡ filled s.acctversion rs []
      none_filled [] = unfold filled in refl
      none_filled (r ∷ rs) = unfold filled in refl

  rounds-one :
      (k : ℕ) (s : Acct) (t : Tstat) (ts : List Tstat)
      → (rd : IsReady files k s (open_size files s))
      → (one : IsReadOne rd.left (before_read s) t (before_read s).acctversion)
      → IsAdvanced rd.left
          (length ts)
          (behind_read s t)
          ts
          (acct_rounds files (open_size files (behind_read s t)) (behind_read s t) ts)
      → IsAdvanced k (length (t ∷ ts)) s (t ∷ ts) (acct_rounds files (open_size files s) s (t ∷ ts))
  unfolding acct_rounds acct_round
  rounds-one k s t ts rd one ih =
      rw (rd.size_kept, sym one.same_open)
        (record {
          left = ih.left;
          at = ih.at;
          tasks_are =
              let whole : rest files k s ≡ one.r ∷ rest files rd.left (behind_read s t) =
                sym rd.same_rest ∙ one.next_rest in
              rw (one.task_is, ih.tasks_are, one.same_version, whole)
                (unfold filled in
                  ap (λ v. filled v (one.r ∷ rest files rd.left (behind_read s t)) (t ∷ ts))
                    rd.same_version);
          rest_is = ih.rest_is ∙ rw (sym rd.same_rest, one.next_rest) refl;
          same_last = ih.same_last ∙ omega (arith, rd.same_last, one.same_seq);
        })

  pub rounds :
      (k : ℕ) (s : Acct) (ts : List Tstat)
      → IsAt files k s
      → length ts ≤ length (rest files k s)
      → IsAdvanced k (length ts) s ts (acct_rounds files (open_size files s) s ts)
  rounds k s [] h l = rounds-nil k s h
  rounds k s (t ∷ ts) h l =
      let rd = ready files k s h (omega arith) in
      let one = read_one rd.left (before_read s) t rd.at rd.more in
      let e : length (rest files k s) ≡ length (one.r ∷ rest files rd.left (behind_read s t)) =
        ap length (sym rd.same_rest ∙ one.next_rest) in
      rounds-one k s t ts rd one (rounds rd.left (behind_read s t) ts one.at (omega arith))
