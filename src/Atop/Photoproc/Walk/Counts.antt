-- ===== src/Atop/Photoproc/Walk/Counts.antt =====
-- A process and the entries of its threads behind it in the array of photoproc in
-- Qt/FakeAtop/photoproc.c: what another thread changes.
use practice.Base.{
  ℕ, zero, suc, ◌+◌, ◌≤◌, ◌<◌, ◌≡◌, refl, sym, ◌∙◌, false, List, ◌==◌, if◌then◌else◌, length,
  length-set, set, get_or-set, Bool-cases, inl, inr, arith,
}
use practice.Atop.Tstat.{Tstat, zero_tstat}
use practice.Atop.Photoproc.Walk.{Setting, at, count_thread}
use practice.Atop.Photoproc.Walk.Within.{get_or-set_other}

-- The threads with a state among the n entries behind the entry p.
unfoldable pub threads_in : ℕ → List Tstat → ℕ → ℕ → ℕ
threads_in c t p zero = 0
threads_in c t p (suc n) =
    threads_in c t p n + (if (at t (suc (p + n))).gen.state == c then 1 else 0)

-- A thread of a process: marked as such, one thread, in the container of the process.
pub record IsMember (cur th : Tstat) : Type 0 where
  pub no_process : th.gen.isproc ≡ false
  pub one_thread : th.gen.nthr ≡ 1
  pub same_container : th.gen.container ≡ cur.gen.container

-- The n entries behind the entry p are its threads, and its three counts are theirs.
pub record IsGroup (t : List Tstat) (p n : ℕ) : Type 0 where
  pub runs : (at t p).gen.nthrrun ≡ threads_in b'R' t p n
  pub sleeps : (at t p).gen.nthrslpi ≡ threads_in b'S' t p n
  pub waits : (at t p).gen.nthrslpu ≡ threads_in b'D' t p n
  pub members : (i : ℕ) → p < i → i ≤ p + n → IsMember (at t p) (at t i)

pub threads_in-agree :
    (c p n : ℕ) (t t' : List Tstat)
    → ((i : ℕ) → p < i → i ≤ p + n → at t' i ≡ at t i)
    → threads_in c t' p n ≡ threads_in c t p n
unfolding threads_in
threads_in-agree c p zero t t' h = refl
threads_in-agree c p (suc n) t t' h =
    let e = h (suc (p + n)) (omega arith) (omega arith) in
    rw (threads_in-agree c p n t t' (λ i k l. h i k (omega arith)), e) refl

module _ (y : Setting) (t : List Tstat) (p n : ℕ) (g : Tstat) (st : ℕ) where
  abbrev pub grown : List Tstat
  grown = set (set t (suc (p + n)) g) p (count_thread y st (at t p))

  grown-before : (i : ℕ) → p < i → i ≤ p + n → at grown i ≡ at t i
  grown-before i k l =
      get_or-set_other (set t (suc (p + n)) g) p i (count_thread y st (at t p)) (ground arith)
      ∙ get_or-set_other t (suc (p + n)) i g (ground arith)

  grown-new : suc (p + n) < length t → at grown (suc (p + n)) ≡ g
  grown-new h =
      get_or-set_other (set t (suc (p + n)) g) p (suc (p + n)) (count_thread y st (at t p))
        (ground arith)
      ∙ (let k = get_or-set t (suc (p + n)) (suc (p + n)) g zero_tstat h in ground arith)

  pub grown-head : suc (p + n) < length t → at grown p ≡ count_thread y st (at t p)
  grown-head h =
      let l = length-set t (suc (p + n)) g in
      let k =
        get_or-set (set t (suc (p + n)) g) p p (count_thread y st (at t p)) zero_tstat
          (omega arith) in
      ground arith

  pub IsGroup-grown :
      suc (p + n) < length t
      → g.gen.state ≡ st
      → IsMember (at t p) g
      → IsGroup t p n
      → IsGroup grown p (suc n)
  unfolding threads_in count_thread
  IsGroup-grown h e m r = record {
    runs = one b'R' (λ u. u.gen.nthrrun) r.runs (unfold count_thread in refl);
    sleeps = one b'S' (λ u. u.gen.nthrslpi) r.sleeps (unfold count_thread in refl);
    waits = one b'D' (λ u. u.gen.nthrslpu) r.waits (unfold count_thread in refl);
    members = λ i k l. elim (Bool-cases (i == suc (p + n))) [
      | inl q ↦
          let q' : i ≡ suc (p + n) = ground arith in
          rw (q', grown-new h, grown-head h)
            (record {
              no_process = m.no_process;
              one_thread = m.one_thread;
              same_container = m.same_container;
            })
      | inr q ↦
          let b : i ≤ p + n = ground arith in
          let o = r.members i k b in
          rw (grown-before i k b, grown-head h)
            (record {
              no_process = o.no_process;
              one_thread = o.one_thread;
              same_container = o.same_container;
            })
    ];
  }
    where
      one :
          (c : ℕ) (f : Tstat → ℕ)
          → f (at t p) ≡ threads_in c t p n
          → f (count_thread y st (at t p)) ≡ (if st == c then suc (f (at t p)) else f (at t p))
          → f (at grown p) ≡ threads_in c grown p (suc n)
      one c f a b =
          let s : threads_in c grown p n ≡ threads_in c t p n =
            threads_in-agree c p n t grown grown-before in
          let w : threads_in c t p n + (if st == c then 1 else 0) ≡ f (count_thread y st (at t p)) =
            ground arith in
          rw (grown-head h, grown-new h, s, e) (sym w)

pub IsGroup-agree :
    (t t' : List Tstat) (p n : ℕ)
    → ((i : ℕ) → p ≤ i → i ≤ p + n → at t' i ≡ at t i)
    → IsGroup t p n
    → IsGroup t' p n
IsGroup-agree t t' p n h r =
    let hd = h p (omega arith) (omega arith) in
    let c : (k : ℕ) → threads_in k t' p n ≡ threads_in k t p n =
      λ k. threads_in-agree k p n t t' (λ i a b. h i (omega arith) b) in
    record {
      runs = rw (hd, c b'R') r.runs;
      sleeps = rw (hd, c b'S') r.sleeps;
      waits = rw (hd, c b'D') r.waits;
      members = λ i a b. rw (hd, h i (omega arith) b) (r.members i a b);
    }
