-- ===== src/Atop/Photoproc/Walk/Threads.antt =====
-- A process and its threads in the array of photoproc in Qt/FakeAtop/photoproc.c.
use practice.Base.{
  ℕ, suc, ◌+◌, ◌≤◌, ◌<◌, ◌≡◌, refl, ap, ◌∙◌, Bool, true, false, not, ◌||◌, Option, none, some, List,
  [], ◌∷◌, ltb, ltb→lt, ◌==◌, if◌then◌else◌, length, length-set, set, get_or-set, arith,
}
use practice.Base.Decimal.{first}
use practice.Atop.Tstat.{Tstat, zero_tstat}
use practice.Atop.Photoproc.Stat.{Filled}
use practice.Atop.Photoproc.Walk.{
  Thread, Setting, Walk, at, gather, count_thread, thread_task, thread_filled, thread_step,
  thread_loop, clear_counts, threads,
}
use practice.Atop.Photoproc.Walk.Within.{get_or-set_other}
use practice.Atop.Photoproc.Walk.Counts.{
  threads_in, IsGroup, IsGroup-grown, grown-head, IsGroup-agree,
}
use practice.Atop.Photoproc.Walk.Group.{isproc-gather, gen-thread_task}

-- The array behind the entry p is its group, up to the number of tasks.
pub record IsThreaded (length_of : ℕ) (p : ℕ) (s : Walk) : Type 0 where
  pub n : ℕ
  pub tval_is : s.tval ≡ suc (p + n)
  pub group : IsGroup s.tasklist p n
  pub head_process : (at s.tasklist p).gen.isproc ≡ true
  pub length_is : length s.tasklist ≡ length_of

module _ (y : Setting) (m p len : ℕ) (fits : m ≤ len) where
  IsThreaded-if :
      (b : Bool) (x z : Walk)
      → (b ≡ true → IsThreaded len p x)
      → (b ≡ false → IsThreaded len p z)
      → IsThreaded len p (if b then x else z)
  IsThreaded-if true x z h k = h refl
  IsThreaded-if false x z h k = k refl

  IsThreaded-kept :
      (s : Walk) (v : Tstat)
      → IsThreaded len p s
      → IsThreaded len p (record s { tasklist = set s.tasklist s.tval v })
  IsThreaded-kept s v h = record {
    n = h.n;
    tval_is = h.tval_is;
    group =
        IsGroup-agree s.tasklist _ p h.n
          (λ i a b. get_or-set_other s.tasklist s.tval i v (let e = h.tval_is in ground arith))
          h.group;
    head_process =
        ap (λ t. t.gen.isproc)
          (get_or-set_other s.tasklist s.tval p v (let e = h.tval_is in ground arith))
        ∙ h.head_process;
    length_is = length-set s.tasklist s.tval v ∙ h.length_is;
  }

  IsThreaded-filled :
      (r : Filled) (s : Walk)
      → (r.ok ≡ true → r.task.gen.isproc ≡ false)
      → s.tval < m
      → IsThreaded len p s
      → IsThreaded len p (thread_filled y p r s)
  unfolding thread_filled
  IsThreaded-filled r s mark l h =
      IsThreaded-if r.ok _ _
        (λ e. record {
          n = suc h.n;
          tval_is = omega (arith, h.tval_is);
          group = rw (h.tval_is) (
              IsGroup-grown y s.tasklist p h.n g r.task.gen.state room (rw gg refl)
                (record {
                  no_process = rw gg (mark e);
                  one_thread = rw gg refl;
                  same_container = rw gg refl;
                })
                h.group);
          head_process =
              rw (h.tval_is, grown-head y s.tasklist p h.n g r.task.gen.state room)
                (unfold count_thread in h.head_process);
          length_is =
              length-set (set s.tasklist s.tval g) p
                (count_thread y r.task.gen.state (at s.tasklist p))
              ∙ length-set s.tasklist s.tval g
              ∙ h.length_is;
        })
        (λ e. IsThreaded-kept s r.task h)
    where
      g : Tstat
      g = (thread_task y (at s.tasklist p) r.task s.netatop).task

      gg : g.gen ≡ record r.task.gen { container = (at s.tasklist p).gen.container; nthr = 1 }
      gg = gen-thread_task y (at s.tasklist p) r.task s.netatop

      room : suc (p + h.n) < length s.tasklist
      room = omega (arith, h.tval_is, h.length_is)

  IsThreaded-step :
      (th : Thread) (s : Walk)
      → s.tval < m
      → IsThreaded len p s
      → IsThreaded len p (thread_step y p th s)
  unfolding thread_step
  IsThreaded-step th s l h =
      IsThreaded-if (first th.d_name == b'.' || not th.entered) _ _ (λ e. h)
        (λ e.
          IsThreaded-filled (gather y false th.files (at s.tasklist s.tval)) s
            (isproc-gather y false th.files (at s.tasklist s.tval)) l h)

  IsThreaded-loop :
      (ths : List Thread) (s : Walk)
      → IsThreaded len p s
      → IsThreaded len p (thread_loop y m p ths s)
  unfolding thread_loop
  IsThreaded-loop [] s h = h
  IsThreaded-loop (th ∷ ths) s h =
      IsThreaded-if (ltb s.tval m) _ _
        (λ e.
          IsThreaded-loop ths (thread_step y p th s) (IsThreaded-step th s (ltb→lt s.tval m e) h))
        (λ e. h)

  -- The counts are cleared before the first thread.
  pub IsThreaded-threads :
      (task : Option (List Thread)) (s : Walk)
      → s.tval ≡ suc p
      → p < len
      → length s.tasklist ≡ len
      → (at s.tasklist p).gen.isproc ≡ true
      → IsThreaded len p (
          threads y m p task
            (record s { tasklist = set s.tasklist p (clear_counts y (at s.tasklist p)) }))
  unfolding threads
  IsThreaded-threads task s v l e b = go task
    where
      t1 : List Tstat
      t1 = set s.tasklist p (clear_counts y (at s.tasklist p))

      hd : at t1 p ≡ clear_counts y (at s.tasklist p)
      hd =
          let k =
            get_or-set s.tasklist p p (clear_counts y (at s.tasklist p)) zero_tstat (omega arith) in
          ground arith

      start : IsThreaded len p (record s { tasklist = t1 })
      start = record {
        n = 0;
        tval_is = omega arith;
        group = record {
          runs = rw hd (unfold threads_in clear_counts in refl);
          sleeps = rw hd (unfold threads_in clear_counts in refl);
          waits = rw hd (unfold threads_in clear_counts in refl);
          members = λ i j k. absurd (omega arith);
        };
        head_process = rw hd (unfold clear_counts in b);
        length_is = length-set s.tasklist p (clear_counts y (at s.tasklist p)) ∙ e;
      }

      go :
          (task : Option (List Thread))
          → IsThreaded len p (threads y m p task (record s { tasklist = t1 }))
      go none = start
      go (some ths) = IsThreaded-loop ths _ start
