-- ===== src/Atop/Photoproc/Walk/Bounds.antt =====
-- The array of photoproc in Qt/FakeAtop/photoproc.c is written within its bounds.
use practice.Base.{
  ℕ, suc, ◌≤◌, ◌<◌, true, false, not, ◌&&◌, ◌||◌, Option, none, some, List, [], ◌∷◌, ltb, ltb→lt,
  ◌==◌, set, arith,
}
use practice.Base.Text.{isdigit}
use practice.Base.Decimal.{first}
use practice.Atop.Tstat.{Tstat}
use practice.Atop.Netatop.{Netatop, Gathered}
use practice.Atop.Photoproc.Stat.{Filled}
use practice.Atop.Photoproc.Walk.Within.{
  IsWithin, IsWithin-refl, IsWithin-trans, IsWithin-if, IsWithin-set,
}
use practice.Atop.Photoproc.Walk.{
  Thread, ProcEntry, Setting, Walk, at, gather, count_thread, thread_task, thread_filled,
  thread_step, thread_loop, clear_counts, threads, process_threads, process_task, add_dockstat,
  process_filled, entry_step, entry_loop, photoproc,
}

module _ (y : Setting) (maxtask p : ℕ) where
  IsWithin-thread_filled :
      (r : Filled) (s : Walk)
      → p < s.tval
      → s.tval < maxtask
      → IsWithin maxtask p s (thread_filled y p r s)
  unfolding thread_filled
  IsWithin-thread_filled r s l h =
      let g : Gathered = thread_task y (at s.tasklist p) r.task s.netatop in
      let one : Walk = record s { tasklist = set s.tasklist s.tval g.task } in
      IsWithin-if maxtask p r.ok s _ _
        (λ e.
          IsWithin-trans maxtask p s one _
            (IsWithin-set maxtask p s s.tval s.tval s.dockstat g.task s.netatop (omega arith) h
              (omega arith) (omega arith))
            (IsWithin-set maxtask p one p (suc s.tval) s.dockstat
              (count_thread y r.task.gen.state (at s.tasklist p)) g.state (omega arith)
              (omega arith) (omega arith) (omega arith)))
        (λ e.
          IsWithin-set maxtask p s s.tval s.tval s.dockstat r.task s.netatop (omega arith) h
            (omega arith) (omega arith))

  IsWithin-thread_step :
      (th : Thread) (s : Walk)
      → p < s.tval
      → s.tval < maxtask
      → IsWithin maxtask p s (thread_step y p th s)
  unfolding thread_step
  IsWithin-thread_step th s l h =
      IsWithin-if maxtask p (first th.d_name == b'.' || not th.entered) s _ _
        (λ e. IsWithin-refl maxtask p s (omega arith))
        (λ e. IsWithin-thread_filled (gather y false th.files (at s.tasklist s.tval)) s l h)

  pub IsWithin-thread_loop :
      (ths : List Thread) (s : Walk)
      → p < s.tval
      → s.tval ≤ maxtask
      → IsWithin maxtask p s (thread_loop y maxtask p ths s)
  unfolding thread_loop
  IsWithin-thread_loop [] s l h = IsWithin-refl maxtask p s h
  IsWithin-thread_loop (th ∷ ths) s l h =
      IsWithin-if maxtask p (ltb s.tval maxtask) s _ _
        (λ e.
          let one = IsWithin-thread_step th s l (ltb→lt s.tval maxtask e) in
          IsWithin-trans maxtask p s (thread_step y p th s) _ one (
            IsWithin-thread_loop ths (thread_step y p th s) (omega (arith, one.tval_grows))
              one.tval_le))
        (λ e. IsWithin-refl maxtask p s h)

  IsWithin-threads :
      (task : Option (List Thread)) (s : Walk)
      → p < s.tval
      → s.tval ≤ maxtask
      → IsWithin maxtask p s (threads y maxtask p task s)
  unfolding threads
  IsWithin-threads none s l h = IsWithin-refl maxtask p s h
  IsWithin-threads (some ths) s l h = IsWithin-thread_loop ths s l h

  pub IsWithin-process_threads :
      (task : Option (List Thread)) (s : Walk)
      → p < s.tval
      → s.tval ≤ maxtask
      → IsWithin maxtask p s (process_threads y maxtask p task s)
  unfolding process_threads
  IsWithin-process_threads task s l h =
      let one : Walk = record s {
        tasklist = set s.tasklist p (clear_counts y (at s.tasklist p));
      } in
      IsWithin-if maxtask p (ltb 1 (at s.tasklist p).gen.nthr) s _ _
        (λ e.
          IsWithin-trans maxtask p s one _
            (IsWithin-set maxtask p s p s.tval s.dockstat (clear_counts y (at s.tasklist p))
              s.netatop (omega arith) (omega arith) (omega arith) h)
            (IsWithin-threads task one l h))
        (λ e. IsWithin-refl maxtask p s h)

module _ (y : Setting) (maxtask : ℕ) where
  IsWithin-process_filled :
      (e : ProcEntry) (r : Filled) (s : Walk)
      → s.tval < maxtask
      → IsWithin maxtask s.tval s (process_filled y maxtask e r s)
  unfolding process_filled
  IsWithin-process_filled e r s h =
      let g : Gathered = process_task y e.files r.task s.netatop in
      let one : Walk = record {
        tasklist = set s.tasklist s.tval g.task;
        tval = suc s.tval;
        dockstat = add_dockstat y e.files r.task s.dockstat;
        netatop = g.state;
      } in
      IsWithin-if maxtask s.tval r.ok s _ _
        (λ b.
          IsWithin-trans maxtask s.tval s one _
            (IsWithin-set maxtask s.tval s s.tval (suc s.tval) one.dockstat g.task g.state
              (omega arith) h (omega arith) (omega arith))
            (IsWithin-process_threads y maxtask s.tval e.task one (omega arith) (omega arith)))
        (λ b.
          IsWithin-set maxtask s.tval s s.tval s.tval s.dockstat r.task s.netatop (omega arith) h
            (omega arith) (omega arith))

  pub IsWithin-entry_step :
      (e : ProcEntry) (s : Walk)
      → s.tval < maxtask
      → IsWithin maxtask s.tval s (entry_step y maxtask e s)
  unfolding entry_step
  IsWithin-entry_step e s h =
      IsWithin-if maxtask s.tval (isdigit (first e.d_name) && e.entered) s _ _
        (λ b. IsWithin-process_filled e (gather y true e.files (at s.tasklist s.tval)) s h)
        (λ b. IsWithin-refl maxtask s.tval s (omega arith))

  IsWithin-lower :
      (lo hi : ℕ) (a b : Walk) → lo ≤ hi → IsWithin maxtask hi a b → IsWithin maxtask lo a b
  IsWithin-lower lo hi a b l h = record {
    tval_le = h.tval_le;
    tval_grows = h.tval_grows;
    same_length = h.same_length;
    same_behind = h.same_behind;
    same_before = λ j k. h.same_before j (omega arith);
  }

  IsWithin-entry_loop :
      (es : List ProcEntry) (s : Walk)
      → s.tval ≤ maxtask
      → IsWithin maxtask s.tval s (entry_loop y maxtask es s)
  unfolding entry_loop
  IsWithin-entry_loop [] s h = IsWithin-refl maxtask s.tval s h
  IsWithin-entry_loop (e ∷ es) s h =
      IsWithin-if maxtask s.tval (ltb s.tval maxtask) s _ _
        (λ b.
          let s1 = entry_step y maxtask e s in
          let one = IsWithin-entry_step e s (ltb→lt s.tval maxtask b) in
          IsWithin-trans maxtask s.tval s s1 _ one (
            IsWithin-lower s.tval s1.tval s1 _ one.tval_grows
              (IsWithin-entry_loop es s1 one.tval_le)))
        (λ b. IsWithin-refl maxtask s.tval s h)

-- Whatever is read of the files: photoproc stores at most maxtask tasks, leaves the entries of the
-- array from maxtask on as they were, and the array keeps its length.
pub photoproc-IsWithin :
    (y : Setting) (proc : List ProcEntry) (tasklist : List Tstat) (maxtask : ℕ) (s : Netatop)
    → IsWithin maxtask 0
        (record { tasklist = tasklist; tval = 0; dockstat = 0; netatop = s })
        (photoproc y proc tasklist maxtask s)
unfolding photoproc
photoproc-IsWithin y proc tasklist maxtask s =
    IsWithin-entry_loop y maxtask proc
      (record { tasklist = tasklist; tval = 0; dockstat = 0; netatop = s }) (omega arith)
