-- ===== src/Atop/Deviate/Present.antt =====
-- The first loop of deviattask: it runs to its end, and keeps count of the tasks.
use practice.Base.{
  ℕ, ◌+◌, ◌≡◌, refl, ◌∙◌, Bool, true, false, not, ◌&&◌, Option, some, arith, length,
}
use practice.Atop.Tstat.{Tstat}
use practice.Atop.Deviate.Task.{
  DevState, inactive_at, activate_at, see_process, count_active, wake_process, active_thread,
  active_task, append_task,
}
use practice.Atop.Deviate.Tally.{
  bit, actives, procs, active_procs, proc_at, procs-append, active_procs-append, actives-append,
  proc_at-append, proc_at-last, activate_at-Activated, inactive_at-some,
}

-- The counters are ahead of taskall by what the current task adds to it.
pub record IsAhead (x y z : ℕ) (s : DevState) : Type 0 where
  pub all_procs : s.counts.nprocall ≡ x + procs s.done
  pub active_procs : s.counts.nprocactive ≡ y + active_procs s.done
  pub active_tasks : s.counts.ntaskactive ≡ z + actives s.done

-- thisproc is the place of the current process, or a process before.
abbrev pub Owner : Bool → DevState → Type 0
Owner true s = s.thisproc ≡ length s.done
Owner false s = proc_at s.thisproc s.done ≡ true

-- A step that returns, with the counters that far ahead afterwards.
pub record Steps (r : Option DevState) (isproc : Bool) (x y z n : ℕ) : Type 0 where
  pub after : DevState
  pub runs : r ≡ some after
  pub ahead : IsAhead x y z after
  pub owner : Owner isproc after
  pub size : length after.done ≡ n

pub see_process-IsAhead :
    (cur : Tstat) (s : DevState)
    → IsAhead 0 0 0 s
    → IsAhead (bit cur.gen.isproc) 0 0 (see_process cur s)
unfolding see_process
see_process-IsAhead cur s v = record {
  all_procs = ground (arith, v.all_procs);
  active_procs = ground (arith, v.active_procs);
  active_tasks = ground (arith, v.active_tasks);
}

pub see_process-Owner :
    (cur : Tstat) (s : DevState) (b : Bool)
    → cur.gen.isproc ≡ b
    → (b ≡ false → proc_at s.thisproc s.done ≡ true)
    → Owner b (see_process cur s)
unfolding see_process
see_process-Owner cur s true e h = rw e
see_process-Owner cur s false e h = rw e (h refl)

pub see_process-done : (cur : Tstat) (s : DevState) → (see_process cur s).done ≡ s.done
unfolding see_process
see_process-done cur s = ground arith

active_thread-Steps :
    (s : DevState)
    → IsAhead 0 0 0 s
    → proc_at s.thisproc s.done ≡ true
    → Steps (active_thread s) false 0 0 1 (length s.done)
unfolding active_thread wake_process count_active
active_thread-Steps s v p = let (b, e) = inactive_at-some s.thisproc s.done p in by_flag b e
  where
    by_flag :
        (b : Bool)
        → inactive_at s.thisproc s.done ≡ some b
        → Steps (active_thread s) false 0 0 1 (length s.done)
    by_flag false e =
        let c = s.counts in
        record {
          after = record s { counts = record c { ntaskactive = c.ntaskactive + 1 } };
          runs = unfold active_thread wake_process in rw e;
          ahead = record {
            all_procs = v.all_procs;
            active_procs = v.active_procs;
            active_tasks = omega (arith, v.active_tasks);
          };
          owner = p;
          size = refl;
        }
    by_flag true e =
        let c = s.counts in
        let a = activate_at-Activated s.thisproc s.done p e in
        record {
          after = record s {
            done = activate_at s.thisproc s.done;
            counts = record c {
              ntaskactive = c.ntaskactive + 1 + 1;
              nprocactive = c.nprocactive + 1;
            };
          };
          runs = unfold active_thread wake_process count_active in rw e;
          ahead = record {
            all_procs = omega (arith, v.all_procs, a.procs_same);
            active_procs = omega (arith, v.active_procs, a.active_more);
            active_tasks = omega (arith, v.active_tasks, a.actives_more);
          };
          owner = a.still_proc;
          size = a.same_length;
        }

pub active_task-Steps :
    (cur : Tstat) (s : DevState) (b : Bool)
    → cur.gen.isproc ≡ b
    → IsAhead (bit b) 0 0 s
    → Owner b s
    → Steps (active_task cur s) b (bit b) (bit b) 1 (length s.done)
unfolding active_task count_active
active_task-Steps cur s true e v o = record {
  after = record s { counts = count_active s.counts };
  runs = rw e;
  ahead = record {
    all_procs = v.all_procs;
    active_procs = omega (arith, v.active_procs);
    active_tasks = omega (arith, v.active_tasks);
  };
  owner = o;
  size = refl;
}
active_task-Steps cur s false e v o = rw e (active_thread-Steps s v o)

-- Writing a deviation brings taskall up to the counters.
pub append_task-IsAhead :
    (t : Tstat) (s : DevState)
    → IsAhead
        (bit t.gen.isproc)
        (bit (t.gen.isproc && not t.gen.wasinactive))
        (bit (not t.gen.wasinactive))
        s
    → IsAhead 0 0 0 (append_task t s)
unfolding append_task
append_task-IsAhead t s v = record {
  all_procs = omega (arith, v.all_procs, procs-append t s.done);
  active_procs = omega (arith, v.active_procs, active_procs-append t s.done);
  active_tasks = omega (arith, v.active_tasks, actives-append t s.done);
}

pub append_task-Owner :
    (t : Tstat) (s : DevState) (b : Bool)
    → t.gen.isproc ≡ b
    → Owner b s
    → proc_at (append_task t s).thisproc (append_task t s).done ≡ true
unfolding append_task
append_task-Owner t s true e o = rw o (proc_at-last t s.done ∙ e)
append_task-Owner t s false e o = proc_at-append t s.thisproc s.done o
