-- ===== src/Atop/Deviate/Arrays.antt =====
-- The sizes of the arrays that deviattask allocates, against what it stores in them.
use practice.Base.{
  ℕ, suc, ◌+◌, ◌≡◌, refl, ap, ◌∙◌, Bool, true, false, not, ◌&&◌, Option, none, some, List, [], ◌∷◌,
  arith, length, ◌>>=◌, Bool-cases, inl, inr, length-append,
}
use practice.Atop.Tstat.{Tstat, zero_tstat}
use practice.Atop.Pdb.{Pdb, pdb_gettask}
use practice.Atop.Deviate.{calcdiff}
use practice.Atop.Deviate.Same.{same_tstat}
use practice.Atop.Deviate.Task.{
  DevState, Present, no_counts, procall, procactive, set_active, see_process, active_task,
  append_task, found_task, present_task, present_tasks,
}
use practice.Atop.Deviate.Tally.{bit, actives, procs, active_procs, proc_at, calcdiff-gen}
use practice.Atop.Deviate.Present.{
  IsAhead, Owner, see_process-IsAhead, see_process-Owner, see_process-done, active_task-Steps,
  append_task-IsAhead, append_task-Owner,
}

-- A round that returns with one more deviation and the counters level with taskall.
pub record Round (r : Option DevState) (n : ℕ) : Type 0 where
  pub after : DevState
  pub runs : r ≡ some after
  pub level : IsAhead 0 0 0 after
  pub owned : proc_at after.thisproc after.done ≡ true
  pub size : length after.done ≡ n

append_task-Round :
    (t : Tstat) (s : DevState) (b w : Bool)
    → t.gen.isproc ≡ b
    → t.gen.wasinactive ≡ w
    → IsAhead (bit b) (bit (b && not w)) (bit (not w)) s
    → Owner b s
    → Round (some (append_task t s)) (suc (length s.done))
append_task-Round t s b w e f v o = record {
  after = append_task t s;
  runs = refl;
  level = append_task-IsAhead t s (rw (e, f) v);
  owned = append_task-Owner t s b e o;
  size = unfold append_task in length-append s.done (t ∷ []) ∙ omega arith;
}

active_task-Round :
    (tot : ℕ) (s : DevState) (cur pre : Tstat) (newtask b : Bool)
    → cur.gen.isproc ≡ b
    → IsAhead (bit b) 0 0 s
    → Owner b s
    → Round
        (do
          s' ← active_task cur s
          some (append_task (calcdiff (set_active false cur) pre newtask tot) s'))
        (suc (length s.done))
active_task-Round tot s cur pre newtask b e v o =
    let st = active_task-Steps cur s b e v o in
    let g = calcdiff-gen (set_active false cur) pre newtask tot in
    let r =
      append_task-Round (calcdiff (set_active false cur) pre newtask tot) st.after b false
        (g.0 ∙ unfold set_active in e) (g.1 ∙ unfold set_active in refl) (rw (true_and b) st.ahead)
        st.owner in
    record {
      after = r.after;
      runs = rw (st.runs, ◌>>=◌) r.runs;
      level = r.level;
      owned = r.owned;
      size = r.size ∙ ap suc st.size;
    }
  where
    true_and : (b : Bool) → (b && not false) ≡ b
    true_and true = refl
    true_and false = refl

-- The state before the first loop looks into the database, with another database.
other_db :
    (x y z : ℕ) (s : DevState) (db : Pdb) → IsAhead x y z s → IsAhead x y z (record s { db = db })
other_db x y z s db v = record {
  all_procs = v.all_procs;
  active_procs = v.active_procs;
  active_tasks = v.active_tasks;
}

thisproc_db : (s : DevState) (db : Pdb) (b : Bool) → Owner b s → Owner b (record s { db = db })
thisproc_db s db true o = o
thisproc_db s db false o = o

found_task-Round :
    (tot : ℕ) (p : Present) (s : DevState) (r : Option ℕ) (b : Bool)
    → p.task.gen.isproc ≡ b
    → IsAhead (bit b) 0 0 s
    → Owner b s
    → Round (found_task tot p s r) (suc (length s.done))
unfolding found_task
found_task-Round tot p s none b e v o =
    active_task-Round tot _ (set_active false p.task) zero_tstat true b (unfold set_active in e)
      (other_db _ _ _ s _ v) (thisproc_db s _ b o)
found_task-Round tot p s (some a) b e v o = elim (Bool-cases (same_tstat p.task (s.db.heap a))) [
  | inr d ↦ rw d (
      active_task-Round tot _ p.task (s.db.heap a) false b e (other_db _ _ _ s _ v)
        (thisproc_db s _ b o))
  | inl d ↦
      let g = calcdiff-gen (set_active true p.task) (s.db.heap a) false tot in
      rw d (
        append_task-Round (calcdiff (set_active true p.task) (s.db.heap a) false tot) s b true
          (g.0 ∙ unfold set_active in e) (g.1 ∙ unfold set_active in refl) (rw (and_false b) v) o)
]
  where
    and_false : (b : Bool) → (b && not true) ≡ false
    and_false true = refl
    and_false false = refl

present_task-Round :
    (tot : ℕ) (p : Present) (s : DevState)
    → IsAhead 0 0 0 s
    → (p.task.gen.isproc ≡ false → proc_at s.thisproc s.done ≡ true)
    → Round (present_task tot p s) (suc (length s.done))
unfolding present_task
present_task-Round tot p s v h =
    let s1 = see_process p.task s in
    let r = pdb_gettask p.task.gen.pid p.task.gen.isproc p.task.gen.btime s1.db in
    let f =
      found_task-Round tot p (record s1 { db = r.1 }) r.0 p.task.gen.isproc refl
        (other_db _ _ _ s1 r.1 (see_process-IsAhead p.task s v))
        (thisproc_db s1 r.1 p.task.gen.isproc
          (see_process-Owner p.task s p.task.gen.isproc refl h)) in
    record {
      after = f.after;
      runs = f.runs;
      level = f.level;
      owned = f.owned;
      size = f.size ∙ ap (λ (l : List Tstat). suc (length l)) (see_process-done p.task s);
    }

present_tasks-Round :
    (tot : ℕ) (present : List Present) (s : DevState)
    → IsAhead 0 0 0 s
    → proc_at s.thisproc s.done ≡ true
    → Round (present_tasks tot present s) (length present + length s.done)
unfolding present_tasks
present_tasks-Round tot [] s v h = record {
  after = s;
  runs = refl;
  level = v;
  owned = h;
  size = omega arith;
}
present_tasks-Round tot (p ∷ rest) s v h =
    let one = present_task-Round tot p s v (λ _. h) in
    let more = present_tasks-Round tot rest one.after one.level one.owned in
    record {
      after = more.after;
      runs = rw (one.runs, ◌>>=◌) more.runs;
      level = more.level;
      owned = more.owned;
      size = omega (arith, more.size, one.size);
    }

-- The first task of the list is a process.
abbrev pub StartsWithProcess : List Present → Type 0
StartsWithProcess [] = ⊥
StartsWithProcess (p ∷ rest) = p.task.gen.isproc ≡ true

abbrev pub at_start : Pdb → DevState
at_start db = record { db = db; done = []; thisproc = 0; counts = no_counts }

pub start_tasks-Round :
    (tot : ℕ) (present : List Present) (db : Pdb)
    → StartsWithProcess present
    → Round (present_tasks tot present (at_start db)) (length present)
unfolding present_tasks procs active_procs actives
start_tasks-Round tot [] db h = absurd h
start_tasks-Round tot (p ∷ rest) db h =
    let one =
      present_task-Round tot p (at_start db)
        (record {
          all_procs = unfold procs procall in refl;
          active_procs = unfold active_procs procactive in refl;
          active_tasks = refl;
        })
        (λ k. absurd (cc (h, k))) in
    let more = present_tasks-Round tot rest one.after one.level one.owned in
    record {
      after = more.after;
      runs = rw (one.runs, ◌>>=◌) more.runs;
      level = more.level;
      owned = more.owned;
      size = omega (arith, more.size, one.size);
    }
