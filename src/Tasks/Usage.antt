-- ===== src/Tasks/Usage.antt =====
-- The ticks that are reported for a process add up to the difference of its CPU times.
use practice.Base.{
  ℕ, ◌+◌, ◌%◌, ◌<◌, ◌≡◌, refl, none, some, List, [], ◌∷◌, ◌++◌, ◌==◌, if◌then◌else◌, arith,
  Option-cases, inl, inr, ◌∙◌, true, false, Bool, Bool-cases, ==_iff,
}
use practice.Tasks.{
  u64_mod, TimeInfo, Sample, store, cpu_used, find_task, update_task, read_proc, run_samples,
}

-- The CPU time of a process with its children, as readProc stored it.
abbrev pub spent : TimeInfo → ℕ
spent t = t.utime + t.stime + t.cutime + t.cstime

-- The fields are unsigned 64-bit numbers.
pub record IsWord (t : TimeInfo) : Type 0 where
  pub utime_fits : t.utime < u64_mod
  pub stime_fits : t.stime < u64_mod
  pub cutime_fits : t.cutime < u64_mod
  pub cstime_fits : t.cstime < u64_mod

abbrev pub AllWords : List Sample → Type 0
AllWords [] = Unit
AllWords (s ∷ rest) = IsWord (store s) × AllWords rest

-- The node of the last sample of the process, or the one before.
pub last_stored : ℕ → List Sample → TimeInfo → TimeInfo
last_stored p [] t = t
last_stored p (s ∷ rest) t = last_stored p rest (if s.id == p then store s else t)

find_task-update :
    (s : Sample) (p : ℕ) (tasks : List TimeInfo) (t : TimeInfo)
    → find_task s.id tasks ≡ some t
    → find_task p (update_task s tasks) ≡ (if s.id == p then some (store s) else find_task p tasks)
unfolding find_task update_task store
find_task-update s p [] t h = ground arith
find_task-update s p (u ∷ rest) t h = ground (arith, find_task-update s p rest t)

find_task-append :
    (s : Sample) (p : ℕ) (tasks : List TimeInfo)
    → find_task s.id tasks ≡ none
    → find_task p (tasks ++ store s ∷ [])
      ≡ (if s.id == p then some (store s) else find_task p tasks)
unfolding find_task store
find_task-append s p [] h = ground arith
find_task-append s p (u ∷ rest) h = ground (arith, find_task-append s p rest)

read_proc-some :
    (s : Sample) (tasks : List TimeInfo) (t : TimeInfo)
    → find_task s.id tasks ≡ some t
    → read_proc s tasks ≡ (update_task s tasks, some (cpu_used s t))
unfolding read_proc
read_proc-some s tasks t e = ground arith

read_proc-none :
    (s : Sample) (tasks : List TimeInfo)
    → find_task s.id tasks ≡ none
    → read_proc s tasks ≡ (tasks ++ store s ∷ [], none)
unfolding read_proc
read_proc-none s tasks e = ground arith

-- After a sample the list holds it as the node of its process, and the nodes of the other processes
-- as they were, also where the process is new.
pub find_task-read_proc :
    (s : Sample) (p : ℕ) (tasks : List TimeInfo)
    → find_task p (read_proc s tasks).0 ≡ (if s.id == p then some (store s) else find_task p tasks)
find_task-read_proc s p tasks = elim (Option-cases (find_task s.id tasks)) [
  | inl e ↦ rw (read_proc-none s tasks e) (find_task-append s p tasks e)
  | inr (t, e) ↦ rw (read_proc-some s tasks t e) (find_task-update s p tasks t e)
]

-- What one sample reports of its process, where it is known.
cpu_used-spent :
    (s : Sample) (t : TimeInfo)
    → IsWord t
    → IsWord (store s)
    → (spent t + (cpu_used s t).ticks) % u64_mod ≡ spent (store s) % u64_mod
unfolding cpu_used store
cpu_used-spent s t v w = omega arith

ticks_of : ℕ → Sample → List TimeInfo → ℕ
ticks_of p s tasks =
    if s.id == p then elim (read_proc s tasks).1 [ none ↦ 0 | some u ↦ u.ticks ] else 0

ticks_of-spent :
    (p : ℕ) (s : Sample) (tasks : List TimeInfo) (t : TimeInfo)
    → find_task p tasks ≡ some t
    → IsWord t
    → IsWord (store s)
    → (spent t + ticks_of p s tasks) % u64_mod ≡ spent (if s.id == p then store s else t) % u64_mod
unfolding ticks_of
ticks_of-spent p s tasks t e v w = elim (Bool-cases (s.id == p)) [
  | inr other ↦ rw other (omega arith)
  | inl same ↦
      let here : find_task s.id tasks ≡ some t = rw ((==_iff s.id p).0 same) e in
      rw (same, read_proc-some s tasks t here) (cpu_used-spent s t v w)
]

run_samples-cons :
    (p : ℕ) (s : Sample) (rest : List Sample) (tasks : List TimeInfo)
    → run_samples p (s ∷ rest) tasks ≡ (
      (run_samples p rest (read_proc s tasks).0).0,
      ticks_of p s tasks + (run_samples p rest (read_proc s tasks).0).1,
    )
unfolding run_samples ticks_of
run_samples-cons p s rest tasks = refl

record Telescopes (p : ℕ) (samples : List Sample) (tasks : List TimeInfo) (t : TimeInfo)
    : Type 0 where
  node : find_task p (run_samples p samples tasks).0 ≡ some (last_stored p samples t)
  sum :
      (spent t + (run_samples p samples tasks).1) % u64_mod
      ≡ spent (last_stored p samples t) % u64_mod

run_samples-Telescopes :
    (p : ℕ) (samples : List Sample) (tasks : List TimeInfo) (t : TimeInfo)
    → find_task p tasks ≡ some t
    → IsWord t
    → AllWords samples
    → Telescopes p samples tasks t
unfolding last_stored
run_samples-Telescopes p [] tasks t e v ws =
    unfold run_samples in record { node = e; sum = omega arith }
run_samples-Telescopes p (s ∷ rest) tasks t e v (w, ws) =
    let t' = if s.id == p then store s else t in
    let e' : find_task p (read_proc s tasks).0 ≡ some t' =
      find_task-read_proc s p tasks ∙ ground arith in
    let v' : IsWord t' = step_word (s.id == p) in
    let next = run_samples-Telescopes p rest (read_proc s tasks).0 t' e' v' ws in
    record {
      node = rw (run_samples-cons p s rest tasks) next.node;
      sum =
          rw (run_samples-cons p s rest tasks)
            (omega (arith, next.sum, ticks_of-spent p s tasks t e v w));
    }
  where
    step_word : (b : Bool) → IsWord (if b then store s else t)
    step_word true = w
    step_word false = v

-- Over any sequence of readings of /proc, the ticks that are reported for a process which the list
-- holds add up, modulo 2^64, to the CPU time of its last reading less the one that the list held
-- before; and the list then holds the last reading of the process.
pub run_samples-spent :
    (p : ℕ) (samples : List Sample) (tasks : List TimeInfo) (t : TimeInfo)
    → find_task p tasks ≡ some t
    → IsWord t
    → AllWords samples
    → (find_task p (run_samples p samples tasks).0 ≡ some (last_stored p samples t))
      × ((spent t + (run_samples p samples tasks).1) % u64_mod
          ≡ spent (last_stored p samples t) % u64_mod)
run_samples-spent p samples tasks t e v ws =
    let r = run_samples-Telescopes p samples tasks t e v ws in (r.node, r.sum)
