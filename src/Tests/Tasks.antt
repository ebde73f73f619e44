-- ===== src/Tests/Tasks.antt =====
-- A process that is read three times, beside another one.
use practice.Base.{◌+◌, ◌%◌, ◌≤◌, ◌≡◌, refl, some, List, [], ◌∷◌, arith}
use practice.Tasks.{
  u64_mod, TimeInfo, Sample, sentinel, store, read_proc, find_task, run_samples, update_task,
  cpu_used,
}
use practice.Tasks.Usage.{spent, IsWord, AllWords, last_stored, run_samples-spent}

abbrev at_start : Sample
at_start = record { id = 7; utime = 10; stime = 2; cutime = 0; cstime = 0; ms = 1000 }

abbrev later : Sample
later = record { id = 7; utime = 14; stime = 3; cutime = 1; cstime = 0; ms = 2000 }

abbrev other : Sample
other = record { id = 9; utime = 1; stime = 1; cutime = 0; cstime = 0; ms = 2000 }

abbrev at_end : Sample
at_end = record { id = 7; utime = 20; stime = 5; cutime = 1; cstime = 0; ms = 3000 }

abbrev tasks : List TimeInfo
tasks = sentinel ∷ store at_start ∷ []

run_sums : (run_samples 7 (later ∷ other ∷ at_end ∷ []) tasks).1 ≡ 14
unfolding run_samples read_proc find_task update_task store cpu_used
run_sums = refl

find_start : find_task 7 tasks ≡ some (store at_start)
unfolding find_task store
find_start = refl

start-IsWord : IsWord (store at_start)
unfolding store
start-IsWord = record {
  utime_fits = omega arith;
  stime_fits = omega arith;
  cutime_fits = omega arith;
  cstime_fits = omega arith;
}

samples-AllWords : AllWords (later ∷ other ∷ at_end ∷ [])
unfolding store
samples-AllWords =
    let word : (s : Sample)
        → s.utime ≤ 20
        → s.stime ≤ 5
        → s.cutime ≤ 1
        → s.cstime ≤ 0
        → IsWord (store s) =
      λ s a b c d. record {
        utime_fits = omega arith;
        stime_fits = omega arith;
        cutime_fits = omega arith;
        cstime_fits = omega arith;
      } in
    (
      word later (omega arith) (omega arith) (omega arith) (omega arith),
      (
        word other (omega arith) (omega arith) (omega arith) (omega arith),
        (word at_end (omega arith) (omega arith) (omega arith) (omega arith), tt),
      ),
    )

run_samples-spent_example :
    (find_task 7 (run_samples 7 (later ∷ other ∷ at_end ∷ []) tasks).0
      ≡ some (last_stored 7 (later ∷ other ∷ at_end ∷ []) (store at_start)))
    × ((spent (store at_start) + (run_samples 7 (later ∷ other ∷ at_end ∷ []) tasks).1) % u64_mod
        ≡ spent (last_stored 7 (later ∷ other ∷ at_end ∷ []) (store at_start)) % u64_mod)
run_samples-spent_example =
    run_samples-spent 7 (later ∷ other ∷ at_end ∷ []) tasks (store at_start) find_start start-IsWord
      samples-AllWords
