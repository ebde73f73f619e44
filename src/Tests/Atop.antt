-- ===== src/Tests/Atop.antt =====
-- A database of two tasks whose numbers share a hash chain.
use practice.Base.{
  ℕ, length, ◌+◌, ◌≡◌, ◌∙◌, refl, true, false, not, ◌&&◌, ◌||◌, some, List, [], ◌∷◌, arith, ◌==◌,
  Bool-cases, inl, inr,
}
use practice.Base.Text.{codes}
use practice.Atop.Tstat.{Tstat, Gen, Dsk, zero_tstat}
use practice.Atop.Pdb.{
  Pdb, hash_index, same_task, pdb_addtask, pdb_deltask, pdb_makeresidue, unchain,
}
use practice.Atop.Pdb.Nodes.{mem}
use practice.Atop.Pdb.Delete.{bucket, stored, IsPdb, deltask-IsPdb}
use practice.Atop.Pdb.Insert.{
  empty_pdb, empty_pdb-IsPdb, empty_pdb-bare, addtask-IsPdb, deltask-addtask,
}
use practice.Atop.Netatop.Exits.{
  Exits, by_pid, netatop_exithash, netatop_exitfind, no_buckets, no_exit,
}
use practice.Atop.Netatop.Exits.First.{gen-netatop_exitfind}
use practice.Atop.Deviate.{calcdiff}
use practice.Atop.Deviate.Counters.{grown, IsDsk, calcdiff-grown}
use practice.Atop.Deviate.Task.{DevState, Present, sample_tasks, procall, procactive}
use practice.Atop.Deviate.Tally.{actives}
use practice.Atop.Deviate.Exits.{sample_tasks-level}
use practice.Atop.Pdb.Sweep.{Query, sample, referred, sample-referred}

abbrev general : ℕ → Gen
general pid = record {
  tgid = pid;
  pid = pid;
  ppid = 1;
  ruid = 0;
  euid = 0;
  suid = 0;
  fsuid = 0;
  rgid = 0;
  egid = 0;
  sgid = 0;
  fsgid = 0;
  nthr = 1;
  name = codes "sh";
  isproc = true;
  state = b'S';
  excode = 0;
  btime = 1000 + pid;
  elaps = 0;
  cmdline = codes "sh";
  nthrslpi = 1;
  nthrslpu = 0;
  nthrrun = 0;
  ctid = 0;
  vpid = 0;
  wasinactive = false;
  container = [];
}

-- The node at an address holds the process of that number.
abbrev heap : ℕ → Tstat
heap a = record zero_tstat { gen = general a }

abbrev one_task : Pdb
one_task = pdb_addtask 5 5 (empty_pdb heap)

abbrev two_tasks : Pdb
two_tasks = pdb_addtask 261 261 one_task

one_added :
    IsPdb (pdb_addtask 5 5 (empty_pdb heap))
    × ((b : ℕ) → stored (pdb_addtask 5 5 (empty_pdb heap)) b ≡ 5 == b || stored (empty_pdb heap) b)
one_added =
    addtask-IsPdb 5 5 (empty_pdb heap) (empty_pdb-IsPdb heap) refl (λ i. empty_pdb-bare heap i 5)
      (λ b m. absurd (nothing b m))
  where
    nothing : (b : ℕ) → stored (empty_pdb heap) b ≡ true → ⊥
    nothing b m = cc (m, empty_pdb-bare heap (hash_index b) b)

one_task-IsPdb : IsPdb one_task
one_task-IsPdb = one_added.0

one_stored : (b : ℕ) → stored one_task b ≡ 5 == b
one_stored b = one_added.1 b ∙ ground (arith, empty_pdb-bare heap (hash_index b) b)

one_bare : (i : ℕ) → mem 261 (bucket one_task i) ≡ false
one_bare i = elim (Bool-cases (mem 261 (bucket one_task i))) [
  | inr e ↦ e
  | inl e ↦ absurd (ground (arith, one_task-IsPdb.placed i 261 e, one_stored 261))
]

two_tasks-IsPdb : IsPdb two_tasks
unfolding pdb_addtask
two_tasks-IsPdb = (addtask-IsPdb 261 261 one_task one_task-IsPdb refl one_bare not_there).0
  where
    not_there : (b : ℕ) → stored one_task b ≡ true → same_task 261 true (heap b) ≡ false
    not_there b m = unfold same_task in ground (arith, one_stored b)

five_stored : stored two_tasks 5 ≡ true
unfolding mem pdb_addtask
five_stored = refl

deltask-IsPdb_example :
    (after : Pdb) × (pdb_deltask (two_tasks.heap 5).gen.pid (two_tasks.heap 5).gen.isproc two_tasks
      ≡ some (true, after))
    × IsPdb after
    × ((b : ℕ) → stored after b ≡ stored two_tasks b && not (5 == b))
deltask-IsPdb_example = deltask-IsPdb two_tasks two_tasks-IsPdb 5 five_stored

-- Only the first process is still there.
abbrev queries : List Query
queries = (record { pid = 5; isproc = true; btime = 1006 }) ∷ []

sample-referred_example :
    (after : Pdb) × (sample queries two_tasks ≡ some after)
    × IsPdb after
    × (after.heap ≡ two_tasks.heap)
    × (after.presidue ≡ [])
    × ((a : ℕ)
        → stored after a ≡ stored two_tasks a && referred a queries (pdb_makeresidue two_tasks))
sample-referred_example = sample-referred queries two_tasks two_tasks-IsPdb

abbrev transfers : Dsk
transfers = record { rio = 4294967295; rsz = 8; wio = 1; wsz = 2; cwsz = 0 }

transfers-IsDsk : IsDsk transfers
transfers-IsDsk = record {
  rio_fits = omega arith;
  rsz_fits = omega arith;
  wio_fits = omega arith;
  wsz_fits = omega arith;
  cwsz_fits = omega arith;
}

abbrev read_before : Tstat
read_before = record zero_tstat { dsk = transfers }

calcdiff-grown_example :
    ((calcdiff (grown read_before transfers 3 4) read_before false 400).dsk ≡ transfers)
    × ((calcdiff (grown read_before transfers 3 4) read_before false 400).mem.minflt ≡ 3)
    × ((calcdiff (grown read_before transfers 3 4) read_before false 400).mem.majflt ≡ 4)
calcdiff-grown_example =
    calcdiff-grown read_before transfers 3 4 false 400 transfers-IsDsk transfers-IsDsk (omega arith)
      (omega arith) (omega arith) (omega arith)

-- Process 5 as it was, an active thread of it, and a new process; process 261 has exited.
abbrev thread : Tstat
thread = let g = general 6 in record zero_tstat { gen = record g { isproc = false } }

abbrev tasks : List Present
tasks =
    (record { task = heap 5; node = 500 })
    ∷ (record { task = thread; node = 600 })
    ∷ (record { task = heap 7; node = 700 })
    ∷ []

-- An exited task of the file of netatop, which is searched by its pid.
abbrev one_exit : Exits
one_exit = netatop_exithash by_pid (record {
  exitall = (let n = no_exit.npt in record no_exit { npt = record n { id = 261 } }) ∷ [];
  exithash = by_pid;
  esbucket = no_buckets;
})

abbrev exit_found : Tstat → Tstat → Tstat → Tstat
exit_found cur dev pre = (netatop_exitfind cur.gen.pid dev pre one_exit).dev

sample_tasks-level_example :
    (s : DevState) × (sample_tasks exit_found 1000 400 tasks (heap 261 ∷ []) two_tasks ≡ some s)
    × (length s.done ≡ 3 + 1)
    × (s.counts.nprocall ≡ length (procall s.done))
    × (s.counts.nprocactive ≡ length (procactive s.done))
    × (s.counts.ntaskactive ≡ actives s.done)
sample_tasks-level_example =
    sample_tasks-level exit_found 1000
      (λ cur dev pre. gen-netatop_exitfind cur.gen.pid dev pre one_exit) 400 tasks (heap 261 ∷ [])
      two_tasks refl (omega arith, refl, tt)

deltask-addtask_example :
    pdb_deltask 261 true (pdb_addtask 261 261 one_task)
    ≡ some (true, record one_task { presidue = unchain 261 one_task.presidue })
unfolding same_task pdb_addtask
deltask-addtask_example = deltask-addtask 261 261 true one_task refl refl
