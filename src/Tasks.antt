-- ===== src/Tasks.antt =====
-- readProc of Qt/ZMonitor/ProcessMornitoring/zprocess.c: the list of the CPU times that were seen last,
-- one node for each process behind a first node with pid -1 (here 2^32 - 1), and the ticks that a
-- process used since. The numbers of /proc/<pid>/stat and the clock are arguments; the division by
-- the elapsed time in floats and the printing are left out. isFirst is never used by the code.
pub mod Usage
use practice.Base.{
  ℕ, ◌+◌, ◌-◌, ◌*◌, ◌%◌, ◌^◌, Option, none, some, List, [], ◌∷◌, ◌++◌, ◌==◌, if◌then◌else◌,
}

abbrev pub u64_mod : ℕ
u64_mod = 2 ^ 64

pub record TimeInfo : Type 0 where
  pub pid : ℕ
  pub utime : ℕ
  pub stime : ℕ
  pub cutime : ℕ
  pub cstime : ℕ
  pub last_time : ℕ

-- What one reading of /proc/<pid>/stat gives, with the time of the reading in milliseconds.
pub record Sample : Type 0 where
  pub id : ℕ
  pub utime : ℕ
  pub stime : ℕ
  pub cutime : ℕ
  pub cstime : ℕ
  pub ms : ℕ

-- The first node, which getProc makes.
abbrev pub sentinel : TimeInfo
sentinel = record { pid = 2 ^ 32 - 1; utime = 0; stime = 0; cutime = 0; cstime = 0; last_time = 0 }

unfoldable pub store : Sample → TimeInfo
store s = record {
  pid = s.id;
  utime = s.utime;
  stime = s.stime;
  cutime = s.cutime;
  cstime = s.cstime;
  last_time = s.ms;
}

-- The ticks since the last sample, in unsigned long long, and the milliseconds since then.
pub record Used : Type 0 where
  pub ticks : ℕ
  pub elapsed : ℕ

unfoldable pub cpu_used : Sample → TimeInfo → Used
cpu_used s t = record {
  ticks =
      (s.utime
        + s.stime
        + s.cstime
        + s.cutime
        + 4 * u64_mod
        - t.cstime
        - t.cutime
        - t.stime
        - t.utime)
      % u64_mod;
  elapsed = s.ms - t.last_time;
}

-- `while (temp != NULL)`: the first node of the process.
unfoldable pub find_task : ℕ → List TimeInfo → Option TimeInfo
find_task id [] = none
find_task id (t ∷ rest) = if t.pid == id then some t else find_task id rest

unfoldable pub update_task : Sample → List TimeInfo → List TimeInfo
unfolding store
update_task s [] = []
update_task s (t ∷ rest) = if t.pid == s.id then store s ∷ rest else t ∷ update_task s rest

-- The new list, and what was used (none: a new process, cpu_used stays 0).
unfoldable pub read_proc : Sample → List TimeInfo → List TimeInfo × Option Used
unfolding store
read_proc s tasks = elim (find_task s.id tasks) [
  | some t ↦ (update_task s tasks, some (cpu_used s t))
  | none ↦ (tasks ++ store s ∷ [], none)
]

-- One reading after another, as getProc makes them; the ticks reported for one process are added up.
unfoldable pub run_samples : ℕ → List Sample → List TimeInfo → List TimeInfo × ℕ
run_samples p [] tasks = (tasks, 0)
run_samples p (s ∷ rest) tasks =
    let (tasks', used) = read_proc s tasks in
    let (last, sum) = run_samples p rest tasks' in
    (last, (if s.id == p then elim used [ none ↦ 0 | some u ↦ u.ticks ] else 0) + sum)
