-- ===== src/Atop/Photoproc/Walk.antt =====
-- photoproc and countprocs of Qt/FakeAtop/photoproc.c: the walk through the directories of /proc, which
-- fills an array of tasks. An entry whose files cannot be read keeps what was stored so far.
pub mod Group
pub mod Within
pub mod Bounds
pub mod Counts
pub mod Threads
pub mod Layout
use practice.Base.{
  ℕ, zero, suc, ◌+◌, ◌%◌, Bool, true, false, ◌&&◌, ◌||◌, not, Option, none, some, List, [], ◌∷◌,
  ltb, ◌==◌, if◌then◌else◌, get_or, set,
}
use practice.Base.Text.{Bytes, isdigit}
use practice.Base.Decimal.{first}
use practice.Atop.Tstat.{Tstat, Gen, zero_tstat}
use practice.Atop.Netatop.{Netatop, Answer, Gathered, netatop_gettask}
use practice.Atop.Photoproc.Stat.{Filled, procstat}
use practice.Atop.Photoproc.Status.{procstatus}
use practice.Atop.Photoproc.Io.{procio}
use practice.Atop.Photoproc.Cmd.{proccmd, proccont}
use practice.Atop.Photoproc.Smaps.{SmapsFile, procsmaps}

-- The files of one directory.
pub record Files : Type 0 where
  pub stat : Option Bytes
  pub status : Option (List Bytes)
  pub io : Option (List Bytes)
  pub cmdline : Option Bytes
  pub cpuset : Option Bytes
  pub smaps : Option SmapsFile

-- An entry of a directory task: its name, whether chdir into it is possible, and its files.
pub record Thread : Type 0 where
  pub d_name : Bytes
  pub entered : Bool
  pub files : Files

-- An entry of /proc; `task` is none where chdir into its directory task is not possible.
pub record ProcEntry : Type 0 where
  pub d_name : Bytes
  pub entered : Bool
  pub files : Files
  pub task : Option (List Thread)

-- What does not change during a sample. `pssval` is the variable of procsmaps without a value.
pub record Setting : Type 0 where
  pub hertz : ℕ
  pub pagesize : ℕ
  pub bootepoch : ℕ
  pub iostat : Bool
  pub calcpss : Bool
  pub pssval : ℕ
  pub ask : ℕ → Bool → Answer

pub record Walk : Type 0 where
  pub tasklist : List Tstat
  pub tval : ℕ
  pub dockstat : ℕ
  pub netatop : Netatop

abbrev pub at : List Tstat → ℕ → Tstat
at tasks i = get_or tasks i zero_tstat

module _ (y : Setting) where
  -- A step behind those that were successful.
  unfoldable pub and_status : Files → Filled → Filled
  and_status files r = if r.ok then procstatus files.status r.task else r

  unfoldable pub and_io : Files → Filled → Filled
  and_io files r = if r.ok then record r { task = procio y.iostat files.io r.task } else r

  -- procstat, procstatus and procio in turn.
  unfoldable pub gather : Bool → Files → Tstat → Filled
  gather isproc files t =
      and_io files (and_status files (procstat y.hertz y.pagesize y.bootepoch isproc files.stat t))

  -- The counts of a process by the states of its threads.
  unfoldable pub count_thread : ℕ → Tstat → Tstat
  count_thread state t = record t {
    gen = record t.gen {
      nthrrun = (if state == b'R' then suc t.gen.nthrrun else t.gen.nthrrun);
      nthrslpi = (if state == b'S' then suc t.gen.nthrslpi else t.gen.nthrslpi);
      nthrslpu = (if state == b'D' then suc t.gen.nthrslpu else t.gen.nthrslpu);
    };
  }

  -- The container of the process, one thread, and its network counters.
  unfoldable pub thread_task : Tstat → Tstat → Netatop → Gathered
  thread_task curtask t s =
      netatop_gettask y.ask t.gen.pid false s
        (record t { gen = record t.gen { container = curtask.gen.container; nthr = 1 } })

  -- An entry of the directory task that can be entered; p is the index of the process.
  unfoldable pub thread_filled : ℕ → Filled → Walk → Walk
  thread_filled p r s =
      let g = thread_task (at s.tasklist p) r.task s.netatop in
      if r.ok
      then record s {
        tasklist =
            set (set s.tasklist s.tval g.task) p (count_thread r.task.gen.state (at s.tasklist p));
        tval = suc s.tval;
        netatop = g.state;
      }
      else record s { tasklist = set s.tasklist s.tval r.task }

  unfoldable pub thread_step : ℕ → Thread → Walk → Walk
  thread_step p th s =
      if first th.d_name == b'.' || not th.entered
      then s
      else thread_filled p (gather false th.files (at s.tasklist s.tval)) s

  unfoldable pub thread_loop : ℕ → ℕ → List Thread → Walk → Walk
  thread_loop maxtask p [] s = s
  thread_loop maxtask p (th ∷ ths) s =
      let more = thread_loop maxtask p ths (thread_step p th s) in
      if ltb s.tval maxtask then more else s

  unfoldable pub clear_counts : Tstat → Tstat
  clear_counts t = record t { gen = record t.gen { nthrrun = 0; nthrslpi = 0; nthrslpu = 0 } }

  unfoldable pub threads : ℕ → ℕ → Option (List Thread) → Walk → Walk
  threads maxtask p none s = s
  threads maxtask p (some ths) s = thread_loop maxtask p ths s

  -- The threads of a process that has more than one.
  unfoldable pub process_threads : ℕ → ℕ → Option (List Thread) → Walk → Walk
  process_threads maxtask p task s =
      if ltb 1 (at s.tasklist p).gen.nthr
      then threads maxtask p task
          (record s { tasklist = set s.tasklist p (clear_counts (at s.tasklist p)) })
      else s

  -- What is read of processes only.
  unfoldable pub process_task : Files → Tstat → Netatop → Gathered
  process_task files t s =
      let c = (proccont files.cpuset (proccmd files.cmdline t)).1 in
      let m = if y.calcpss then procsmaps y.pssval files.smaps c else c in
      netatop_gettask y.ask m.gen.tgid true s m

  -- dockstat is a char.
  unfoldable pub add_dockstat : Files → Tstat → ℕ → ℕ
  add_dockstat files t dockstat =
      if (proccont files.cpuset (proccmd files.cmdline t)).0 then (dockstat + 1) % 256 else dockstat

  unfoldable pub process_filled : ℕ → ProcEntry → Filled → Walk → Walk
  process_filled maxtask e r s =
      let g = process_task e.files r.task s.netatop in
      if r.ok
      then process_threads maxtask s.tval e.task (record {
        tasklist = set s.tasklist s.tval g.task;
        tval = suc s.tval;
        dockstat = add_dockstat e.files r.task s.dockstat;
        netatop = g.state;
      })
      else record s { tasklist = set s.tasklist s.tval r.task }

  unfoldable pub entry_step : ℕ → ProcEntry → Walk → Walk
  entry_step maxtask e s =
      if isdigit (first e.d_name) && e.entered
      then process_filled maxtask e (gather true e.files (at s.tasklist s.tval)) s
      else s

  unfoldable pub entry_loop : ℕ → List ProcEntry → Walk → Walk
  entry_loop maxtask [] s = s
  entry_loop maxtask (e ∷ es) s =
      let more = entry_loop maxtask es (entry_step maxtask e s) in
      if ltb s.tval maxtask then more else s

  -- The number of tasks is tval, and DOCKSTAT is set where dockstat is not 0. `s` is the state behind
  -- netatop_probe.
  unfoldable pub photoproc : List ProcEntry → List Tstat → ℕ → Netatop → Walk
  photoproc proc tasklist maxtask s =
      entry_loop maxtask proc (record { tasklist = tasklist; tval = 0; dockstat = 0; netatop = s })

unfoldable pub countprocs : List ProcEntry → ℕ
countprocs [] = 0
countprocs (e ∷ es) = if isdigit (first e.d_name) then suc (countprocs es) else countprocs es
