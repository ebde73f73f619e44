-- ===== src/Atop/Deviate/Task.antt =====
-- deviattask of Qt/FakeAtop/deviate.c: the deviations of all tasks of a sample, against the database
-- of the sample before. `node` is the address that calloc would give for a new task. What
-- netatop_exitfind makes of a deviation is an argument, which changes nothing where supportflags lack
-- NETATOPD. none is a fault: a read of taskall before it is written, or one in the database. The
-- members of the zombie, running and sleeping totals are counted, too; malloc succeeds.
use practice.Base.{
  ℕ, zero, suc, ◌+◌, ◌-◌, Bool, true, false, not, ◌&&◌, Option, none, some, List, [], ◌∷◌, ◌++◌,
  ltb, ◌==◌, if◌then◌else◌, ◌>>=◌, length,
}
use practice.Atop.Tstat.{Tstat, Gen, zero_tstat}
use practice.Atop.Pdb.{
  Pdb, pdb_gettask, pdb_addtask, pdb_deltask, pdb_makeresidue, pdb_cleanresidue, pdb_srchresidue,
}
use practice.Atop.Deviate.{calcdiff, mark_excode}
use practice.Atop.Deviate.Same.{same_tstat}

-- The counters of struct devtstat.
pub record Counts : Type 0 where
  pub ntaskactive : ℕ
  pub nprocall : ℕ
  pub nprocactive : ℕ
  pub totrun : ℕ
  pub totslpi : ℕ
  pub totslpu : ℕ
  pub totzombie : ℕ

abbrev pub no_counts : Counts
no_counts = record {
  ntaskactive = 0;
  nprocall = 0;
  nprocactive = 0;
  totrun = 0;
  totslpi = 0;
  totslpu = 0;
  totzombie = 0;
}

-- `done` is the part of taskall that is written, and `thisproc` an index in taskall.
pub record DevState : Type 0 where
  pub db : Pdb
  pub done : List Tstat
  pub thisproc : ℕ
  pub counts : Counts

pub record Present : Type 0 where
  pub task : Tstat
  pub node : ℕ

unfoldable pub set_active : Bool → Tstat → Tstat
set_active b t = let g = t.gen in record t { gen = record g { wasinactive = b } }

-- thisproc->gen.wasinactive and thisproc->gen.wasinactive = 0
unfoldable pub inactive_at : ℕ → List Tstat → Option Bool
inactive_at i [] = none
inactive_at zero (t ∷ rest) = some t.gen.wasinactive
inactive_at (suc i) (t ∷ rest) = inactive_at i rest

unfoldable pub activate_at : ℕ → List Tstat → List Tstat
activate_at i [] = []
activate_at zero (t ∷ rest) = set_active false t ∷ rest
activate_at (suc i) (t ∷ rest) = t ∷ activate_at i rest

-- A process is counted, and remembered as the last one that was seen.
unfoldable pub see_process : Tstat → DevState → DevState
see_process cur s =
    let c = s.counts in
    if not cur.gen.isproc then s else record s {
      thisproc = length s.done;
      counts =
          (if cur.gen.state == b'Z'
            then record c { nprocall = c.nprocall + 1; totzombie = c.totzombie + 1 }
            else record c {
              nprocall = c.nprocall + 1;
              totrun = c.totrun + cur.gen.nthrrun;
              totslpi = c.totslpi + cur.gen.nthrslpi;
              totslpu = c.totslpu + cur.gen.nthrslpu;
            });
    }

unfoldable pub count_active : Counts → Counts
count_active c = record c { ntaskactive = c.ntaskactive + 1; nprocactive = c.nprocactive + 1 }

-- A thread that was active makes its process active.
unfoldable pub wake_process : DevState → Bool → DevState
wake_process s true = record s {
  done = activate_at s.thisproc s.done;
  counts = count_active s.counts;
}
wake_process s false = s

unfoldable pub active_thread : DevState → Option DevState
active_thread s = do
  b ← inactive_at s.thisproc s.done
  let c = s.counts
  some (wake_process (record s { counts = record c { ntaskactive = c.ntaskactive + 1 } }) b)

unfoldable pub active_task : Tstat → DevState → Option DevState
active_task cur s =
    if cur.gen.isproc then some (record s { counts = count_active s.counts }) else active_thread s

unfoldable pub write_heap : ℕ → Tstat → Pdb → Pdb
write_heap a t db = record db { heap = λ b. if b == a then t else db.heap b }

unfoldable pub append_task : Tstat → DevState → DevState
append_task t s = record s { done = s.done ++ t ∷ [] }

-- What pdb_gettask found. For an inactive task calcdiff reads nothing of prestat, which then holds
-- what an earlier round left there.
unfoldable pub found_task : ℕ → Present → DevState → Option ℕ → Option DevState
unfolding set_active active_task write_heap append_task
found_task tot p s (some a) =
    let cur = p.task in
    if same_tstat cur (s.db.heap a)
    then some (append_task (calcdiff (set_active true cur) (s.db.heap a) false tot) s)
    else (do
      s' ← active_task cur (record s { db = write_heap a cur s.db })
      some (append_task (calcdiff (set_active false cur) (s.db.heap a) false tot) s'))
found_task tot p s none =
    let cur = set_active false p.task in
    do
      s' ←
          active_task cur
            (record s { db = pdb_addtask cur.gen.pid p.node (write_heap p.node cur s.db) })
      some (append_task (calcdiff cur zero_tstat true tot) s')

-- One round of the first loop.
unfoldable pub present_task : ℕ → Present → DevState → Option DevState
unfolding see_process
present_task tot p s =
    let s1 = see_process p.task s in
    let (r, db) = pdb_gettask p.task.gen.pid p.task.gen.isproc p.task.gen.btime s1.db in
    found_task tot p (record s1 { db = db }) r

unfoldable pub present_tasks : ℕ → List Present → DevState → Option DevState
present_tasks tot [] s = some s
present_tasks tot (p ∷ rest) s = do s' ← present_task tot p s; present_tasks tot rest s'

-- What was known of an exited process, and the database afterwards.
unfoldable pub previous : ℕ → Tstat → Pdb → Tstat × Pdb
previous pretime cur db =
    let of_node = λ (o : Option ℕ) (db' : Pdb). elim o as (λ _. Tstat × Pdb) [
      | none ↦ (zero_tstat, db')
      | some a ↦ (db'.heap a, db')
    ] in
    if not (cur.gen.pid == 0)
    then (let r = pdb_gettask cur.gen.pid true cur.gen.btime db in of_node r.0 r.1)
    else if ltb pretime cur.gen.btime
    then (zero_tstat, db)
    else of_node (pdb_srchresidue cur db) db

unfoldable pub exit_gen : Gen → Gen → Gen
unfolding mark_excode
exit_gen cur pre = record cur {
  wasinactive = false;
  pid = (if cur.pid == 0 then pre.pid else cur.pid);
  excode = (if pre.pid == 0 then mark_excode cur.excode else cur.excode);
  cmdline = pre.cmdline;
}

-- A counter of the accounting record may be below the one of the last sample.
pub used : ℕ → ℕ → ℕ
used cur pre = if ltb pre cur then cur - pre else 0

unfoldable pub exit_diff : Tstat → Tstat → Tstat
unfolding exit_gen used
exit_diff cur pre =
    let c = zero_tstat.cpu in
    let m = zero_tstat.mem in
    let d = zero_tstat.dsk in
    record zero_tstat {
      gen = exit_gen cur.gen pre.gen;
      cpu = record c {
        stime = used cur.cpu.stime pre.cpu.stime;
        utime = used cur.cpu.utime pre.cpu.utime;
      };
      mem = record m {
        minflt = used cur.mem.minflt pre.mem.minflt;
        majflt = used cur.mem.majflt pre.mem.majflt;
      };
      dsk = record d { rio = used cur.dsk.rio (pre.dsk.rio + pre.dsk.wio) };
    }

unfoldable pub delete_known : Tstat → Pdb → Option Pdb
delete_known pre db =
    if pre.gen.pid == 0
    then some db
    else (do r ← pdb_deltask pre.gen.pid pre.gen.isproc db; some r.1)

module _ (exitfind : Tstat → Tstat → Tstat → Tstat) (pretime : ℕ) where
  -- One round of the second loop.
  unfoldable pub exit_task : Tstat → DevState → Option DevState
  unfolding previous exit_diff delete_known append_task count_active
  exit_task cur s =
      let (pre, db) = previous pretime cur s.db in
      let c = s.counts in
      do
        db' ← delete_known pre db
        some (
            append_task (exitfind cur (exit_diff cur pre) pre) (record s {
              db = db';
              counts = (let c' = count_active c in record c' { nprocall = c'.nprocall + 1 });
            }))

  unfoldable pub exit_tasks : List Tstat → DevState → Option DevState
  exit_tasks [] s = some s
  exit_tasks (cur ∷ rest) s = do s' ← exit_task cur s; exit_tasks rest s'

  -- The two loops, on the database that pdb_makeresidue prepares.
  unfoldable pub sample_tasks : ℕ → List Present → List Tstat → Pdb → Option DevState
  sample_tasks tot present exited db = do
    s ←
        present_tasks tot present
          (record { db = pdb_makeresidue db; done = []; thisproc = 0; counts = no_counts })
    exit_tasks exited s

  -- The state holds taskall and its counters; procall and procactive are read off it.
  pub deviattask : ℕ → List Present → List Tstat → Pdb → Option DevState
  deviattask tot present exited db = do
    s ← sample_tasks tot present exited db
    db' ← pdb_cleanresidue s.db
    some (record s { db = db' })

-- The last loop, which fills procall and procactive.
unfoldable pub procall : List Tstat → List Tstat
procall [] = []
procall (t ∷ rest) = let more = procall rest in if t.gen.isproc then t ∷ more else more

unfoldable pub procactive : List Tstat → List Tstat
procactive [] = []
procactive (t ∷ rest) =
    let more = procactive rest in if t.gen.isproc && not t.gen.wasinactive then t ∷ more else more
