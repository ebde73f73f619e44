-- ===== src/Atop/Deviate/Exits.antt =====
-- The second loop of deviattask, over the processes that have exited.
use practice.Base.{
  ℕ, suc, ◌+◌, ◌≡◌, ◌≢◌, refl, ap, ◌∙◌, Bool, true, false, Option, none, some, List, [], ◌∷◌, arith,
  length, ◌>>=◌, Option-cases, inl, inr, length-append,
}
use practice.Atop.Tstat.{Tstat, Gen, zero_tstat}
use practice.Atop.Pdb.{Pdb, unchain, scan_chain, chain_of, pdb_gettask, pdb_makeresidue}
use practice.Atop.Pdb.Delete.{same_task-pid, deltask-total}
use practice.Atop.Deviate.Task.{
  DevState, Present, count_active, append_task, previous, exit_gen, exit_diff, delete_known,
  exit_task, exit_tasks, sample_tasks, procall, procactive,
}
use practice.Atop.Deviate.Tally.{actives, procs, active_procs}
use practice.Atop.Deviate.Present.{IsAhead, append_task-IsAhead}
use practice.Atop.Deviate.Arrays.{StartsWithProcess, start_tasks-Round}

-- Where a node of the chain is found, it is one of the pid, and the chain is not empty.
scan_chain-some :
    (heap : ℕ → Tstat) (pid : ℕ) (isproc : Bool) (btime : ℕ) (chain : List ℕ) (a : ℕ)
    → scan_chain heap pid isproc btime chain ≡ some a
    → (heap a).gen.pid ≡ pid
unfolding scan_chain
scan_chain-some heap pid isproc btime [] a h = absurd (ground arith)
scan_chain-some heap pid isproc btime (b ∷ rest) a h =
    ground (arith, scan_chain-some heap pid isproc btime rest a, same_task-pid pid isproc (heap b))

module _ (pretime : ℕ) (cur : Tstat) (db : Pdb) (known : cur.gen.pid ≢ 0) where
  abbrev scanned : Option ℕ
  scanned = scan_chain db.heap cur.gen.pid true cur.gen.btime (chain_of cur.gen.pid db)

  previous-none : scanned ≡ none → previous pretime cur db ≡ (zero_tstat, db)
  unfolding previous pdb_gettask
  previous-none e = ground arith

  previous-some :
      (a : ℕ)
      → scanned ≡ some a
      → previous pretime cur db ≡ (db.heap a, record db { presidue = unchain a db.presidue })
  unfolding previous pdb_gettask
  previous-some a e = ground arith

  not_empty :
      (a : ℕ)
      → scanned ≡ some a
      → (pp : ℕ) × (rest : List ℕ) × (chain_of cur.gen.pid db ≡ pp ∷ rest)
  not_empty a e = by_chain (chain_of cur.gen.pid db) refl
    where
      by_chain :
          (chain : List ℕ)
          → chain_of cur.gen.pid db ≡ chain
          → (pp : ℕ) × (rest : List ℕ) × (chain_of cur.gen.pid db ≡ pp ∷ rest)
      by_chain (pp ∷ rest) f = (pp, rest, f)
      by_chain [] f = absurd (unfold scan_chain in ground arith)

  -- What is known of an exited process with a pid can be deleted.
  delete_known-total :
      (r : Pdb) × (delete_known (previous pretime cur db).0 (previous pretime cur db).1 ≡ some r)
  delete_known-total = elim (Option-cases scanned) [
    | inl e ↦ (db, rw (previous-none e) (unfold delete_known in refl))
    | inr (a, e) ↦
        let (pp, rest, f) = not_empty a e in
        let own = scan_chain-some db.heap cur.gen.pid true cur.gen.btime _ a e in
        let (r, d) =
          deltask-total (db.heap a).gen.pid (db.heap a).gen.isproc
            (record db { presidue = unchain a db.presidue }) pp rest (rw own f) in
        (r.1, rw (previous-some a e) (unfold delete_known in ground arith))
  ]

-- A round of the second loop: the counters stay level with taskall, which grows by one.
record ExitRound (r : Option DevState) (n : ℕ) : Type 0 where
  after : DevState
  runs : r ≡ some after
  level : IsAhead 0 0 0 after
  size : length after.done ≡ n

-- The accounting records are of processes, and carry a pid.
abbrev pub AllExited : List Tstat → Type 0
AllExited [] = Unit
AllExited (t ∷ rest) = (t.gen.pid ≢ 0) × (t.gen.isproc ≡ true) × AllExited rest

module _ (exitfind : Tstat → Tstat → Tstat → Tstat) (pretime : ℕ)
    (keeps_gen : (cur dev pre : Tstat) → (exitfind cur dev pre).gen ≡ dev.gen) where
  exit_counts :
      (cur pre : Tstat) (s : DevState) (db : Pdb)
      → cur.gen.isproc ≡ true
      → IsAhead 0 0 0 s
      → IsAhead 0 0 0 (
          append_task (exitfind cur (exit_diff cur pre) pre) (record s {
            db = db;
            counts = (let c' = count_active s.counts in record c' { nprocall = c'.nprocall + 1 });
          }))
  unfolding count_active
  exit_counts cur pre s db e v =
      let dev = exitfind cur (exit_diff cur pre) pre in
      let kind : dev.gen.isproc ≡ true =
        ap (λ (g : Gen). g.isproc) (keeps_gen cur (exit_diff cur pre) pre)
        ∙ unfold exit_diff exit_gen in e in
      let active : dev.gen.wasinactive ≡ false =
        ap (λ (g : Gen). g.wasinactive) (keeps_gen cur (exit_diff cur pre) pre)
        ∙ unfold exit_diff exit_gen in refl in
      append_task-IsAhead dev _ (
        rw (kind, active)
          (record {
            all_procs = omega (arith, v.all_procs);
            active_procs = omega (arith, v.active_procs);
            active_tasks = omega (arith, v.active_tasks);
          }))

  exit_task-Round :
      (cur : Tstat) (s : DevState)
      → cur.gen.pid ≢ 0
      → cur.gen.isproc ≡ true
      → IsAhead 0 0 0 s
      → ExitRound (exit_task exitfind pretime cur s) (suc (length s.done))
  unfolding exit_task
  exit_task-Round cur s h e v =
      let pre = previous pretime cur s.db in
      let (db', d) = delete_known-total pretime cur s.db h in
      record {
        after = _;
        runs = rw (d, ◌>>=◌) refl;
        level = exit_counts cur pre.0 s db' e v;
        size = unfold append_task in length-append s.done _ ∙ omega arith;
      }

  exit_tasks-Round :
      (exited : List Tstat) (s : DevState)
      → AllExited exited
      → IsAhead 0 0 0 s
      → ExitRound (exit_tasks exitfind pretime exited s) (length exited + length s.done)
  unfolding exit_tasks
  exit_tasks-Round [] s ok v = record { after = s; runs = refl; level = v; size = omega arith }
  exit_tasks-Round (cur ∷ rest) s (h, e, ok) v =
      let one = exit_task-Round cur s h e v in
      let more = exit_tasks-Round rest one.after ok one.level in
      record {
        after = more.after;
        runs = rw (one.runs, ◌>>=◌) more.runs;
        level = more.level;
        size = omega (arith, more.size, one.size);
      }

  -- Whatever the database holds: where the first task is a process and the accounting records are of
  -- processes and carry a pid, and netatop_exitfind keeps the general members, the two loops run to
  -- their end. They write taskall to its last element, and the counters by which the other arrays are
  -- allocated are exactly what is stored in them: nprocall the processes of taskall, and nprocactive
  -- its active processes. ntaskactive is the number of its active tasks.
  pub sample_tasks-level :
      (tot : ℕ) (present : List Present) (exited : List Tstat) (db : Pdb)
      → StartsWithProcess present
      → AllExited exited
      → (s : DevState) × (sample_tasks exitfind pretime tot present exited db ≡ some s)
        × (length s.done ≡ length present + length exited)
        × (s.counts.nprocall ≡ length (procall s.done))
        × (s.counts.nprocactive ≡ length (procactive s.done))
        × (s.counts.ntaskactive ≡ actives s.done)
  unfolding sample_tasks procs active_procs
  sample_tasks-level tot present exited db h ok =
      let one = start_tasks-Round tot present (pdb_makeresidue db) h in
      let more = exit_tasks-Round exited one.after ok one.level in
      (
        more.after,
        rw (one.runs, ◌>>=◌) more.runs,
        omega (arith, more.size, one.size),
        omega (arith, more.level.all_procs),
        omega (arith, more.level.active_procs),
        omega (arith, more.level.active_tasks),
      )
