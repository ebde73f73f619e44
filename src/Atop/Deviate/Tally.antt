-- ===== src/Atop/Deviate/Tally.antt =====
-- Counting the tasks of a list: all processes, active processes, active tasks.
use practice.Base.{
  ℕ, zero, suc, ◌+◌, ◌≡◌, refl, Bool, true, false, not, ◌&&◌, some, List, [], ◌∷◌, ◌++◌, arith,
  length,
}
use practice.Atop.Tstat.{Tstat}
use practice.Atop.Deviate.{calcdiff}
use practice.Atop.Deviate.Task.{inactive_at, activate_at, set_active, procall, procactive}

abbrev pub bit : Bool → ℕ
bit true = 1
bit false = 0

-- How many tasks of the list were active.
unfoldable pub actives : List Tstat → ℕ
actives [] = 0
actives (t ∷ rest) = bit (not t.gen.wasinactive) + actives rest

unfoldable pub procs : List Tstat → ℕ
procs l = length (procall l)

unfoldable pub active_procs : List Tstat → ℕ
active_procs l = length (procactive l)

-- The task at an index of the list is a process.
pub proc_at : ℕ → List Tstat → Bool
proc_at i [] = false
proc_at zero (t ∷ rest) = t.gen.isproc
proc_at (suc i) (t ∷ rest) = proc_at i rest

module _ (t : Tstat) where
  pub procs-append : (l : List Tstat) → procs (l ++ t ∷ []) ≡ bit t.gen.isproc + procs l
  unfolding procs procall
  procs-append [] = ground arith
  procs-append (u ∷ rest) = ground (arith, procs-append rest)

  pub active_procs-append :
      (l : List Tstat)
      → active_procs (l ++ t ∷ []) ≡ bit (t.gen.isproc && not t.gen.wasinactive) + active_procs l
  unfolding active_procs procactive
  active_procs-append [] = ground arith
  active_procs-append (u ∷ rest) = ground (arith, active_procs-append rest)

  pub actives-append :
      (l : List Tstat) → actives (l ++ t ∷ []) ≡ bit (not t.gen.wasinactive) + actives l
  unfolding actives
  actives-append [] = ground arith
  actives-append (u ∷ rest) = ground (arith, actives-append rest)

  pub proc_at-append :
      (i : ℕ) (l : List Tstat) → proc_at i l ≡ true → proc_at i (l ++ t ∷ []) ≡ true
  unfolding proc_at
  proc_at-append i [] h = ground arith
  proc_at-append zero (u ∷ rest) h = h
  proc_at-append (suc i) (u ∷ rest) h = proc_at-append i rest h

  pub proc_at-last : (l : List Tstat) → proc_at (length l) (l ++ t ∷ []) ≡ t.gen.isproc
  unfolding proc_at
  proc_at-last [] = refl
  proc_at-last (u ∷ rest) = proc_at-last rest

-- What becomes of the counts where the process at an index is made active.
pub record Activated (i : ℕ) (l : List Tstat) : Type 0 where
  pub procs_same : procs (activate_at i l) ≡ procs l
  pub active_more : active_procs (activate_at i l) ≡ suc (active_procs l)
  pub actives_more : actives (activate_at i l) ≡ suc (actives l)
  pub still_proc : proc_at i (activate_at i l) ≡ true
  pub same_length : length (activate_at i l) ≡ length l

pub activate_at-Activated :
    (i : ℕ) (l : List Tstat) → proc_at i l ≡ true → inactive_at i l ≡ some true → Activated i l
unfolding proc_at inactive_at activate_at procs active_procs procall procactive actives set_active
activate_at-Activated i [] p h = absurd (ground arith)
activate_at-Activated zero (t ∷ rest) p h = record {
  procs_same = ground arith;
  active_more = ground arith;
  actives_more = ground arith;
  still_proc = ground arith;
  same_length = refl;
}
activate_at-Activated (suc i) (t ∷ rest) p h =
    let r = activate_at-Activated i rest p h in
    record {
      procs_same = ground (arith, r.procs_same);
      active_more = ground (arith, r.active_more);
      actives_more = ground (arith, r.actives_more);
      still_proc = r.still_proc;
      same_length = ground (arith, r.same_length);
    }

pub inactive_at-some :
    (i : ℕ) (l : List Tstat) → proc_at i l ≡ true → (b : Bool) × (inactive_at i l ≡ some b)
unfolding proc_at inactive_at
inactive_at-some i [] h = absurd (ground arith)
inactive_at-some zero (t ∷ rest) h = (t.gen.wasinactive, refl)
inactive_at-some (suc i) (t ∷ rest) h = inactive_at-some i rest h

-- The deviation of a task is of the same kind, and as active, as the task.
pub calcdiff-gen :
    (cur pre : Tstat) (newtask : Bool) (tot : ℕ)
    → ((calcdiff cur pre newtask tot).gen.isproc ≡ cur.gen.isproc)
      × ((calcdiff cur pre newtask tot).gen.wasinactive ≡ cur.gen.wasinactive)
unfolding calcdiff
calcdiff-gen cur pre true tot = (refl, refl)
calcdiff-gen cur pre false tot = (refl, refl)
