-- ===== src/Atop/Accumulate/Cumulations.antt =====
-- cumusers, cumprogs and cumconts of Qt/FakeAtop/showgeneric.c group the tasks: what is in their lists.
use mathlib.Core.Path.{subst}
use practice.Base.{
  ℕ, ◌+◌, ◌%◌, ◌^◌, ◌≤◌, ◌<◌, ◌≡◌, ◌≢◌, refl, ap, ◌∙◌, Bool, true, false, List, [], ◌∷◌, arith,
  ◌==◌, length,
}
use practice.Base.Text.{Bytes, same_text, same_text_eq}
use practice.Atop.Tstat.{Tstat, zero_tstat}
use practice.Atop.Order.{
  Sign, same, ascending, sign_rank, ascending_int, or_else, compusr, strcmp, compnam, compcon,
}
use practice.Atop.Order.Laws.{compusr-IsComparison, compnam-IsComparison, compcon-IsComparison}
use practice.Atop.Accumulate.{
  Pselection, accumulate, add_gen, Key, user_key, prog_key, cont_key, Cumulated, entries, cum,
  cumusers, cumprogs, cumconts,
}
use practice.Atop.Accumulate.Sum.{
  Sum, tasks, held, given, total, shown, within, held-gen, held-zero,
}
use practice.Atop.Accumulate.Totals.{IsKey, cumulate-amount, cumulate-length}
use practice.Atop.Accumulate.Strict.{one_entry}
use practice.Atop.Accumulate.Groups.{IsSorted, IsOrdered, IsStrict-sorted}

-- The tasks of the user, the program or the container of a task.
abbrev pub same_user : Tstat → Tstat → Bool
same_user x t = x.gen.ruid == t.gen.ruid

abbrev pub same_program : Tstat → Tstat → Bool
same_program x t = same_text x.gen.name t.gen.name

abbrev pub same_container : Tstat → Tstat → Bool
same_container x t = same_text x.gen.container t.gen.container

-- A group has one entry at most, all its entries together hold the sums over its tasks that are not
-- passed over, modulo 2^64, and there are not more entries than tasks.
pub record IsCumulation (sel : Pselection) (suppressexit : Bool) (group : Tstat → Tstat → Bool)
    (procs out : List Tstat) : Type 0 where
  pub sums :
      (x : Tstat) (m : Sum)
      → total (within (group x) (held m)) out % 2 ^ 64
        ≡ total (shown sel suppressexit (within (group x) (given m))) procs % 2 ^ 64
  pub single : (x : Tstat) → total (within (group x) (λ t. 1)) out ≤ 1
  pub fits : length out ≤ length procs

-- Each key tells the groups of its kind apart.
user_key-IsKey : (x : Tstat) → IsKey user_key (same_user x)
unfolding accumulate add_gen
user_key-IsKey x = record {
  together = λ s t h. ground arith;
  copied = λ t s. refl;
  kept = λ t s. refl;
  copies = λ m t s. held-gen m s _ refl;
}

prog_key-IsKey : (x : Tstat) → IsKey prog_key (same_program x)
unfolding accumulate add_gen
prog_key-IsKey x = record {
  together = λ s t h. ap (same_text x.gen.name) (same_text_eq s.gen.name t.gen.name h);
  copied = λ t s. refl;
  kept = λ t s. refl;
  copies = λ m t s. held-gen m s _ refl;
}

cont_key-IsKey : (x : Tstat) → IsKey cont_key (same_container x)
unfolding accumulate add_gen
cont_key-IsKey x = record {
  together =
      λ s t h. ap (same_text x.gen.container) (same_text_eq s.gen.container t.gen.container h);
  copied = λ t s. refl;
  kept = λ t s. refl;
  copies = λ m t s. held-gen m s _ refl;
}

-- Each comparison finds no difference just within a group.
ascending_int-same :
    (a b : ℕ)
    → ((a == b) ≡ true → ascending_int a b ≡ same) × ((a == b) ≡ false → ascending_int a b ≢ same)
unfolding ascending_int ascending or_else sign_rank
ascending_int-same a b = (λ h. ground arith, λ h e. ground arith)

strcmp_refl : (a : Bytes) → strcmp a a ≡ same
unfolding strcmp or_else ascending
strcmp_refl [] = refl
strcmp_refl (c ∷ a) = ground (arith, strcmp_refl a)

strcmp-same : (a b : Bytes) → same_text a b ≡ true → strcmp a b ≡ same
strcmp-same a b h = subst (λ t. strcmp a t ≡ same) (same_text_eq a b h) (strcmp_refl a)

strcmp-apart : (a b : Bytes) → same_text a b ≡ false → strcmp a b ≢ same
unfolding strcmp or_else ascending same_text
strcmp-apart [] [] h e = ground arith
strcmp-apart [] (d ∷ b) h e = ground arith
strcmp-apart (c ∷ a) [] h e = ground arith
strcmp-apart (c ∷ a) (d ∷ b) h e = ground (arith, strcmp-apart a b)

user_key-IsOrdered : IsOrdered user_key compusr
unfolding compusr accumulate add_gen
user_key-IsOrdered = record {
  comparison = compusr-IsComparison;
  tied = λ s t h. (ascending_int-same s.gen.ruid t.gen.ruid).0 h;
  apart = λ s t h. (ascending_int-same s.gen.ruid t.gen.ruid).1 h;
  copied = λ t s. (ascending_int-same t.gen.ruid t.gen.ruid).0 (ground arith);
  kept = λ t s u. refl;
}

prog_key-IsOrdered : IsOrdered prog_key compnam
unfolding compnam accumulate add_gen
prog_key-IsOrdered = record {
  comparison = compnam-IsComparison;
  tied = λ s t. strcmp-same s.gen.name t.gen.name;
  apart = λ s t. strcmp-apart s.gen.name t.gen.name;
  copied = λ t s. strcmp_refl t.gen.name;
  kept = λ t s u. refl;
}

cont_key-IsOrdered : IsOrdered cont_key compcon
unfolding compcon accumulate add_gen
cont_key-IsOrdered = record {
  comparison = compcon-IsComparison;
  tied = λ s t. strcmp-same s.gen.container t.gen.container;
  apart = λ s t. strcmp-apart s.gen.container t.gen.container;
  copied = λ t s. strcmp_refl t.gen.container;
  kept = λ t s u. refl;
}

module _ (qsort : Key → List Tstat → List Tstat)
    (keeps_totals : (k : Key) (f : Tstat → ℕ) (l : List Tstat) → total f (qsort k l) ≡ total f l)
    (keeps_length : (k : Key) (l : List Tstat) → length (qsort k l) ≡ length l) (sel : Pselection)
    (suppressexit : Bool) where
  cum-IsCumulation :
      (k : Key) (comp : Tstat → Tstat → Sign) (group : Tstat → Tstat → Bool) (procs : List Tstat)
      → ((x : Tstat) → IsKey k (group x))
      → IsOrdered k comp
      → ((x s t : Tstat) → group x s ≡ true → group x t ≡ true → comp s t ≡ same)
      → length procs < 2 ^ 31
      → IsSorted comp (qsort k procs)
      → IsCumulation sel suppressexit group procs (cum qsort sel suppressexit k procs)
  unfolding cum total entries
  cum-IsCumulation k comp group procs key order tied small sorted =
      let start : Cumulated = record { finished = []; current = zero_tstat } in
      let n = keeps_length k procs in
      record {
        sums = λ x m.
            let g = shown sel suppressexit (within (group x) (given m)) in
            cumulate-amount sel suppressexit k (group x) (key x) m (qsort k procs) start
              (λ z. held-zero m) (omega (arith, n))
            ∙ empty_sum x m (total g (qsort k procs)) (total g procs) (keeps_totals k g procs);
        single = λ x. one_entry comp order.comparison (group x) (tied x) _ (
            IsStrict-sorted k comp order (λ t s. (key zero_tstat).copies tasks t s) sel suppressexit
              (qsort k procs) sorted (omega (arith, n)));
        fits = omega (arith, cumulate-length sel suppressexit k (qsort k procs) start, n);
      }
    where
      empty_sum :
          (x : Tstat) (m : Sum) (a b : ℕ)
          → a ≡ b
          → (0 + within (group x) (held m) zero_tstat + a) % 2 ^ 64 ≡ b % 2 ^ 64
      empty_sum x m a b e = ground (arith, held-zero m)

  -- Where qsort changes only the order of the list and leaves no task that is to be sorted behind
  -- the next one: whatever is selected, of fewer than 2^31 tasks, the lists by user, by program and
  -- by container each have at most one entry for a user, program or container and not more entries
  -- than there are tasks, and the entry holds for each of 15 counters (the number of its tasks,
  -- their ticks, sectors, memory, packets and bytes) the sum over just the tasks of that user,
  -- program or container that are not passed over, modulo 2^64.
  pub cumulations :
      (procs : List Tstat)
      → length procs < 2 ^ 31
      → IsSorted compusr (qsort user_key procs)
      → IsSorted compnam (qsort prog_key procs)
      → IsSorted compcon (qsort cont_key procs)
      → IsCumulation sel suppressexit same_user procs (cumusers qsort sel suppressexit procs)
        × IsCumulation sel suppressexit same_program procs (cumprogs qsort sel suppressexit procs)
        × IsCumulation sel suppressexit same_container procs (cumconts qsort sel suppressexit procs)
  unfolding cumusers cumprogs cumconts compusr compnam compcon
  cumulations procs small users progs conts = (
    cum-IsCumulation user_key compusr same_user procs user_key-IsKey user_key-IsOrdered
        (λ x s t h k. (ascending_int-same s.gen.ruid t.gen.ruid).0 (ground arith)) small users,
    cum-IsCumulation prog_key compnam same_program procs prog_key-IsKey prog_key-IsOrdered
        (λ x s t h k. texts x.gen.name s.gen.name t.gen.name h k) small progs,
    cum-IsCumulation cont_key compcon same_container procs cont_key-IsKey cont_key-IsOrdered
        (λ x s t h k. texts x.gen.container s.gen.container t.gen.container h k) small conts,
  )
    where
      texts : (x a b : Bytes) → same_text x a ≡ true → same_text x b ≡ true → strcmp a b ≡ same
      texts x a b h k =
          subst (λ t. strcmp t b ≡ same) (same_text_eq x a h)
            (subst (λ t. strcmp x t ≡ same) (same_text_eq x b k) (strcmp_refl x))
