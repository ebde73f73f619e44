-- ===== src/Tests/Accumulate.antt =====
-- Three processes of two users.
use practice.Base.{ℕ, refl, true, false, none, List, [], ◌∷◌, arith}
use practice.Base.Text.{codes}
use practice.Atop.Tstat.{Tstat, zero_tstat}
use practice.Atop.Accumulate.{Pselection, Key, cumusers, cumprogs, cumconts}
use practice.Atop.Accumulate.Cumulations.{
  same_user, same_program, same_container, IsCumulation, cumulations,
}
use practice.Atop.Order.{
  ascending, sign_rank, ascending_int, or_else, compusr, strcmp, compnam, compcon,
}

abbrev process : ℕ → ℕ → ℕ → Tstat
process number user ticks =
    let g = zero_tstat.gen in
    let c = zero_tstat.cpu in
    record zero_tstat {
      gen = record g { pid = number; ruid = user; isproc = true; name = codes "sh"; nthr = 1 };
      cpu = record c { utime = ticks };
    }

-- A list that is in order already, as qsort leaves it.
abbrev in_order : Key → List Tstat → List Tstat
in_order k l = l

abbrev procs : List Tstat
procs = process 5 0 10 ∷ process 6 0 20 ∷ process 7 1000 30 ∷ []

abbrev all_procs : Pselection
all_procs = record { userid = []; pid = []; progname = none; argname = none; container = [] }

abbrev users : List Tstat
users = cumusers in_order all_procs false procs

cumulations_example :
    IsCumulation all_procs false same_user procs users
    × IsCumulation all_procs false same_program procs (cumprogs in_order all_procs false procs)
    × IsCumulation all_procs false same_container procs (cumconts in_order all_procs false procs)
unfolding compusr compnam compcon ascending_int ascending or_else sign_rank strcmp
cumulations_example =
    cumulations in_order (λ k f l. refl) (λ k l. refl) all_procs false procs (omega arith)
      (λ e. ground arith, (λ e. ground arith, tt)) (λ e. ground arith, (λ e. ground arith, tt))
      (λ e. ground arith, (λ e. ground arith, tt))
