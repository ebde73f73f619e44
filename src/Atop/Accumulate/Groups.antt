-- ===== src/Atop/Accumulate/Groups.antt =====
-- cumusers, cumprogs and cumconts of Qt/FakeAtop/showgeneric.c on a list that is sorted by their
-- comparison: one entry for each user, program or container.
use practice.Base.{
  ◌+◌, ◌^◌, ◌≤◌, ◌<◌, ◌≡◌, ◌≢◌, refl, Bool, true, false, List, [], ◌∷◌, arith, ◌==◌, length,
  Bool-cases, inl, inr, ◌∙◌,
}
use practice.Atop.Tstat.{Tstat, zero_tstat}
use practice.Atop.Order.{Sign, before, same, after}
use practice.Atop.Order.Laws.{opposite, IsComparison}
use practice.Atop.Accumulate.{
  Pselection, accumulate, Key, Cumulated, next_entry, skipped, cumulate_one, cumulate, entries,
}
use practice.Atop.Accumulate.Totals.{accumulate-pid}
use practice.Atop.Accumulate.Strict.{
  not_after_trans, before_trans, is_before, opposite-same, AllBefore, IsStrict, IsStrict-append,
  AllBefore-append,
}

-- No task of the list is to be sorted behind the next one.
abbrev IsSortedFrom : (Tstat → Tstat → Sign) → Tstat → List Tstat → Type 0
IsSortedFrom comp p [] = Unit
IsSortedFrom comp p (t ∷ rest) = (comp p t ≢ after) × IsSortedFrom comp t rest

abbrev pub IsSorted : (Tstat → Tstat → Sign) → List Tstat → Type 0
IsSorted comp [] = Unit
IsSorted comp (t ∷ rest) = IsSortedFrom comp t rest

-- How a key is tied to the comparison by which the tasks are sorted.
pub record IsOrdered (k : Key) (comp : Tstat → Tstat → Sign) : Type 0 where
  pub comparison : IsComparison comp
  pub tied : (s t : Tstat) → k.same s t ≡ true → comp s t ≡ same
  pub apart : (s t : Tstat) → k.same s t ≡ false → comp s t ≢ same
  pub copied : (t s : Tstat) → comp (k.copy t s) t ≡ same
  pub kept : (t s u : Tstat) → comp u (accumulate t s) ≡ comp u s

module _ (k : Key) (comp : Tstat → Tstat → Sign) (o : IsOrdered k comp) where
  AllBefore-kept :
      (t c : Tstat) (l : List Tstat)
      → AllBefore comp o.comparison c l
      → AllBefore comp o.comparison (accumulate t c) l
  AllBefore-kept t c [] h = tt
  AllBefore-kept t c (x ∷ l) h = (o.kept t c x ∙ h.0, AllBefore-kept t c l h.1)

  -- The finished entries are before the one in work, and that is not behind the last task, if a task
  -- was added to it.
  record IsAscending (p : Tstat) (s : Cumulated) : Type 0 where
    strict : IsStrict comp o.comparison s.finished
    below : AllBefore comp o.comparison s.current s.finished
    not_behind : (s.current.gen.pid == 0) ≡ false → comp s.current p ≢ after
    started : (s.current.gen.pid == 0) ≡ true → s.finished ≡ []

  swap_same : (s t : Tstat) → comp s t ≡ same → comp t s ≢ after
  swap_same s t h = rw (o.comparison.swap s t) (opposite-same (comp s t) h)

  -- The next entry is of the task's group, with all finished ones before it.
  next_entry-finished :
      (p t : Tstat) (s : Cumulated)
      → comp p t ≢ after
      → IsAscending p s
      → IsStrict comp o.comparison (next_entry t k s).finished
        × AllBefore comp o.comparison (next_entry t k s).current (next_entry t k s).finished
        × (comp (next_entry t k s).current t ≡ same)
  unfolding next_entry
  next_entry-finished p t s l h = elim (Bool-cases (k.same s.current t)) [
    | inl e ↦ rw (next_entry, e) (h.strict, h.below, o.tied s.current t e)
    | inr e ↦ elim (Bool-cases (s.current.gen.pid == 0)) [
      | inl f ↦ let z = h.started f in rw (next_entry, e, f, z) (tt, tt, o.copied t s.current)
      | inr f ↦
          let le = not_after_trans _ _ _ (o.comparison.chain s.current p t) (h.not_behind f) l in
          let lt = is_before _ (o.apart s.current t e) le in
          let c = k.copy t zero_tstat in
          let lt' =
            before_trans _ _ _ (o.comparison.chain s.current t c) lt
              (swap_same c t (o.copied t zero_tstat)) in
          rw (next_entry, e, f)
            (
              IsStrict-append comp o.comparison s.finished s.current h.strict h.below,
              AllBefore-append comp o.comparison s.current c s.finished h.below lt',
              o.copied t zero_tstat,
            )
    ]
  ]

  added-not_behind : (t c : Tstat) → comp c t ≡ same → comp (accumulate t c) t ≢ after
  unfolding opposite
  added-not_behind t c h =
      let a = o.comparison.swap t (accumulate t c) in
      let b = o.kept t c t in let d = o.comparison.swap c t in ground (arith, a, b, d, h)

  next_entry-pid :
      (t : Tstat) (s : Cumulated)
      → ((k.copy t s.current).gen.pid ≡ s.current.gen.pid)
      → ((k.copy t zero_tstat).gen.pid ≡ 0)
      → (next_entry t k s).current.gen.pid ≤ s.current.gen.pid
  unfolding next_entry
  next_entry-pid t s h z = ground (arith, h, z)

  module _ (copies_pid : (t s : Tstat) → (k.copy t s).gen.pid ≡ s.gen.pid) (sel : Pselection)
      (suppressexit : Bool) where
    IsAscending-cumulate_one :
        (p t : Tstat) (s : Cumulated)
        → comp p t ≢ after
        → s.current.gen.pid + 1 < 2 ^ 32
        → IsAscending p s
        → IsAscending t (cumulate_one sel suppressexit k t s)
          × ((cumulate_one sel suppressexit k t s).current.gen.pid ≤ s.current.gen.pid + 1)
    unfolding cumulate_one
    IsAscending-cumulate_one p t s l b h = elim (Bool-cases (skipped sel suppressexit t)) [
      | inl e ↦
          let n : (s.current.gen.pid == 0) ≡ false → comp s.current t ≢ after =
            λ f. not_after_trans _ _ _ (o.comparison.chain s.current p t) (h.not_behind f) l in
          rw e (
            record { strict = h.strict; below = h.below; not_behind = n; started = h.started },
            omega arith,
          )
      | inr e ↦
          let c = (next_entry t k s).current in
          let le = next_entry-pid t s (copies_pid t s.current) (copies_pid t zero_tstat) in
          let pid : (accumulate t c).gen.pid ≡ c.gen.pid + 1 = accumulate-pid t c (omega arith) in
          let f = next_entry-finished p t s l h in
          rw e (
            record {
              strict = f.0;
              below = AllBefore-kept t c _ f.1;
              not_behind = λ z. added-not_behind t c f.2;
              started = λ z. absurd (ground (arith, pid));
            },
            omega (arith, pid, le),
          )
    ]

    IsStrict-cumulate :
        (p : Tstat) (l : List Tstat) (s : Cumulated)
        → IsSortedFrom comp p l
        → s.current.gen.pid + length l < 2 ^ 32
        → IsAscending p s
        → IsStrict comp o.comparison (entries (cumulate sel suppressexit k l s))
    unfolding cumulate entries
    IsStrict-cumulate p [] s q b h = elim (Bool-cases (s.current.gen.pid == 0)) [
      | inl e ↦ rw (entries, e) h.strict
      | inr e ↦
          rw (entries, e) (IsStrict-append comp o.comparison s.finished s.current h.strict h.below)
    ]
    IsStrict-cumulate p (t ∷ l) s q b h =
        let one = IsAscending-cumulate_one p t s q.0 (omega arith) h in
        IsStrict-cumulate t l (cumulate_one sel suppressexit k t s) q.1 (omega (arith, one.1)) one.0

    self_not_after : (t : Tstat) → comp t t ≢ after
    unfolding opposite
    self_not_after t = let a = o.comparison.swap t t in go (comp t t) a
      where
        go : (r : Sign) → r ≡ opposite r → r ≢ after
        go before e = ground arith
        go same e = ground arith
        go after e = ground arith

    pub IsStrict-sorted :
        (l : List Tstat)
        → IsSorted comp l
        → length l < 2 ^ 32
        → IsStrict comp o.comparison (
            entries
              (cumulate sel suppressexit k l (record { finished = []; current = zero_tstat })))
    unfolding cumulate entries
    IsStrict-sorted [] h b = tt
    IsStrict-sorted (t ∷ rest) h b =
        let start : Cumulated = record { finished = []; current = zero_tstat } in
        IsStrict-cumulate t (t ∷ rest) start (self_not_after t, h) (omega arith)
          (record {
            strict = tt;
            below = tt;
            not_behind = λ e. absurd (ground arith);
            started = λ e. refl;
          })
