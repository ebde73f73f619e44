-- ===== src/Atop/Accumulate/Strict.antt =====
-- Lists of tasks in the strict order of a comparison.
use practice.Base.{
  ◌≤◌, ◌≡◌, ◌≢◌, refl, Bool, true, List, [], ◌∷◌, ◌++◌, arith, Bool-cases, inl, inr,
}
use practice.Atop.Tstat.{Tstat}
use practice.Atop.Order.{Sign, before, same, after}
use practice.Atop.Order.Laws.{opposite, IsChain, IsComparison}
use practice.Atop.Accumulate.Sum.{total, within}

pub not_after_trans : (p q r : Sign) → IsChain p q r → p ≢ after → q ≢ after → r ≢ after
unfolding IsChain
not_after_trans p q r c h k = ground arith

pub before_trans : (p q r : Sign) → IsChain p q r → p ≡ before → q ≢ after → r ≡ before
unfolding IsChain
before_trans p q r c h k = ground arith

pub is_before : (p : Sign) → p ≢ same → p ≢ after → p ≡ before
is_before before h k = refl
is_before same h k = absurd (h refl)
is_before after h k = absurd (k refl)

pub opposite-same : (p : Sign) → p ≡ same → opposite p ≢ after
unfolding opposite
opposite-same p h = ground arith

module _ (comp : Tstat → Tstat → Sign) (comparison : IsComparison comp) where
  abbrev pub AllBefore : Tstat → List Tstat → Type 0
  AllBefore c [] = Unit
  AllBefore c (t ∷ rest) = (comp t c ≡ before) × AllBefore c rest

  abbrev pub AllBehind : Tstat → List Tstat → Type 0
  AllBehind c [] = Unit
  AllBehind c (t ∷ rest) = (comp c t ≡ before) × AllBehind c rest

  abbrev pub IsStrict : List Tstat → Type 0
  IsStrict [] = Unit
  IsStrict (t ∷ rest) = AllBehind t rest × IsStrict rest

  AllBehind-append :
      (x : Tstat) (l : List Tstat) (c : Tstat)
      → AllBehind x l
      → comp x c ≡ before
      → AllBehind x (l ++ c ∷ [])
  AllBehind-append x [] c h b = (b, tt)
  AllBehind-append x (t ∷ l) c h b = (h.0, AllBehind-append x l c h.1 b)

  pub IsStrict-append :
      (l : List Tstat) (c : Tstat) → IsStrict l → AllBefore c l → IsStrict (l ++ c ∷ [])
  IsStrict-append [] c h b = (tt, tt)
  IsStrict-append (t ∷ l) c h b = (AllBehind-append t l c h.0 b.0, IsStrict-append l c h.1 b.1)

  pub AllBefore-le :
      (c d : Tstat) (l : List Tstat) → AllBefore c l → comp c d ≢ after → AllBefore d l
  AllBefore-le c d [] h b = tt
  AllBefore-le c d (t ∷ l) h b =
      (before_trans _ _ _ (comparison.chain t c d) h.0 b, AllBefore-le c d l h.1 b)

  pub AllBefore-append :
      (c d : Tstat) (l : List Tstat) → AllBefore c l → comp c d ≡ before → AllBefore d (l ++ c ∷ [])
  AllBefore-append c d [] h b = (b, tt)
  AllBefore-append c d (t ∷ l) h b = (
    before_trans _ _ _ (comparison.chain t c d) h.0 (λ e. ground (arith, b, e)),
    AllBefore-append c d l h.1 b,
  )

  -- At most one entry of a list in strict order belongs to a group.
  module _ (group : Tstat → Bool)
      (tied : (s t : Tstat) → group s ≡ true → group t ≡ true → comp s t ≡ same) where
    none_behind :
        (t : Tstat) (l : List Tstat)
        → group t ≡ true
        → AllBehind t l
        → total (within group (λ u. 1)) l ≡ 0
    unfolding total
    none_behind t [] h b = refl
    none_behind t (u ∷ l) h b =
        let ih = none_behind t l h b.1 in
        elim (Bool-cases (group u)) [
          | inl e ↦ absurd (ground (arith, tied t u h e, b.0))
          | inr e ↦ rw e (omega (arith, ih))
        ]

    pub one_entry : (l : List Tstat) → IsStrict l → total (within group (λ u. 1)) l ≤ 1
    unfolding total
    one_entry [] h = omega arith
    one_entry (t ∷ l) h = elim (Bool-cases (group t)) [
      | inl e ↦ rw e (omega (arith, none_behind t l e h.0))
      | inr e ↦ rw e (omega (arith, one_entry l h.1))
    ]
