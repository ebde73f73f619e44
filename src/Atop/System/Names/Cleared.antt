-- ===== src/Atop/System/Names/Cleared.antt =====
-- The lookup of a name where an entry is cleared.
use practice.Base.{
  ℕ, zero, suc, ◌<◌, ◌≡◌, refl, ap, true, false, none, some, inl, inr, Bool-cases, List, [], ◌∷◌,
  length, get_or, set, arith,
}
use practice.Base.Text.{Bytes, same_text}
use practice.Atop.System.Names.{
  named, by_name, by_name_first, by_name_rest, IsUnique, same_text-unnamed,
}

module _ {A : Type 0} (name : A → Bytes) where
  pub by_name-same :
      (n : Bytes) (xs : List A) (p : A) → by_name name n xs ≡ some p → same_text n (name p) ≡ true
  unfolding by_name
  by_name-same n [] p h = absurd (ground arith)
  by_name-same n (x ∷ xs) p h = elim (Bool-cases (same_text n (name x))) [
    | inl e ↦ let e' : x ≡ p = ground arith in rw⁻¹ e' e
    | inr e ↦ by_name-same n xs p (ground arith)
  ]

  module _ (d : A) (unnamed : name d ≡ []) where
    -- An entry is found at an index of the list.
    pub by_name-index :
        (n : Bytes) (xs : List A) (p : A)
        → by_name name n xs ≡ some p
        → (i : ℕ) × (i < length xs) × (get_or xs i d ≡ p)
    unfolding by_name
    by_name-index n [] p h = absurd (ground arith)
    by_name-index n (x ∷ xs) p h = elim (Bool-cases (same_text n (name x))) [
      | inl e ↦ (0, omega arith, ground arith)
      | inr e ↦ let t = by_name-index n xs p (ground arith) in (suc t.0, omega (arith, t.1), t.2)
    ]

    -- Clearing an entry of another name changes no lookup.
    pub by_name-set :
        (n : Bytes) (xs : List A) (k : ℕ)
        → named n ≡ true
        → same_text n (name (get_or xs k d)) ≡ false
        → by_name name n (set xs k d) ≡ by_name name n xs
    unfolding by_name
    by_name-set n [] k w h = refl
    by_name-set n (x ∷ xs) zero w h = rw (unnamed, same_text-unnamed n w, h) refl
    by_name-set n (x ∷ xs) (suc k) w h = rw (by_name-set n xs k w h) refl

    by_name-absent :
        (n : Bytes) (xs : List A) (k : ℕ)
        → named n ≡ true
        → by_name name n xs ≡ none
        → by_name name n (set xs k d) ≡ none
    unfolding by_name
    by_name-absent n [] k w h = h
    by_name-absent n (x ∷ xs) zero w h =
        rw (unnamed, same_text-unnamed n w) (by_name_rest name n x xs h)
    by_name-absent n (x ∷ xs) (suc k) w h =
        rw (by_name_first name n x xs h) (by_name-absent n xs k w (by_name_rest name n x xs h))

    pub IsUnique-set : (xs : List A) (k : ℕ) → IsUnique name xs → IsUnique name (set xs k d)
    IsUnique-set [] k v = v
    IsUnique-set (x ∷ xs) zero v =
        (λ w. absurd (let u = ap named unnamed in ground (arith, u, w)), v.1)
    IsUnique-set (x ∷ xs) (suc k) v =
        (λ w. by_name-absent (name x) xs k w (v.0 w), IsUnique-set xs k v.1)

    pub get_or-cleared : (xs : List A) (k : ℕ) → get_or (set xs k d) k d ≡ d
    get_or-cleared [] k = refl
    get_or-cleared (x ∷ xs) zero = refl
    get_or-cleared (x ∷ xs) (suc k) = get_or-cleared xs k
