-- ===== src/Atop/System/Names.antt =====
-- The entries of an array of struct sstat by their name, which is how deviatsyst of
-- Qt/FakeAtop/deviate.c finds the entry of the previous sample: strcmp on names, loops that end at an
-- empty name, and the search for the entry of a name.
pub mod Cleared
use practice.Base.{
  ℕ, zero, suc, ◌+◌, ◌≡◌, refl, ◌∙◌, inl, inr, Bool-cases, length, drop, get_or, get_or-beyond,
  Bool, true, false, not, Option, none, some, List, [], ◌∷◌, arith, if◌then◌else◌, get_or,
}
use practice.Base.Text.{Bytes, same_text, same_text_eq}

-- `name[0]`.
abbrev pub named : Bytes → Bool
named [] = false
named (c ∷ s) = true

pub same_text-unnamed : (n : Bytes) → named n ≡ true → same_text n [] ≡ false
unfolding same_text
same_text-unnamed [] h = absurd (ground arith)
same_text-unnamed (c ∷ n) h = refl

module _ {A : Type 0} (name : A → Bytes) where
  -- `for (; x[j].name[0]; j++) if (strcmp(n, x[j].name) == 0) break;`, from index j on.
  unfoldable pub seek : Bytes → ℕ → List A → ℕ
  seek n j [] = j
  seek n j (x ∷ xs) =
      if named (name x) then (if same_text n (name x) then j else seek n (suc j) xs) else j

  -- The first entry of a name.
  unfoldable pub by_name : Bytes → List A → Option A
  by_name n [] = none
  by_name n (x ∷ xs) = if same_text n (name x) then some x else by_name n xs

  abbrev pub IsAllNamed : List A → Type 0
  IsAllNamed [] = Unit
  IsAllNamed (x ∷ xs) = (named (name x) ≡ true) × IsAllNamed xs

  -- Every entry has a name, and no two have the same.
  abbrev pub IsDistinct : List A → Type 0
  IsDistinct [] = Unit
  IsDistinct (x ∷ xs) = (named (name x) ≡ true) × (by_name (name x) xs ≡ none) × IsDistinct xs

  -- No two entries that have a name have the same.
  abbrev pub IsUnique : List A → Type 0
  IsUnique [] = Unit
  IsUnique (x ∷ xs) = (named (name x) ≡ true → by_name (name x) xs ≡ none) × IsUnique xs

  pub IsDistinct-IsUnique : (xs : List A) → IsDistinct xs → IsUnique xs
  IsDistinct-IsUnique [] v = tt
  IsDistinct-IsUnique (x ∷ xs) v = (λ w. v.1, IsDistinct-IsUnique xs v.2)

  pub seek-shift : (n : Bytes) (j k i : ℕ) (xs : List A) → i ≡ j + k → seek n i xs ≡ j + seek n k xs
  unfolding seek
  seek-shift n j k i [] h = h
  seek-shift n j k i (x ∷ xs) h = ground (arith, seek-shift n j (suc k) (suc i) xs (omega arith))

  -- A search for a name that no entry has ends behind the last one.
  pub seek-absent :
      (n : Bytes) (j : ℕ) (xs : List A)
      → IsAllNamed xs
      → by_name n xs ≡ none
      → seek n j xs ≡ j + length xs
  unfolding seek by_name
  seek-absent n j [] v h = omega arith
  seek-absent n j (x ∷ xs) v h = elim (Bool-cases (same_text n (name x))) [
    | inl e ↦ absurd (ground (arith, h, e))
    | inr e ↦ rw (v.0, e) (seek-absent n (suc j) xs v.1 (ground (arith, h, e)) ∙ omega arith)
  ]

  pub by_name_first :
      (n : Bytes) (x : A) (xs : List A) → by_name n (x ∷ xs) ≡ none → same_text n (name x) ≡ false
  unfolding by_name
  by_name_first n x xs h = ground arith

  pub by_name_rest :
      (n : Bytes) (x : A) (xs : List A) → by_name n (x ∷ xs) ≡ none → by_name n xs ≡ none
  unfolding by_name
  by_name_rest n x xs h = ground arith

  pub by_name-drop :
      (n : Bytes) (j : ℕ) (xs : List A) → by_name n xs ≡ none → by_name n (drop j xs) ≡ none
  by_name-drop n zero xs h = h
  by_name-drop n (suc j) [] h = h
  by_name-drop n (suc j) (x ∷ xs) h = by_name-drop n j xs (by_name_rest n x xs h)

  pub IsAllNamed-drop : (j : ℕ) (xs : List A) → IsAllNamed xs → IsAllNamed (drop j xs)
  IsAllNamed-drop zero xs v = v
  IsAllNamed-drop (suc j) [] v = v
  IsAllNamed-drop (suc j) (x ∷ xs) v = IsAllNamed-drop j xs v.1

  pub IsDistinct-IsAllNamed : (xs : List A) → IsDistinct xs → IsAllNamed xs
  IsDistinct-IsAllNamed [] v = tt
  IsDistinct-IsAllNamed (x ∷ xs) v = (v.0, IsDistinct-IsAllNamed xs v.2)

  pub by_name-named :
      (n : Bytes) (xs : List A) (p : A)
      → IsAllNamed xs
      → by_name n xs ≡ some p
      → named (name p) ≡ true
  unfolding by_name
  by_name-named n [] p v h = absurd (ground arith)
  by_name-named n (x ∷ xs) p v h = elim (Bool-cases (same_text n (name x))) [
    | inl e ↦ let e' : x ≡ p = ground arith in rw⁻¹ e' v.0
    | inr e ↦ by_name-named n xs p v.1 (ground arith)
  ]

  module _ (d : A) (unnamed : name d ≡ []) where
    -- Where names are distinct, an entry of the name is the entry of the name.
    pub by_name-get_or :
        (n : Bytes) (xs : List A) (j : ℕ)
        → IsUnique xs
        → named n ≡ true
        → same_text n (name (get_or xs j d)) ≡ true
        → by_name n xs ≡ some (get_or xs j d)
    unfolding by_name
    by_name-get_or n [] j v w h =
        let h' : same_text n [] ≡ true = rw⁻¹ unnamed h in
        let e = same_text-unnamed n w in absurd (ground arith)
    by_name-get_or n (x ∷ xs) zero v w h = rw h refl
    by_name-get_or n (x ∷ xs) (suc j) v w h =
        let t = by_name-get_or n xs j v.1 w h in
        elim (Bool-cases (same_text n (name x))) [
          | inl e ↦
              let e' = same_text_eq n (name x) e in
              let g : by_name n xs ≡ none = rw e' (v.0 (rw⁻¹ e' w)) in absurd (ground arith)
          | inr e ↦ rw (e, t) refl
        ]

    pub seek-found :
        (n : Bytes) (xs : List A) (p : A)
        → IsAllNamed xs
        → by_name n xs ≡ some p
        → get_or xs (seek n 0 xs) d ≡ p
    unfolding by_name seek
    seek-found n [] p v h = absurd (ground arith)
    seek-found n (x ∷ xs) p v h = elim (Bool-cases (same_text n (name x))) [
      | inl e ↦ rw (v.0, e) (ground arith)
      | inr e ↦
          let s : seek n 1 xs ≡ suc (seek n 0 xs) = seek-shift n 1 0 1 xs refl ∙ omega arith in
          rw (v.0, e, s) (seek-found n xs p v.1 (ground arith))
    ]

    pub seek-missing :
        (n : Bytes) (xs : List A)
        → IsAllNamed xs
        → by_name n xs ≡ none
        → get_or xs (seek n 0 xs) d ≡ d
    seek-missing n xs v h = get_or-beyond xs (seek n 0 xs) d (omega (arith, seek-absent n 0 xs v h))
