-- ===== src/Atop/Photosyst/Snmp/Table.antt =====
-- /proc/net/snmp6: the walk over the table of names, which goes on from the last name that was found,
-- is the lookup of the name, so that the lines may come in any order.
use practice.Base.{
  ℕ, zero, suc, ◌+◌, ◌<◌, ◌≡◌, refl, ap, ◌∙◌, ◌⊎◌, inl, inr, Bool-cases, Bool, true, false, not,
  ◌&&◌, ◌||◌, ◌==◌, if◌then◌else◌, List, [], ◌∷◌, get_or, set, get_or-set, set-beyond, length,
  length-set, arith,
}
use practice.Base.Text.{Bytes, same_text, same_text_eq}
use practice.Atop.Photosyst.Snmp.{V6State, seek_name, next_cur, v6_count}

unfoldable pub contains : Bytes → List Bytes → Bool
contains n [] = false
contains n (m ∷ names) = same_text m n || contains n names

-- No name occurs twice.
unfoldable pub no_dup : List Bytes → Bool
no_dup [] = true
no_dup (n ∷ names) = not (contains n names) && no_dup names

pub record Pair : Type 0 where
  pub nam : Bytes
  pub countval : ℕ

-- The number that the last line of a name gives.
unfoldable pub last_value : Bytes → List Pair → ℕ → ℕ
last_value n [] old = old
last_value n (p ∷ pairs) old = last_value n pairs (if same_text n p.nam then p.countval else old)

absent :
    (n : Bytes) (names : List Bytes) (j : ℕ)
    → contains n names ≡ false
    → j < length names
    → same_text (get_or names j []) n ≡ false
unfolding contains
absent n [] j h l = absurd (omega arith)
absent n (m ∷ names) zero h l = ground arith
absent n (m ∷ names) (suc j) h l = absent n names j (ground arith) (omega arith)

no_dup-index :
    (names : List Bytes) (nam : Bytes) (i j : ℕ)
    → no_dup names ≡ true
    → i < length names
    → j < length names
    → same_text (get_or names i []) nam ≡ true
    → same_text (get_or names j []) nam ≡ true
    → i ≡ j
unfolding no_dup
no_dup-index [] nam i j d a b h k = absurd (omega arith)
no_dup-index (n ∷ names) nam zero zero d a b h k = refl
no_dup-index (n ∷ names) nam zero (suc j) d a b h k =
    let e : n ≡ nam = same_text_eq n nam h in
    let c : contains n names ≡ false = ground arith in
    let f = absent n names j c (omega arith) in
    absurd (let k' : same_text (get_or names j []) n ≡ true = rw e k in ground arith)
no_dup-index (n ∷ names) nam (suc i) zero d a b h k =
    let e : n ≡ nam = same_text_eq n nam k in
    let c : contains n names ≡ false = ground arith in
    let f = absent n names i c (omega arith) in
    absurd (let h' : same_text (get_or names i []) n ≡ true = rw e h in ground arith)
no_dup-index (n ∷ names) nam (suc i) (suc j) d a b h k =
    ap suc (no_dup-index names nam i j (ground arith) (omega arith) (omega arith) h k)

-- The search from the first name on.
seek_name-cases :
    (nam : Bytes) (names : List Bytes) (cur : ℕ)
    → ((i : ℕ) × (i < length names)
        × (seek_name nam cur names ≡ cur + i)
        × (same_text (get_or names i []) nam ≡ true))
      ⊎ ((seek_name nam cur names ≡ cur + length names)
          × ((j : ℕ) → j < length names → same_text (get_or names j []) nam ≡ false))
unfolding seek_name
seek_name-cases nam [] cur = inr (omega arith, λ j l. absurd (omega arith))
seek_name-cases nam (n ∷ names) cur = elim (Bool-cases (same_text n nam)) [
  | inl e ↦ rw e (inl (0, omega arith, omega arith, e))
  | inr e ↦ rw e (elim (seek_name-cases nam names (suc cur)) [
    | inl (i, l, s, t) ↦ inl (suc i, omega arith, omega (arith, s), t)
    | inr (s, t) ↦ inr (omega (arith, s), first_differs n names nam e t)
  ])
]
  where
    first_differs :
        (n : Bytes) (names : List Bytes) (nam : Bytes)
        → same_text n nam ≡ false
        → ((j : ℕ) → j < length names → same_text (get_or names j []) nam ≡ false)
        → (j : ℕ) → j < length (n ∷ names)
        → same_text (get_or (n ∷ names) j []) nam ≡ false
    first_differs n names nam e t zero l = e
    first_differs n names nam e t (suc j) l = t j (omega arith)

-- The state between two lines.
pub record IsV6 (tab : List Bytes) (v : V6State) : Type 0 where
  pub in_table : v.cur < length tab
  pub sized : length v.vals ≡ length tab

module _ (tab : List Bytes) (distinct : no_dup tab ≡ true) where
  set-value :
      (nam : Bytes) (countval : ℕ) (vals : List ℕ) (k j : ℕ)
      → length vals ≡ length tab
      → k < length tab
      → same_text (get_or tab k []) nam ≡ true
      → j < length tab
      → get_or (set vals k countval) j 0
        ≡ (if same_text (get_or tab j []) nam then countval else get_or vals j 0)
  set-value nam countval vals k j s l h b =
      get_or-set vals k j countval 0 (omega arith)
      ∙ (elim (Bool-cases (same_text (get_or tab j []) nam)) [
        | inl e ↦ let i : k ≡ j = no_dup-index tab nam k j distinct l b h e in ground arith
        | inr e ↦ elim (Bool-cases (k == j)) [
          | inl q ↦ absurd (
              let i : k ≡ j = ground arith in
              let h' : same_text (get_or tab j []) nam ≡ true = rw⁻¹ i h in ground arith)
          | inr q ↦ rw (e, q) refl
        ]
      ])

  -- The number that the line of a name leaves at an index, whatever the cursor is.
  pub v6_count-value :
      (nam : Bytes) (countval : ℕ) (v : V6State) (j : ℕ)
      → IsV6 tab v
      → j < length tab
      → get_or (v6_count tab nam countval v).vals j 0
        ≡ (if same_text (get_or tab j []) nam then countval else get_or v.vals j 0)
  unfolding v6_count
  v6_count-value nam countval v j w b = elim (Bool-cases (same_text (get_or tab v.cur []) nam)) [
    | inl e ↦ rw e (set-value nam countval v.vals v.cur j w.sized w.in_table e b)
    | inr e ↦ rw e (elim (seek_name-cases nam tab 0) [
      | inl (i, l, s, t) ↦
          let s' : seek_name nam 0 tab ≡ i = omega (arith, s) in
          rw s' (set-value nam countval v.vals i j w.sized l t b)
      | inr (s, t) ↦
          let s' : seek_name nam 0 tab ≡ length tab = omega (arith, s) in
          rw (s', set-beyond v.vals (length tab) countval (omega (arith, w.sized)), t j b) refl
    ])
  ]

  next_cur-lt : (k : ℕ) → 0 < length tab → next_cur tab k < length tab
  unfolding next_cur
  next_cur-lt k h = ground arith

  pub v6_count-IsV6 :
      (nam : Bytes) (countval : ℕ) (v : V6State)
      → IsV6 tab v
      → IsV6 tab (v6_count tab nam countval v)
  unfolding v6_count
  v6_count-IsV6 nam countval v w =
      let k = if same_text (get_or tab v.cur []) nam then v.cur else seek_name nam 0 tab in
      record {
        in_table = next_cur-lt k (let c = w.in_table in omega arith);
        sized = length-set v.vals k countval ∙ w.sized;
      }
