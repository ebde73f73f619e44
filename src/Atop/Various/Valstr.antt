-- ===== src/Atop/Various/Valstr.antt =====
-- val2valstr of Qt/FakeAtop/various.c for a value that is not negative, and the loop in it on fuel: the
-- value itself is enough, since each round divides it by ten.
use practice.Base.{
  ℕ, zero, suc, ◌+◌, ◌-◌, ◌/◌, ◌%◌, ◌^◌, ◌≤◌, ◌<◌, ◌≡◌, refl, ap, Bool, true, not, ◌&&◌, inl, inr,
  Bool-cases, Option, none, some, [], ◌∷◌, ◌++◌, length, replicate, ltb, leb, ◌==◌, if◌then◌else◌,
  arith,
}
use practice.Base.Text.{Bytes, codes}
use practice.Base.Decimal.{decimal}

-- %*lld: at least so many positions.
unfoldable pub padded : ℕ → Bytes → Bytes
padded width text = replicate (width - length text) b' ' ++ text

-- The variables of the loop.
pub record Shrunk : Type 0 where
  pub value : ℕ
  pub exp : ℕ
  pub remain : ℕ

-- `while (value > maxval)`; none where the fuel does not reach.
unfoldable pub shrink : ℕ → ℕ → Shrunk → Option Shrunk
shrink zero maxval s = if ltb maxval s.value then none else some s
shrink (suc fuel) maxval s =
    let rest =
      shrink fuel maxval
        (record { value = s.value / 10; exp = suc s.exp; remain = s.value % 10 }) in
    if ltb maxval s.value then rest else some s

abbrev pub unshrunk : ℕ → Shrunk
unshrunk value = record { value = value; exp = 0; remain = 0 }

-- The form with an exponent, on `width` positions of which two are for it.
unfoldable pub exponent_form : ℕ → ℕ → Bytes → Option Bytes
exponent_form value width suffix = elim (shrink value (10 ^ (width - 2) - 1) (unshrunk value)) [
  | none ↦ none
  | some s ↦
      let rounded = if leb 5 s.remain then s.value + 1 else s.value in
      some (padded (width - 2) (decimal rounded) ++ b'e' ∷ decimal s.exp ++ suffix)
]

unfoldable pub plain_form : ℕ → ℕ → Bytes → Option Bytes
plain_form value width suffix =
    if ltb value (10 ^ width - 1)
    then some (padded width (decimal value) ++ suffix)
    else if ltb width 3
    then some (decimal value ++ suffix)
    else exponent_form value width suffix

unfoldable pub val2valstr : ℕ → ℕ → Bool → ℕ → Option Bytes
val2valstr value width avg nsecs =
    if avg && not (nsecs == 0)
    then plain_form ((value + nsecs / 2) / nsecs) (width - 2) (codes "/s")
    else plain_form value width []

-- Divided by ten so many times.
unfoldable pub divided : ℕ → ℕ → ℕ
divided zero value = value
divided (suc n) value = divided n value / 10

-- What the loop makes of a value: as few divisions by ten as bring it to maxval or below, and the digit
-- that the last of them cut off.
pub record IsShrunk (maxval value : ℕ) (s : Shrunk) : Type 0 where
  pub fits : s.value ≤ maxval
  pub quotient : s.value ≡ divided s.exp value
  pub digit : (n : ℕ) → s.exp ≡ suc n → s.remain ≡ divided n value % 10
  pub least : (n : ℕ) → s.exp ≡ suc n → maxval < divided n value

module _ (maxval value : ℕ) where
  -- The variables before a round.
  record IsUnder (s : Shrunk) : Type 0 where
    quotient : s.value ≡ divided s.exp value
    digit : (n : ℕ) → s.exp ≡ suc n → s.remain ≡ divided n value % 10
    least : (n : ℕ) → s.exp ≡ suc n → maxval < divided n value

  next :
      (s : Shrunk)
      → ltb maxval s.value ≡ true
      → IsUnder s
      → IsUnder (record { value = s.value / 10; exp = suc s.exp; remain = s.value % 10 })
  unfolding divided
  next s e i = record {
    quotient = ap (λ v. v / 10) i.quotient;
    digit = λ n h. let k : n ≡ s.exp = omega arith in rw k (ap (λ v. v % 10) i.quotient);
    least = λ n h. let k : n ≡ s.exp = omega arith in let q = i.quotient in rw k (ground arith);
  }

  shrink-IsShrunk :
      (fuel : ℕ) (s : Shrunk)
      → s.value ≤ fuel
      → IsUnder s
      → (r : Shrunk) × (shrink fuel maxval s ≡ some r) × IsShrunk maxval value r
  unfolding shrink
  shrink-IsShrunk zero s h i = elim (Bool-cases (ltb maxval s.value)) [
    | inl e ↦ absurd (ground arith)
    | inr e ↦ rw e (
      s,
      refl,
      record { fits = ground arith; quotient = i.quotient; digit = i.digit; least = i.least },
    )
  ]
  shrink-IsShrunk (suc fuel) s h i = elim (Bool-cases (ltb maxval s.value)) [
    | inl e ↦ rw e (
        shrink-IsShrunk fuel
          (record { value = s.value / 10; exp = suc s.exp; remain = s.value % 10 }) (ground arith)
          (next s e i))
    | inr e ↦ rw e (
      s,
      refl,
      record { fits = ground arith; quotient = i.quotient; digit = i.digit; least = i.least },
    )
  ]

  -- With the value as fuel, the loop of val2valstr comes to its end for every value and every
  -- maxval. It leaves the value divided by ten as often as it takes to bring it to maxval or below,
  -- and no more often, with the last digit that was cut off.
  pub shrink-ends :
      (r : Shrunk) × (shrink value maxval (unshrunk value) ≡ some r) × IsShrunk maxval value r
  unfolding divided
  shrink-ends = shrink-IsShrunk value (unshrunk value) (omega arith) (record {
    quotient = refl;
    digit = λ n h. absurd (omega arith);
    least = λ n h. absurd (omega arith);
  })

-- Whatever it is given, val2valstr comes to its end with a text.
pub val2valstr-ends :
    (value width nsecs : ℕ) (avg : Bool)
    → (text : Bytes) × (val2valstr value width avg nsecs ≡ some text)
unfolding val2valstr exponent_form
val2valstr-ends value width nsecs avg = elim (Bool-cases (avg && not (nsecs == 0))) [
  | inl e ↦ rw e (plain ((value + nsecs / 2) / nsecs) (width - 2) (codes "/s"))
  | inr e ↦ rw e (plain value width [])
]
  where
    exponent : (v w : ℕ) (suffix : Bytes) → (text : Bytes) × (exponent_form v w suffix ≡ some text)
    exponent v w suffix =
        let r = shrink-ends (10 ^ (w - 2) - 1) v in rw (exponent_form, r.1) (_, refl)

    plain : (v w : ℕ) (suffix : Bytes) → (text : Bytes) × (plain_form v w suffix ≡ some text)
    plain v w suffix = elim (Bool-cases (ltb v (10 ^ w - 1))) [
      | inl e ↦ unfold plain_form in rw e (_, refl)
      | inr e ↦ elim (Bool-cases (ltb w 3)) [
        | inl f ↦ unfold plain_form in rw (e, f) (_, refl)
        | inr f ↦ let r = exponent v w suffix in unfold plain_form in rw (e, f) r
      ]
    ]
