-- ===== src/Base/Decimal.antt =====
-- Decimal text: what printf's %d writes for a number that is not negative, and reading it back.
use Prim.Native.Nat.{ℕ, zero, suc, ◌+◌, ◌-◌, ◌*◌, ◌/◌, ◌%◌, ◌≤◌, ◌<◌}
use mathlib.Core.Path.{◌≡◌, refl}
use mathlib.Core.Bool.{true}
use mathlib.Core.List.{[], ◌∷◌}
use mathlib.Core.Logic.{inl, inr}
use native.Mathlib.Omega.{arith}
use practice.Base.Tests.{ltb, ltb→lt, ◌==◌, if◌then◌else◌, Bool-cases}
use practice.Base.Lists.{length}
use practice.Base.Text.{Bytes, all_digits}

emit : ℕ → ℕ → Bytes → Bytes
emit zero n out = out
emit (suc f) n out =
    let rest = emit f (n / 10) ((b'0' + n % 10) ∷ out) in if n == 0 then out else rest

unfoldable pub decimal : ℕ → Bytes
unfolding emit
decimal n = if n == 0 then b'0' ∷ [] else emit n n []

-- The number that a text of digits stands for, behind the digits read before.
unfoldable pub value_from : ℕ → Bytes → ℕ
value_from acc [] = acc
value_from acc (c ∷ s) = value_from (acc * 10 + (c - b'0')) s

value_from-emit : (f n : ℕ) (out : Bytes) → n ≤ f → value_from 0 (emit f n out) ≡ value_from n out
unfolding emit
value_from-emit zero n out h = let e : n ≡ 0 = omega arith in rw e
value_from-emit (suc f) n out h = elim (Bool-cases (n == 0)) [
  | inl e ↦ let e' : n ≡ 0 = ground arith in rw e'
  | inr e ↦ rw e (step (value_from-emit f (n / 10) ((b'0' + n % 10) ∷ out) (ground arith)))
]
  where
    last : n / 10 * 10 + (b'0' + n % 10 - b'0') ≡ n
    last = omega arith

    step :
        value_from 0 (emit f (n / 10) ((b'0' + n % 10) ∷ out))
          ≡ value_from (n / 10) ((b'0' + n % 10) ∷ out)
        → value_from 0 (emit f (n / 10) ((b'0' + n % 10) ∷ out)) ≡ value_from n out
    step ih = unfold value_from in rw last at ih

pub value-decimal : (n : ℕ) → value_from 0 (decimal n) ≡ n
unfolding decimal value_from
value-decimal n = ground (arith, value_from-emit n n [])

all_digits-emit : (f n : ℕ) (out : Bytes) → all_digits out ≡ true → all_digits (emit f n out) ≡ true
unfolding emit all_digits
all_digits-emit zero n out h = h
all_digits-emit (suc f) n out h = ground (arith, all_digits-emit f (n / 10) ((b'0' + n % 10) ∷ out))

pub all_digits-decimal : (n : ℕ) → all_digits (decimal n) ≡ true
unfolding decimal all_digits
all_digits-decimal n = ground (arith, all_digits-emit n n [])

-- The first character, 0 for the empty text.
abbrev pub first : Bytes → ℕ
first [] = 0
first (c ∷ s) = c

-- A number above 0 is printed with no leading zero.
abbrev IsLeading : ℕ → Type 0
IsLeading c = (b'0' < c) × (c ≤ b'9')

emit_zero : (f : ℕ) (out : Bytes) → emit f 0 out ≡ out
unfolding emit
emit_zero zero out = refl
emit_zero (suc f) out = refl

first-emit : (f n : ℕ) (out : Bytes) → 0 < n → n ≤ f → IsLeading (first (emit f n out))
unfolding emit
first-emit zero n out p h = absurd (omega arith)
first-emit (suc f) n out p h =
    ground
      (arith, emit_zero f ((b'0' + n % 10) ∷ out), first-emit f (n / 10) ((b'0' + n % 10) ∷ out))

pub first-decimal : (n : ℕ) → 0 < n → IsLeading (first (decimal n))
unfolding decimal
first-decimal n p = ground (arith, first-emit n n [])

emit-one : (f n : ℕ) (out : Bytes) → 0 < n → n ≤ f → n < 10 → length (emit f n out) ≡ length out + 1
unfolding emit
emit-one zero n out p h s = absurd (omega arith)
emit-one (suc f) n out p h s =
    let e : n / 10 ≡ 0 = omega arith in ground (arith, e, emit_zero f ((b'0' + n % 10) ∷ out))

length-emit-le : (f n : ℕ) (out : Bytes) → length out ≤ length (emit f n out)
unfolding emit
length-emit-le zero n out = omega arith
length-emit-le (suc f) n out = ground (arith, length-emit-le f (n / 10) ((b'0' + n % 10) ∷ out))

emit-two : (f n : ℕ) (out : Bytes) → n ≤ f → 10 ≤ n → length out + 2 ≤ length (emit f n out)
unfolding emit
emit-two zero n out h s = absurd (omega arith)
emit-two (suc zero) n out h s = absurd (omega arith)
emit-two (suc (suc f)) n out h s =
    let r : Bytes = (b'0' + n / 10 % 10) ∷ (b'0' + n % 10) ∷ out in
    ground (arith, length-emit-le f (n / 10 / 10) r)

-- Only the numbers below ten are printed by one character.
pub length-decimal : (n : ℕ) → (n < 10 → length (decimal n) ≡ 1) × (10 ≤ n → 2 ≤ length (decimal n))
unfolding decimal
length-decimal n = (λ s. ground (arith, emit-one n n []), λ s. ground (arith, emit-two n n []))

pub length-decimal_pos : (n : ℕ) → 1 ≤ length (decimal n)
length-decimal_pos n = elim (Bool-cases (ltb n 10)) [
  | inl e ↦ let k = (length-decimal n).0 (ltb→lt n 10 e) in omega arith
  | inr e ↦ let k = (length-decimal n).1 (ground arith) in omega arith
]

-- Numbers from ten to 99 are printed by two characters, larger ones by three at least.
pub length-decimal_two :
    (n : ℕ) → (10 ≤ n → n < 100 → length (decimal n) ≡ 2) × (100 ≤ n → 3 ≤ length (decimal n))
unfolding decimal
length-decimal_two zero = (λ h k. absurd (omega arith), λ h. absurd (omega arith))
length-decimal_two (suc f) = (
  λ h k.
      let r : Bytes = (b'0' + suc f % 10) ∷ [] in
      unfold emit in ground (arith, emit-one f (suc f / 10) r),
  λ h.
      let r : Bytes = (b'0' + suc f % 10) ∷ [] in
      unfold emit in ground (arith, emit-two f (suc f / 10) r),
)

-- At most k decimal digits.
abbrev pub IsBelow : ℕ → ℕ → Type 0
IsBelow zero n = n ≡ 0
IsBelow (suc k) n = IsBelow k (n / 10)

length-emit-below : (k f n : ℕ) (out : Bytes) → IsBelow k n → length (emit f n out) ≤ k + length out
unfolding emit
length-emit-below k zero n out h = omega arith
length-emit-below zero (suc f) n out h = rw h (omega arith)
length-emit-below (suc k) (suc f) n out h =
    ground (arith, length-emit-below k f (n / 10) ((b'0' + n % 10) ∷ out) h)

pub length-decimal_below : (k n : ℕ) → IsBelow (suc k) n → length (decimal n) ≤ suc k
unfolding decimal
length-decimal_below k n h = ground (arith, length-emit-below (suc k) n n [] h)
