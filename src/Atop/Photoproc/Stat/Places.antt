-- ===== src/Atop/Photoproc/Stat/Places.antt =====
-- Where strchr and strrchr find a character, as procstat of Qt/FakeAtop/photoproc.c uses them.
use practice.Base.{
  ℕ, zero, suc, ◌+◌, ◌≤◌, ◌≡◌, refl, ap, true, false, none, some, List, [], ◌∷◌, ◌++◌, ◌==◌,
  ==_refl, length, take, drop, min, arith,
}
use practice.Base.Text.{Bytes, isdigit, all_digits}
use practice.Base.Decimal.{decimal, all_digits-decimal}
use practice.Atop.Photosyst.Scan.Text.{counts_text}
use practice.Atop.Photoproc.Stat.{strchr, strrchr}

-- A text in which a character does not stand.
abbrev pub IsWithout : ℕ → Bytes → Type 0
IsWithout c [] = Unit
IsWithout c (d ∷ s) = ((c == d) ≡ false) × IsWithout c s

pub strchr-append : (c : ℕ) (a s : Bytes) → IsWithout c a → strchr c (a ++ c ∷ s) ≡ some (length a)
unfolding strchr
strchr-append c [] s h = rw (==_refl c) refl
strchr-append c (d ∷ a) s h = rw (h.0, strchr-append c a s h.1) refl

strrchr-without : (c : ℕ) (s : Bytes) → IsWithout c s → strrchr c s ≡ none
unfolding strrchr
strrchr-without c [] h = refl
strrchr-without c (d ∷ s) h = rw (strrchr-without c s h.1, h.0) refl

pub strrchr-append :
    (c : ℕ) (a s : Bytes) → IsWithout c s → strrchr c (a ++ c ∷ s) ≡ some (length a)
unfolding strrchr
strrchr-append c [] s h = rw (strrchr-without c s h, ==_refl c) refl
strrchr-append c (d ∷ a) s h = rw (strrchr-append c a s h) refl

pub drop-past : (a s : Bytes) (k n : ℕ) → n ≡ length a + k → drop n (a ++ s) ≡ drop k s
drop-past [] s k n h = let e : n ≡ k = omega arith in ap (λ i. drop i s) e
drop-past (c ∷ a) s k zero h = absurd (omega arith)
drop-past (c ∷ a) s k (suc n) h = drop-past a s k n (omega arith)

pub take-within : (n m : ℕ) (a s : Bytes) → n ≡ min (length a) m → take n (a ++ s) ≡ take m a
take-within zero zero a s h = refl
take-within zero (suc m) [] s h = refl
take-within zero (suc m) (c ∷ a) s h = absurd (omega arith)
take-within (suc n) zero a s h = absurd (omega arith)
take-within (suc n) (suc m) [] s h = absurd (omega arith)
take-within (suc n) (suc m) (c ∷ a) s h = ap (λ r. c ∷ r) (take-within n m a s (omega arith))

pub take-whole : (n : ℕ) (s : Bytes) → length s ≤ n → take n s ≡ s
take-whole zero [] h = refl
take-whole zero (c ∷ s) h = absurd (omega arith)
take-whole (suc n) [] h = refl
take-whole (suc n) (c ∷ s) h = ap (λ r. c ∷ r) (take-whole n s (omega arith))

pub IsWithout-append : (c : ℕ) (a s : Bytes) → IsWithout c a → IsWithout c s → IsWithout c (a ++ s)
IsWithout-append c [] s h k = k
IsWithout-append c (d ∷ a) s h k = (h.0, IsWithout-append c a s h.1 k)

IsWithout-digits : (c : ℕ) (s : Bytes) → isdigit c ≡ false → all_digits s ≡ true → IsWithout c s
unfolding all_digits isdigit
IsWithout-digits c [] h k = tt
IsWithout-digits c (d ∷ s) h k = (ground arith, IsWithout-digits c s h (ground arith))

pub IsWithout-decimal : (c n : ℕ) → isdigit c ≡ false → IsWithout c (decimal n)
IsWithout-decimal c n h = IsWithout-digits c (decimal n) h (all_digits-decimal n)

pub IsWithout-counts_text :
    (c : ℕ) (vs : List ℕ) (tail : Bytes)
    → isdigit c ≡ false
    → (c == b' ') ≡ false
    → IsWithout c tail
    → IsWithout c (counts_text vs tail)
unfolding counts_text
IsWithout-counts_text c [] tail h b k = k
IsWithout-counts_text c (v ∷ vs) tail h b k = (
  b,
  IsWithout-append c (decimal v) _ (IsWithout-decimal c v h)
      (IsWithout-counts_text c vs tail h b k),
)
