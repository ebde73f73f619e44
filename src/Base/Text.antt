-- ===== src/Base/Text.antt =====
-- C strings as lists of character codes, without the terminating zero, and the parts of the C
-- library that the programs use on them: isdigit and strcmp.
use Prim.Native.Char.{code}
use Prim.Native.String.{String}
use Prim.Native.Nat.{ℕ}
use mathlib.Core.Path.{◌≡◌, refl}
use mathlib.Core.Bool.{Bool, true, false, ◌&&◌}
use mathlib.Core.List.{List, [], ◌∷◌}
use native.Mathlib.Omega.{arith}
use practice.Base.Tests.{leb, ◌==◌}

abbrev pub Bytes : Type 0
Bytes = List ℕ

abbrev pub codes : String → Bytes
codes String.[] = []
codes (String.◌∷◌ c s) = code c ∷ codes s

unfoldable pub isdigit : ℕ → Bool
isdigit c = leb b'0' c && leb c b'9'

unfoldable pub all_digits : Bytes → Bool
unfolding isdigit
all_digits [] = true
all_digits (c ∷ s) = isdigit c && all_digits s

-- strcmp (a, b) == 0, memcmp on texts of one length.
unfoldable pub same_text : Bytes → Bytes → Bool
same_text [] [] = true
same_text [] (d ∷ b) = false
same_text (c ∷ a) [] = false
same_text (c ∷ a) (d ∷ b) = c == d && same_text a b

pub same_text_eq : (a b : Bytes) → same_text a b ≡ true → a ≡ b
unfolding same_text
same_text_eq [] [] h = refl
same_text_eq [] (d ∷ b) h = ground arith
same_text_eq (c ∷ a) [] h = ground arith
same_text_eq (c ∷ a) (d ∷ b) h = ground (arith, same_text_eq a b)

pub same_text_refl : (a : Bytes) → same_text a a ≡ true
unfolding same_text
same_text_refl [] = refl
same_text_refl (c ∷ a) = ground (arith, same_text_refl a)

pub same_text_swap : (a b : Bytes) → same_text a b ≡ false → same_text b a ≡ false
unfolding same_text
same_text_swap [] [] h = h
same_text_swap [] (d ∷ b) h = refl
same_text_swap (c ∷ a) [] h = refl
same_text_swap (c ∷ a) (d ∷ b) h = ground (arith, same_text_swap a b)
