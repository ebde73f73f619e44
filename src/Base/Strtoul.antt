-- ===== src/Base/Strtoul.antt =====
-- strtoul (s, &end, 0) of the C library on a 64-bit machine: white space, a sign, the base by its
-- prefix (0x, 0 or none), digits, and the result ULONG_MAX where the number does not fit.
use Prim.Native.Nat.{ℕ, ◌+◌, ◌-◌, ◌*◌, ◌%◌, ◌^◌, ◌≤◌, ◌<◌}
use mathlib.Core.Path.{◌≡◌, refl}
use mathlib.Core.Bool.{Bool, true, false, ◌&&◌, ◌||◌}
use mathlib.Core.List.{[], ◌∷◌}
use native.Mathlib.Omega.{arith}
use practice.Base.Tests.{ltb, leb, ◌==◌, if◌then◌else◌}
use practice.Base.Text.{Bytes, all_digits}
use practice.Base.Decimal.{
  decimal, value_from, value-decimal, all_digits-decimal, first, first-decimal,
}

abbrev pub ulong_max : ℕ
ulong_max = 2 ^ 64 - 1

isspace : ℕ → Bool
isspace c = c == 32 || (leb 9 c && leb c 13)

-- The value of a digit in bases up to 16; 16 where the character is none.
digit_value : ℕ → ℕ
digit_value c =
    if leb b'0' c && leb c b'9'
    then c - b'0'
    else if leb b'a' c && leb c b'f'
    then c - b'a' + 10
    else if leb b'A' c && leb c b'F'
    then c - b'A' + 10
    else 16

-- What was read, and the rest of the text, to which `end` points.
pub record Parsed : Type 0 where
  pub value : ℕ
  pub rest : Bytes

scan : ℕ → ℕ → Bytes → Parsed
unfolding digit_value
scan base acc [] = record { value = acc; rest = [] }
scan base acc (c ∷ s) =
    let more = scan base (acc * base + digit_value c) s in
    if ltb (digit_value c) base then more else record { value = acc; rest = c ∷ s }

starts_digit : ℕ → Bytes → Bool
unfolding digit_value
starts_digit base [] = false
starts_digit base (c ∷ s) = ltb (digit_value c) base

digits : Bytes → Bytes → ℕ → Parsed
unfolding scan starts_digit
digits whole s base =
    if starts_digit base s then scan base 0 s else record { value = 0; rest = whole }

is_hex_prefix : Bytes → Bool
unfolding starts_digit
is_hex_prefix (z ∷ x ∷ s) = z == b'0' && (x == b'x' || x == b'X') && starts_digit 16 s
is_hex_prefix s = false

behind_prefix : Bytes → Bytes
behind_prefix (z ∷ x ∷ s) = s
behind_prefix s = []

-- The base by the prefix. A text with no digit is read as 0, and `end` stays at its start, `whole`.
prefixed : Bytes → Bytes → Parsed
unfolding digits is_hex_prefix behind_prefix
prefixed whole s =
    if is_hex_prefix s
    then digits whole (behind_prefix s) 16
    else if first s == b'0'
    then digits whole s 8
    else digits whole s 10

clamp : ℕ → ℕ
clamp n = if ltb ulong_max n then ulong_max else n

-- A minus sign negates in unsigned long, unless the number did not fit.
negate : ℕ → ℕ
unfolding clamp
negate n = if ltb ulong_max n then ulong_max else (2 ^ 64 - n) % 2 ^ 64

signed : Bytes → Bytes → Parsed
unfolding prefixed clamp negate
signed whole [] = record { value = 0; rest = whole }
signed whole (c ∷ s) =
    if c == b'-'
    then (let p = prefixed whole s in record p { value = negate p.value })
    else (let p = prefixed whole (if c == b'+' then s else c ∷ s) in
        record p { value = clamp p.value })

skip_space : Bytes → Bytes
unfolding isspace
skip_space [] = []
skip_space (c ∷ s) = let rest = skip_space s in if isspace c then rest else c ∷ s

unfoldable pub strtoul : Bytes → Parsed
unfolding signed skip_space
strtoul s = signed s (skip_space s)

scan-digits :
    (acc : ℕ) (s : Bytes)
    → all_digits s ≡ true
    → scan 10 acc s ≡ record { value = value_from acc s; rest = [] }
unfolding scan all_digits value_from
scan-digits acc [] h = refl
scan-digits acc (c ∷ s) h = ground (arith, scan-digits (acc * 10 + (c - b'0')) s)

-- A decimal text without a leading zero is read whole, and as the number that it stands for.
strtoul_leading :
    (s : Bytes)
    → all_digits s ≡ true
    → b'0' < first s
    → value_from 0 s ≤ ulong_max
    → strtoul s ≡ record { value = value_from 0 s; rest = [] }
unfolding strtoul all_digits
strtoul_leading [] h p b = absurd (omega arith)
strtoul_leading (c ∷ []) h p b = ground (arith, scan-digits 0 (c ∷ []))
strtoul_leading (c ∷ d ∷ s) h p b = ground (arith, scan-digits 0 (c ∷ d ∷ s))

pub strtoul-decimal :
    (n : ℕ) → 0 < n → n ≤ ulong_max → strtoul (decimal n) ≡ record { value = n; rest = [] }
strtoul-decimal n p b =
    let e = value-decimal n in
    ground (arith, e, strtoul_leading (decimal n), all_digits-decimal n, first-decimal n p)
