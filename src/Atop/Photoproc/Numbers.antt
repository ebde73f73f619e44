-- ===== src/Atop/Photoproc/Numbers.antt =====
-- The integers that sscanf stores, as procstat and its neighbours in Qt/FakeAtop/photoproc.c ask for
-- them: %d, %lld and %llu of the C library, and the division and addition of C on them.
use practice.Base.{
  ℕ, ◌-◌, ◌/◌, ◌%◌, ◌^◌, Option, none, some, [], ◌∷◌, ltb, ◌==◌, if◌then◌else◌, min,
}
use practice.Base.Int.{ℤ, pos, negsuc}
use practice.Base.Text.{Bytes}
use practice.Atop.Photosyst.Scan.{Read, skip_space, read_lld, read_digits_as}

-- The value of the low w bits in two's complement.
abbrev pub as_signed : ℕ → ℕ → ℤ
as_signed w n =
    if ltb (n % 2 ^ w) (2 ^ (w - 1)) then pos (n % 2 ^ w) else negsuc (2 ^ w - 1 - n % 2 ^ w)

-- A number that is not negative behind a conversion to int.
abbrev pub as_id : ℕ → ℕ
as_id n = n % 2 ^ 32

-- n / d for a divisor above 0, where n holds the bits of a long long.
abbrev pub div_count : ℕ → ℕ → ℕ
div_count n d = if ltb n (2 ^ 63) then n / d else (2 ^ 64 - (2 ^ 64 - n) / d) % 2 ^ 64

-- %llu ends at the largest number; a minus sign negates, unless the number did not fit.
abbrev pub unsigned : ℕ → ℕ
unsigned n = min n (2 ^ 64 - 1)

abbrev pub negated : ℕ → ℕ
negated n = if ltb n (2 ^ 64) then (2 ^ 64 - n) % 2 ^ 64 else 2 ^ 64 - 1

unfoldable pub read_llu : Bytes → Option (Read ℕ)
read_llu [] = none
read_llu (c ∷ s) =
    if c == b'-'
    then read_digits_as negated s
    else if c == b'+'
    then read_digits_as unsigned s
    else read_digits_as unsigned (c ∷ s)

-- A variable behind one conversion: it keeps its value where the text has no number.
unfoldable pub lld_or : Bytes → ℕ → ℕ
lld_or s old = elim (read_lld (skip_space s)) [ none ↦ old | some r ↦ r.value ]

unfoldable pub llu_or : Bytes → ℕ → ℕ
llu_or s old = elim (read_llu (skip_space s)) [ none ↦ old | some r ↦ r.value ]

-- %d takes the low bits of what strtol reads.
unfoldable pub id_or : Bytes → ℕ → ℕ
id_or s old = elim (read_lld (skip_space s)) [ none ↦ old | some r ↦ as_id r.value ]

unfoldable pub int_or : Bytes → ℤ → ℤ
int_or s old = elim (read_lld (skip_space s)) [ none ↦ old | some r ↦ as_signed 32 r.value ]
