-- ===== src/Atop/Parseable.antt =====
-- Qt/FakeAtop/parseable.c: the selection of labels, and the text that the flag -P prints for a sample.
pub mod Labels
pub mod System
pub mod Task
pub mod Readback
use practice.Base.{ℕ, zero, suc, ◌-◌, ◌^◌, Bool, if◌then◌else◌, ltb, List, [], ◌∷◌, ◌++◌}
use practice.Base.Int.{ℤ, pos, negsuc, pos_part, neg_part}
use practice.Base.Text.{Bytes}
use practice.Base.Decimal.{decimal}
use practice.Atop.Photoproc.Numbers.{as_signed}

-- %lld and %ld of 64 bits, and %d of an int.
unfoldable pub lld : ℕ → Bytes
lld n = if ltb n (2 ^ 63) then decimal n else b'-' ∷ decimal (2 ^ 64 - n)

unfoldable pub int_text : ℤ → Bytes
int_text (pos n) = decimal n
int_text (negsuc n) = b'-' ∷ decimal (neg_part (negsuc n))

abbrev pub id_text : ℕ → Bytes
id_text n = int_text (as_signed 32 n)

-- The columns of a line, each behind a blank, and its end.
unfoldable pub columns : List Bytes → Bytes
columns [] = 10 ∷ []
columns (f ∷ fs) = b' ' ∷ f ++ columns fs

unfoldable pub numbers : List ℕ → List Bytes → List Bytes
numbers [] fs = fs
numbers (v ∷ vs) fs = lld v ∷ numbers vs fs

-- A line of counters, and one with a name or a number before them; hp is the header.
unfoldable pub counter_line : Bytes → List ℕ → Bytes
counter_line hp vs = hp ++ columns (numbers vs [])

unfoldable pub named_line : Bytes → Bytes → List ℕ → Bytes
named_line hp nam vs = hp ++ columns (nam ∷ numbers vs [])

-- The lines of the entries up to a number.
unfoldable pub each_text {ℓ} : {A : Type ℓ} → ℕ → (A → Bytes) → List A → Bytes
each_text n f [] = []
each_text zero f (a ∷ rest) = []
each_text (suc n) f (a ∷ rest) = f a ++ each_text n f rest
