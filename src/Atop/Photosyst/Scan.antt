-- ===== src/Atop/Photosyst/Scan.antt =====
-- The lines of the kernel's text files as photosyst of Qt/FakeAtop/photosyst.c reads them: sscanf with
-- the format "%s %lld %lld ..." of the C library.
pub mod Text
use practice.Base.{
  ℕ, zero, suc, ◌+◌, ◌-◌, ◌*◌, ◌%◌, ◌^◌, Bool, true, false, ◌||◌, ◌&&◌, Option, none, some, List,
  [], ◌∷◌, ◌++◌, ◌==◌, leb, ltb, if◌then◌else◌, length, drop, min,
}
use practice.Base.Text.{Bytes, isdigit}

unfoldable pub isspace : ℕ → Bool
isspace c = c == 32 || (leb 9 c && leb c 13)

unfoldable pub skip_space : Bytes → Bytes
skip_space [] = []
skip_space (c ∷ s) = let rest = skip_space s in if isspace c then rest else c ∷ s

-- What a conversion read, and the rest of the text.
pub record Read (A : Type 0) : Type 0 where
  pub value : A
  pub rest : Bytes

-- %s behind white space.
unfoldable pub read_word : Bytes → Read Bytes
read_word [] = record { value = []; rest = [] }
read_word (c ∷ s) =
    let more = read_word s in
    if isspace c
    then record { value = []; rest = c ∷ s }
    else record { value = c ∷ more.value; rest = more.rest }

unfoldable pub more_digits : ℕ → Bytes → Read ℕ
more_digits acc [] = record { value = acc; rest = [] }
more_digits acc (c ∷ s) =
    let more = more_digits (acc * 10 + (c - b'0')) s in
    if isdigit c then more else record { value = acc; rest = c ∷ s }

-- The 64 bits of a long long, which ends at the largest number and at the smallest.
abbrev pub positive : ℕ → ℕ
positive n = min n (2 ^ 63 - 1)

abbrev pub negative : ℕ → ℕ
negative n = (2 ^ 64 - min n (2 ^ 63)) % 2 ^ 64

-- The digits that a number must have, behind its sign.
unfoldable pub read_digits_as : (ℕ → ℕ) → Bytes → Option (Read ℕ)
read_digits_as f [] = none
read_digits_as f (c ∷ s) =
    let more = more_digits 0 (c ∷ s) in
    if isdigit c then some (record { value = f more.value; rest = more.rest }) else none

-- %lld behind white space.
unfoldable pub read_lld : Bytes → Option (Read ℕ)
read_lld [] = none
read_lld (c ∷ s) =
    if c == b'-'
    then read_digits_as negative s
    else if c == b'+'
    then read_digits_as positive s
    else read_digits_as positive (c ∷ s)

-- At most n numbers.
unfoldable pub read_counts : ℕ → Bytes → List ℕ
read_counts zero s = []
read_counts (suc n) s = elim (read_lld (skip_space s)) [
  | none ↦ []
  | some r ↦ r.value ∷ read_counts n r.rest
]

-- The result of sscanf, 0 also for EOF, and the variables behind the call: nam and cnts keep what is not read.
pub record Scanned : Type 0 where
  pub nr : ℕ
  pub nam : Bytes
  pub cnts : List ℕ

unfoldable pub scanned : Bytes → List ℕ → Bytes → List ℕ → Scanned
scanned [] counts nam cnts = record { nr = 0; nam = nam; cnts = cnts }
scanned (c ∷ word) counts nam cnts = record {
  nr = suc (length counts);
  nam = c ∷ word;
  cnts = counts ++ drop (length counts) cnts;
}

unfoldable pub scan_line : ℕ → Bytes → Bytes → List ℕ → Scanned
scan_line n line nam cnts =
    let r = read_word (skip_space line) in scanned r.value (read_counts n r.rest) nam cnts
