-- ===== src/Atop/Photosyst/Scan/Text.antt =====
-- A line of a name and numbers in decimal notation is read back by scan_line.
use practice.Base.{
  ℕ, zero, suc, ◌+◌, ◌-◌, ◌*◌, ◌≤◌, ◌<◌, ◌^◌, ◌≡◌, refl, true, false, none, some, List, [], ◌∷◌,
  ◌++◌, length, drop, arith, ◌==◌,
}
use practice.Base.Text.{Bytes, isdigit, all_digits}
use practice.Base.Decimal.{
  decimal, value_from, value-decimal, all_digits-decimal, length-decimal_pos, first,
}
use practice.Atop.Photosyst.Scan.{
  isspace, skip_space, read_word, more_digits, read_digits_as, read_lld, read_counts, positive,
  scanned, scan_line,
}

-- Numbers, each behind a blank, and what stands behind them.
unfoldable pub counts_text : List ℕ → Bytes → Bytes
counts_text [] tail = tail
counts_text (v ∷ vs) tail = b' ' ∷ decimal v ++ counts_text vs tail

-- A text that does not go on with digits, or with a number behind white space.
pub record IsEnd (tail : Bytes) : Type 0 where
  pub no_digit : isdigit (first tail) ≡ false
  pub no_number : read_lld (skip_space tail) ≡ none

-- A word without white space.
abbrev pub IsWord : Bytes → Type 0
IsWord [] = Unit
IsWord (c ∷ s) = (isspace c ≡ false) × IsWord s

abbrev pub IsFitting : List ℕ → Type 0
IsFitting [] = Unit
IsFitting (v ∷ vs) = (v < 2 ^ 63) × IsFitting vs

read_word-text :
    (w tail : Bytes) (d : ℕ)
    → IsWord w
    → isspace d ≡ true
    → read_word (w ++ d ∷ tail) ≡ record { value = w; rest = d ∷ tail }
unfolding read_word
read_word-text [] tail d v h = rw h refl
read_word-text (c ∷ w) tail d v h = rw (v.0, read_word-text w tail d v.1 h) refl

more_digits-stop :
    (acc : ℕ) (tail : Bytes)
    → isdigit (first tail) ≡ false
    → more_digits acc tail ≡ record { value = acc; rest = tail }
unfolding more_digits
more_digits-stop acc [] h = refl
more_digits-stop acc (c ∷ s) h = rw h refl

more_digits-text :
    (s tail : Bytes) (acc : ℕ)
    → all_digits s ≡ true
    → isdigit (first tail) ≡ false
    → more_digits acc (s ++ tail) ≡ record { value = value_from acc s; rest = tail }
unfolding more_digits all_digits value_from
more_digits-text [] tail acc v h = more_digits-stop acc tail h
more_digits-text (c ∷ s) tail acc v h =
    let d : isdigit c ≡ true = ground arith in
    let t = more_digits-text s tail (acc * 10 + (c - b'0')) (ground arith) h in rw (d, t) refl

all_digits-first :
    (c : ℕ) (s : Bytes) → all_digits (c ∷ s) ≡ true → (isdigit c ≡ true) × (all_digits s ≡ true)
unfolding all_digits
all_digits-first c s h = (ground arith, ground arith)

-- A digit is no white space and no sign.
isdigit-plain :
    (c : ℕ) → isdigit c ≡ true → (isspace c ≡ false) × ((c == b'-') ≡ false) × ((c == b'+') ≡ false)
unfolding isdigit isspace
isdigit-plain c h = (ground arith, ground arith, ground arith)

-- A text of digits is one number.
pub read_lld-digits :
    (s tail : Bytes)
    → 1 ≤ length s
    → all_digits s ≡ true
    → isdigit (first tail) ≡ false
    → value_from 0 s < 2 ^ 63
    → read_lld (skip_space (s ++ tail)) ≡ some (record { value = value_from 0 s; rest = tail })
unfolding read_lld skip_space read_digits_as
read_lld-digits [] tail n v h l = absurd (omega arith)
read_lld-digits (c ∷ s) tail n v h l =
    let t = more_digits-text (c ∷ s) tail 0 v h in
    let d = (all_digits-first c s v).0 in
    let plain = isdigit-plain c d in
    let f : positive (value_from 0 (c ∷ s)) ≡ value_from 0 (c ∷ s) = omega arith in
    rw (plain.0, plain.1, plain.2, d, t, f) refl

counts_text-no_digit :
    (vs : List ℕ) (tail : Bytes) → IsEnd tail → isdigit (first (counts_text vs tail)) ≡ false
unfolding counts_text isdigit
counts_text-no_digit [] tail e = e.no_digit
counts_text-no_digit (v ∷ vs) tail e = refl

pub read_counts-text :
    (n : ℕ) (vs : List ℕ) (tail : Bytes)
    → length vs ≤ n
    → IsFitting vs
    → IsEnd tail
    → read_counts n (counts_text vs tail) ≡ vs
unfolding read_counts counts_text
read_counts-text zero [] tail h f e = refl
read_counts-text zero (v ∷ vs) tail h f e = absurd (omega arith)
read_counts-text (suc n) [] tail h f e = rw (read_counts, e.no_number) refl
read_counts-text (suc n) (v ∷ vs) tail h f e =
    let b : value_from 0 (decimal v) < 2 ^ 63 = rw (value-decimal v) f.0 in
    let r =
      read_lld-digits (decimal v) (counts_text vs tail) (length-decimal_pos v)
        (all_digits-decimal v) (counts_text-no_digit vs tail e) b in
    let s : skip_space (b' ' ∷ decimal v ++ counts_text vs tail)
        ≡ skip_space (decimal v ++ counts_text vs tail) =
      unfold skip_space isspace in refl in
    rw (read_counts, s, r, value-decimal v, read_counts-text n vs tail (omega arith) f.1 e) refl

-- The text of a line: a name, numbers, and what stands behind them.
abbrev pub line_text : Bytes → List ℕ → Bytes → Bytes
line_text nam counts tail = nam ++ counts_text counts tail

-- A line of a word without white space and of at least one number, each below 2^63 and not more of
-- them than the format has, with a rest that does not go on with a digit or a number, is read back:
-- the result counts the word and the numbers, and cnts holds the numbers, and behind them what it
-- held before.
pub scan_line-line_text :
    (n : ℕ) (c : ℕ) (word : Bytes) (v : ℕ) (vs : List ℕ) (tail nam : Bytes) (cnts : List ℕ)
    → IsWord (c ∷ word)
    → length (v ∷ vs) ≤ n
    → IsFitting (v ∷ vs)
    → IsEnd tail
    → scan_line n (line_text (c ∷ word) (v ∷ vs) tail) nam cnts ≡ record {
      nr = suc (length (v ∷ vs));
      nam = c ∷ word;
      cnts = (v ∷ vs) ++ drop (length (v ∷ vs)) cnts;
    }
unfolding scan_line scanned counts_text
scan_line-line_text n c word v vs tail nam cnts w h f e =
    let rest = decimal v ++ counts_text vs tail in
    let s : skip_space (line_text (c ∷ word) (v ∷ vs) tail) ≡ c ∷ word ++ b' ' ∷ rest =
      unfold skip_space in rw w.0 refl in
    let b : isspace b' ' ≡ true = unfold isspace in refl in
    let r = read_word-text (c ∷ word) rest b' ' w b in
    rw (s, r, read_counts-text n (v ∷ vs) tail h f e) refl
