-- ===== src/Atop/Various/Elapsed.antt =====
-- The texts of val2elapstr and val2cpustr.
use practice.Base.{
  ℕ, ◌+◌, ◌-◌, ◌*◌, ◌/◌, ◌%◌, ◌≤◌, ◌<◌, ◌≡◌, refl, ◌∙◌, Bool, true, false, [], ◌∷◌, ◌++◌, arith,
  leb, ◌==◌, if◌then◌else◌, length, length-append,
}
use practice.Base.Text.{Bytes, isdigit, all_digits}
use practice.Base.Decimal.{
  decimal, value_from, value-decimal, all_digits-decimal, length-decimal, length-decimal_two,
}
use practice.Atop.Various.{
  secsday, hoursecs, minsecs, unit_text, val2elapstr, spaced, zeroed, two_parts, val2cpustr,
}

-- The seconds that a text of numbers with units stands for: `acc` is the number being read, `total`
-- what came before.
abbrev pub unit_secs : ℕ → ℕ
unit_secs c = if c == b'd' then 86400 else if c == b'h' then 3600 else if c == b'm' then 60 else 1

pub read_elapsed : ℕ → ℕ → Bytes → ℕ
unfolding isdigit
read_elapsed acc total [] = total
read_elapsed acc total (c ∷ s) =
    let digit = read_elapsed (acc * 10 + (c - b'0')) total s in
    let unit = read_elapsed 0 (total + acc * unit_secs c) s in if isdigit c then digit else unit

read_elapsed-digits :
    (acc total : ℕ) (s rest : Bytes)
    → all_digits s ≡ true
    → read_elapsed acc total (s ++ rest) ≡ read_elapsed (value_from acc s) total rest
unfolding read_elapsed all_digits value_from
read_elapsed-digits acc total [] rest h = refl
read_elapsed-digits acc total (c ∷ s) rest h =
    ground (arith, read_elapsed-digits (acc * 10 + (c - b'0')) total s rest)

read_elapsed-unit :
    (total n c : ℕ) (rest : Bytes) (shown : Bool)
    → isdigit c ≡ false
    → read_elapsed 0 total (unit_text shown n c rest)
      ≡ read_elapsed 0 (if shown then total + n * unit_secs c else total) rest
unfolding unit_text
read_elapsed-unit total n c rest true h =
    read_elapsed-digits 0 total (decimal n) (c ∷ rest) (all_digits-decimal n)
    ∙ rw (value-decimal n) (unfold read_elapsed in rw h)
read_elapsed-unit total n c rest false h = refl

-- The text of val2elapstr stands for the number of seconds that it was made of.
pub read_elapsed-val2elapstr : (value : ℕ) → read_elapsed 0 0 (val2elapstr value) ≡ value
unfolding val2elapstr isdigit
read_elapsed-val2elapstr value =
    rw
      (
        read_elapsed-unit 0 (value / secsday) b'd' _ (leb secsday value) refl,
        read_elapsed-unit _ (value % secsday / hoursecs) b'h' _ (leb hoursecs value) refl,
        read_elapsed-unit _ (value % hoursecs / minsecs) b'm' _ (leb minsecs value) refl,
        read_elapsed-unit _ (value % minsecs) b's' [] true refl,
      )
      (unfold read_elapsed in ground arith)

length-spaced : (n : ℕ) → (n < 100 → length (spaced n) ≡ 2) × (100 ≤ n → 3 ≤ length (spaced n))
unfolding spaced
length-spaced n = (
  λ h. ground (arith, length-decimal n, length-decimal_two n),
  λ h. ground (arith, length-decimal_two n),
)

length-zeroed : (n : ℕ) → n < 100 → length (zeroed n) ≡ 2
unfolding zeroed
length-zeroed n h = ground (arith, length-decimal n, length-decimal_two n)

length-two_parts :
    (a middle b last : ℕ)
    → b < 100
    → (a < 100 → length (two_parts a middle b last) ≡ 6)
      × (100 ≤ a → 7 ≤ length (two_parts a middle b last))
unfolding two_parts
length-two_parts a middle b last h =
    let e = length-append (spaced a) (middle ∷ (zeroed b ++ last ∷ [])) in
    let f = length-append (zeroed b) (last ∷ []) in
    let k = length-zeroed b h in
    (
      λ g. omega (arith, e, f, k, (length-spaced a).0 g),
      λ g. omega (arith, e, f, k, (length-spaced a).1 g),
    )

-- The text of val2cpustr has 6 positions up to 8638169499 milliseconds (99 days, 23 hours and a
-- half), and at least 7 from there on, one more than its comment promises.
pub length-val2cpustr :
    (value : ℕ)
    → (value < 8638169500 → length (val2cpustr value) ≡ 6)
      × (8638169500 ≤ value → 7 ≤ length (val2cpustr value))
unfolding val2cpustr
length-val2cpustr value =
    let secs = (value + 500) / 1000 in
    let mins = (secs + 30) / 60 in
    let hours = (mins + 30) / 60 in
    let in_secs = length-two_parts (value / 1000) b'.' (value % 1000 / 10) b's' (omega arith) in
    let in_mins = length-two_parts (secs / 60) b'm' (secs % 60) b's' (omega arith) in
    let in_hours = length-two_parts (mins / 60) b'h' (mins % 60) b'm' (omega arith) in
    let in_days = length-two_parts (hours / 24) b'd' (hours % 24) b'h' (omega arith) in
    (
      λ h. ground (arith, in_secs.0, in_mins.0, in_hours.0, in_days.0),
      λ h. ground (arith, in_days.1),
    )
