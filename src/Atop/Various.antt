-- ===== src/Atop/Various.antt =====
-- hhmm2secs, val2elapstr and val2cpustr of Qt/FakeAtop/various.c. A value is not negative.
pub mod Elapsed
pub mod Clock
pub mod Valstr
use practice.Base.{
  ℕ, ◌+◌, ◌-◌, ◌*◌, ◌/◌, ◌%◌, ◌^◌, Bool, true, false, not, ◌&&◌, ◌||◌, Option, none, some, List, [],
  ◌∷◌, ◌++◌, ltb, leb, ◌==◌, if◌then◌else◌,
}
use practice.Base.Text.{Bytes, isdigit}
use practice.Base.Decimal.{decimal}

abbrev pub secsday : ℕ
secsday = 86400

abbrev pub hoursecs : ℕ
hoursecs = 60 * 60

abbrev pub minsecs : ℕ
minsecs = 60

-- %d of sscanf on a text of digits and colons: the number, and the rest of the text.
pub read_digits : ℕ → Bytes → ℕ × Bytes
unfolding isdigit
read_digits acc [] = (acc, [])
read_digits acc (c ∷ s) =
    let more = read_digits (acc * 10 + (c - b'0')) s in if isdigit c then more else (acc, c ∷ s)

pub read_int : Bytes → Option (ℕ × Bytes)
unfolding isdigit read_digits
read_int [] = none
read_int (c ∷ s) = if isdigit c then some (read_digits 0 (c ∷ s)) else none

-- sscanf (itim, "%d:%d", &hours, &minutes), none where a variable stays unset.
pub hours_minutes : Bytes → Option (ℕ × ℕ)
unfolding read_int
hours_minutes itim = elim (read_int itim) [
  | none ↦ none
  | some (hours, []) ↦ none
  | some (hours, c ∷ s) ↦ elim (read_int s) [
    | none ↦ none
    | some (minutes, r) ↦ some (hours, minutes)
  ]
]

-- unset: variables without a value are used. A number that does not fit an int is not considered.
pub data Seconds : Type 0 where
  wrong_format unset : Seconds
  seconds : ℕ → Seconds

pub syntax_ok : Bytes → Bool
unfolding isdigit
syntax_ok [] = true
syntax_ok (c ∷ s) = (isdigit c || c == b':') && syntax_ok s

pub otim : ℕ → ℕ → Seconds
otim hours minutes =
    if ltb 23 hours || ltb 59 minutes
    then wrong_format
    else if leb secsday (hours * 3600 + minutes * 60)
    then seconds (secsday - 1)
    else seconds (hours * 3600 + minutes * 60)

unfoldable pub hhmm2secs : Bytes → Seconds
unfolding syntax_ok otim hours_minutes
hhmm2secs itim =
    if not (syntax_ok itim)
    then wrong_format
    else elim (hours_minutes itim) [ none ↦ unset | some (hours, minutes) ↦ otim hours minutes ]

-- A number with its unit, from the value on at which it is printed.
pub unit_text : Bool → ℕ → ℕ → Bytes → Bytes
unit_text shown n letter rest = if shown then decimal n ++ letter ∷ rest else rest

unfoldable pub val2elapstr : ℕ → Bytes
unfolding unit_text
val2elapstr value = unit_text (leb secsday value) (value / secsday) b'd' (
    unit_text (leb hoursecs value) (value % secsday / hoursecs) b'h' (
      unit_text (leb minsecs value) (value % hoursecs / minsecs) b'm'
        (unit_text true (value % minsecs) b's' [])))

-- %2lld and %02lld.
pub spaced : ℕ → Bytes
spaced n = if ltb n 10 then b' ' ∷ decimal n else decimal n

pub zeroed : ℕ → Bytes
zeroed n = if ltb n 10 then b'0' ∷ decimal n else decimal n

pub two_parts : ℕ → ℕ → ℕ → ℕ → Bytes
unfolding spaced zeroed
two_parts a middle b last = spaced a ++ (middle ∷ (zeroed b ++ last ∷ []))

unfoldable pub val2cpustr : ℕ → Bytes
unfolding two_parts
val2cpustr value =
    let secs = (value + 500) / 1000 in
    let mins = (secs + 30) / 60 in
    let hours = (mins + 30) / 60 in
    if ltb value 100000
    then two_parts (value / 1000) b'.' (value % 1000 / 10) b's'
    else if ltb secs 6000
    then two_parts (secs / 60) b'm' (secs % 60) b's'
    else if ltb mins 6000
    then two_parts (mins / 60) b'h' (mins % 60) b'm'
    else two_parts (hours / 24) b'd' (hours % 24) b'h'
