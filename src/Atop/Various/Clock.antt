-- ===== src/Atop/Various/Clock.antt =====
-- hhmm2secs on times of the day, and on a number alone.
use practice.Base.{
  ℕ, ◌+◌, ◌-◌, ◌*◌, ◌^◌, ◌≤◌, ◌<◌, ◌≡◌, refl, ◌∙◌, Bool, true, false, ◌&&◌, ◌||◌, none, some, [],
  ◌∷◌, ◌++◌, arith, leb, if◌then◌else◌, length,
}
use practice.Base.Text.{Bytes, isdigit, all_digits}
use practice.Base.Decimal.{
  decimal, value_from, value-decimal, all_digits-decimal, length-decimal_pos,
}
use practice.Atop.Various.{
  read_digits, read_int, hours_minutes, wrong_format, unset, seconds, syntax_ok, otim, hhmm2secs,
}

read_digits-append :
    (acc : ℕ) (s rest : Bytes)
    → all_digits s ≡ true
    → read_digits acc (s ++ rest) ≡ read_digits (value_from acc s) rest
unfolding read_digits all_digits value_from
read_digits-append acc [] rest h = refl
read_digits-append acc (c ∷ s) rest h =
    ground (arith, read_digits-append (acc * 10 + (c - b'0')) s rest)

read_int-append :
    (s rest : Bytes)
    → all_digits s ≡ true
    → 1 ≤ length s
    → read_int (s ++ rest) ≡ some (read_digits (value_from 0 s) rest)
unfolding read_int all_digits
read_int-append [] rest h p = absurd (omega arith)
read_int-append (c ∷ s) rest h p = ground (arith, read_digits-append 0 (c ∷ s) rest h)

syntax_ok-append : (s rest : Bytes) → all_digits s ≡ true → syntax_ok (s ++ rest) ≡ syntax_ok rest
unfolding syntax_ok all_digits
syntax_ok-append [] rest h = refl
syntax_ok-append (c ∷ s) rest h = ground (arith, syntax_ok-append s rest)

syntax_ok-all : (s : Bytes) → all_digits s ≡ true → syntax_ok s ≡ true
unfolding syntax_ok all_digits
syntax_ok-all [] h = refl
syntax_ok-all (c ∷ s) h = ground (arith, syntax_ok-all s)

read_digits-all :
    (acc : ℕ) (s : Bytes) → all_digits s ≡ true → read_digits acc s ≡ (value_from acc s, [])
unfolding read_digits all_digits value_from
read_digits-all acc [] h = refl
read_digits-all acc (c ∷ s) h = ground (arith, read_digits-all (acc * 10 + (c - b'0')) s)

read_int-all :
    (s : Bytes) → all_digits s ≡ true → 1 ≤ length s → read_int s ≡ some (value_from 0 s, [])
unfolding read_int all_digits
read_int-all [] h p = absurd (omega arith)
read_int-all (c ∷ s) h p = ground (arith, read_digits-all 0 (c ∷ s) h)

hours_minutes-parts :
    (s rest r : Bytes) (a b c : ℕ)
    → read_int s ≡ some (a, c ∷ rest)
    → read_int rest ≡ some (b, r)
    → hours_minutes s ≡ some (a, b)
unfolding hours_minutes
hours_minutes-parts s rest r a b c e f = rw (e, hours_minutes) (rw f refl)

hours_minutes-colon : (h m : ℕ) → hours_minutes (decimal h ++ b':' ∷ decimal m) ≡ some (h, m)
unfolding read_digits isdigit
hours_minutes-colon h m =
    hours_minutes-parts (decimal h ++ b':' ∷ decimal m) (decimal m) [] h m b':'
      (read_int-append (decimal h) (b':' ∷ decimal m) (all_digits-decimal h) (length-decimal_pos h)
        ∙ rw (value-decimal h) refl)
      (read_int-all (decimal m) (all_digits-decimal m) (length-decimal_pos m)
        ∙ rw (value-decimal m) refl)

hours_minutes-alone : (s : Bytes) → all_digits s ≡ true → hours_minutes s ≡ none
unfolding hours_minutes
hours_minutes-alone [] h = unfold read_int in refl
hours_minutes-alone (c ∷ s) h = rw (read_int-all (c ∷ s) h (omega arith), hours_minutes) refl

syntax_ok-colon : (h m : ℕ) → syntax_ok (decimal h ++ b':' ∷ decimal m) ≡ true
syntax_ok-colon h m =
    syntax_ok-append (decimal h) _ (all_digits-decimal h)
    ∙ unfold syntax_ok in
      rw (or_true (isdigit b':')) (syntax_ok-all (decimal m) (all_digits-decimal m))
  where
    or_true : (b : Bool) → b || true ≡ true
    or_true true = refl
    or_true false = refl

hhmm2secs-parsed :
    (s : Bytes) (a b : ℕ)
    → syntax_ok s ≡ true
    → hours_minutes s ≡ some (a, b)
    → hhmm2secs s ≡ otim a b
unfolding hhmm2secs
hhmm2secs-parsed s a b h e = rw (h, e) refl

-- A time hh:mm, each part a number below 2^31 without leading zeros, is converted to its seconds
-- since 00:00 where the hours are below 24 and the minutes below 60, and else refused.
pub hhmm2secs-colon :
    (h m : ℕ)
    → h < 2 ^ 31
    → m < 2 ^ 31
    → hhmm2secs (decimal h ++ b':' ∷ decimal m)
      ≡ (if leb h 23 && leb m 59 then seconds (h * 3600 + m * 60) else wrong_format)
unfolding otim
hhmm2secs-colon h m hours minutes =
    hhmm2secs-parsed _ h m (syntax_ok-colon h m) (hours_minutes-colon h m) ∙ ground arith

-- A number alone passes the test of the syntax, but leaves the minutes unset: hhmm2secs then compares
-- a variable without a value.
pub hhmm2secs-digits : (s : Bytes) → all_digits s ≡ true → hhmm2secs s ≡ unset
unfolding hhmm2secs
hhmm2secs-digits s h = rw (syntax_ok-all s h, hours_minutes-alone s h) refl
