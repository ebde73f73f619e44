-- ===== src/Tests/Various.antt =====
-- Texts of times and times from texts.
use practice.Base.{
  ◌+◌, ◌*◌, ◌++◌, ◌∷◌, ◌&&◌, leb, if◌then◌else◌, arith, some, false, ◌≤◌, ◌<◌, ◌≡◌, refl, length,
}
use practice.Base.Text.{codes}
use practice.Base.Decimal.{decimal}
use practice.Atop.Various.Valstr.{
  Shrunk, shrink, unshrunk, IsShrunk, shrink-ends, val2valstr, plain_form, exponent_form, padded,
}
use practice.Atop.Various.{seconds, wrong_format, hhmm2secs, val2elapstr, val2cpustr}
use practice.Atop.Various.Clock.{hhmm2secs-colon}
use practice.Atop.Various.Elapsed.{read_elapsed, read_elapsed-val2elapstr, length-val2cpustr}

elapsed_text : val2elapstr 93784 ≡ codes "1d2h3m4s"
unfolding val2elapstr decimal
elapsed_text = refl

read_elapsed-val2elapstr_example : read_elapsed 0 0 (val2elapstr 93784) ≡ 93784
read_elapsed-val2elapstr_example = read_elapsed-val2elapstr 93784

length-val2cpustr_example :
    (12345 < 8638169500 → length (val2cpustr 12345) ≡ 6)
    × (8638169500 ≤ 12345 → 7 ≤ length (val2cpustr 12345))
length-val2cpustr_example = length-val2cpustr 12345

shrink-ends_example :
    (r : Shrunk) × (shrink 999950 999 (unshrunk 999950) ≡ some r) × IsShrunk 999 999950 r
shrink-ends_example = shrink-ends 999 999950

-- Rounding up gives a fourth digit where three positions are left: the text has 6 characters for the
-- 5 positions asked for.
val2valstr_carry : val2valstr 999950 5 false 0 ≡ some (codes "1000e3")
unfolding val2valstr plain_form exponent_form shrink padded decimal
val2valstr_carry = refl

hhmm2secs-colon_example :
    hhmm2secs (decimal 13 ++ b':' ∷ decimal 45)
    ≡ (if leb 13 23 && leb 45 59 then seconds (13 * 3600 + 45 * 60) else wrong_format)
hhmm2secs-colon_example = hhmm2secs-colon 13 45 (omega arith) (omega arith)
