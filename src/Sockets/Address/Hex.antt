-- ===== src/Sockets/Address/Hex.antt =====
-- The eight digits that %08X prints for a 32-bit address.
use practice.Base.{ℕ, ◌+◌, ◌-◌, ◌*◌, ◌/◌, ◌%◌, ◌<◌, ◌≡◌, [], ◌∷◌, arith, ltb, if◌then◌else◌}
use practice.Base.Text.{Bytes}
use practice.Sockets.Address.{hex_step, digit_parser}

pub hex_char : ℕ → ℕ
hex_char n = if ltb n 10 then b'0' + n else b'A' + (n - 10)

abbrev pub hex_byte : ℕ → Bytes → Bytes
hex_byte x rest = hex_char (x / 16) ∷ hex_char (x % 16) ∷ rest

unfoldable pub hex_word : ℕ → Bytes
hex_word v =
    hex_byte (v / 16777216)
      (hex_byte (v / 65536 % 256) (hex_byte (v / 256 % 256) (hex_byte (v % 256) [])))

pub hex_step-char : (temp n : ℕ) → n < 16 → hex_step temp (hex_char n) ≡ 16 * temp + n
unfolding hex_step hex_char
hex_step-char temp n h = ground arith

pub hex_step-byte :
    (x : ℕ) → x < 256 → hex_step (hex_step 0 (hex_char (x / 16))) (hex_char (x % 16)) ≡ x
hex_step-byte x h =
    rw
      (
        hex_step-char 0 (x / 16) (omega arith),
        hex_step-char (16 * 0 + x / 16) (x % 16) (omega arith),
      )
      (omega arith)

pub digit_parser-digit : (x : ℕ) → x < 10 → digit_parser x ≡ b'0' + x
unfolding digit_parser
digit_parser-digit x h = ground arith
