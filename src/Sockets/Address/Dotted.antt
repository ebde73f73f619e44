-- ===== src/Sockets/Address/Dotted.antt =====
-- addressParser writes the address in dotted decimal notation.
use practice.Base.{ℕ, ◌+◌, ◌/◌, ◌%◌, ◌<◌, ◌≡◌, ◌∷◌, arith, ltb, if◌then◌else◌, ◌^◌, set}
use practice.Base.Text.{Bytes}
use practice.Sockets.Address.{digit_parser, write_byte, address_round, address_parser}
use practice.Sockets.Address.Hex.{hex_word, hex_step-byte, digit_parser-digit}

-- Three decimal digits.
abbrev pub three_digits : ℕ → Bytes → Bytes
three_digits x rest = (b'0' + x / 100) ∷ (b'0' + x / 10 % 10) ∷ (b'0' + x % 10) ∷ rest

hundreds-digit :
    (x : ℕ) → x < 256 → (if ltb 99 x then digit_parser (x / 100) else b'0') ≡ b'0' + x / 100
hundreds-digit x h = ground (arith, digit_parser-digit (x / 100))

tens-digit : (x : ℕ) → (if ltb 9 x then digit_parser (x / 10 % 10) else b'0') ≡ b'0' + x / 10 % 10
tens-digit x = ground (arith, digit_parser-digit (x / 10 % 10))

ones-digit : (x : ℕ) → digit_parser (x % 100 % 10) ≡ b'0' + x % 10
ones-digit x = ground (arith, digit_parser-digit (x % 100 % 10))

write_byte-digits :
    (at x : ℕ) (output : Bytes)
    → x < 256
    → write_byte at x output
      ≡ set
          (set (set output at (b'0' + x / 100)) (at + 1) (b'0' + x / 10 % 10))
          (at + 2)
          (b'0' + x % 10)
unfolding write_byte
write_byte-digits at x output h = rw (hundreds-digit x h, tens-digit x, ones-digit x)

-- The buffer of 16 characters before the call, with any contents; the last one is never written.
abbrev pub buffer : (ℕ → ℕ) → Bytes → Bytes
buffer c rest =
    c 0
    ∷ c 1
    ∷ c 2
    ∷ c 3
    ∷ c 4
    ∷ c 5
    ∷ c 6
    ∷ c 7
    ∷ c 8
    ∷ c 9
    ∷ c 10
    ∷ c 11
    ∷ c 12
    ∷ c 13
    ∷ c 14
    ∷ rest

-- For the eight digits of a 32-bit address v, addressParser writes its four bytes, the lowest first,
-- in decimal notation with three digits each and dots between them, into the first 15 characters of
-- the buffer. What stands behind these, where a terminating zero is expected, is left as it was.
pub address_parser-hex_word :
    (v : ℕ) (c : ℕ → ℕ) (rest : Bytes)
    → v < 2 ^ 32
    → address_parser (hex_word v) (buffer c rest)
      ≡ three_digits (v % 256) (
          b'.'
          ∷ three_digits
              (v / 256 % 256)
              (b'.' ∷ three_digits (v / 65536 % 256) (b'.' ∷ three_digits (v / 16777216) rest)))
unfolding address_parser address_round hex_word
address_parser-hex_word v c rest h =
    let top : v / 16777216 < 256 = omega arith in
    rw (
      hex_step-byte (v / 16777216) top,
      hex_step-byte (v / 65536 % 256) (omega arith),
      hex_step-byte (v / 256 % 256) (omega arith),
      hex_step-byte (v % 256) (omega arith),
      write_byte-digits 12 (v / 16777216) _ top,
      write_byte-digits 8 (v / 65536 % 256) _ (omega arith),
      write_byte-digits 4 (v / 256 % 256) _ (omega arith),
      write_byte-digits 0 (v % 256) _ (omega arith),
    )
