-- ===== src/Sockets/Address.antt =====
-- digitParser, addressParser and findBandwidth of Qt/ZMonitor/SocketMornitoring/zsocket.c: the
-- addresses of /proc/net/tcp, which are eight hexadecimal digits in the host's byte order.
pub mod Hex
pub mod Dotted
pub mod Lookup
use practice.Base.{
  ℕ, zero, suc, ◌+◌, ◌-◌, ◌*◌, ◌/◌, ◌%◌, ◌^◌, Bool, ◌&&◌, not, Option, none, some, List, [], ◌∷◌,
  ltb, leb, ◌==◌, if◌then◌else◌, get_or, set,
}
use practice.Base.Text.{Bytes}
use practice.Capture.Table.{u32_mod, Flow, Bandwidth, ListBandwidth, lookup_bandwidth}

pub digit_parser : ℕ → ℕ
digit_parser x =
    if x == 0
    then b'0'
    else if x == 1
    then b'1'
    else if x == 2
    then b'2'
    else if x == 3
    then b'3'
    else if x == 4
    then b'4'
    else if x == 5
    then b'5'
    else if x == 6
    then b'6'
    else if x == 7
    then b'7'
    else if x == 8
    then b'8'
    else if x == 9
    then b'9'
    else 0

-- The chain of tests on addr[i]: a character that is no digit from 0 to 9 or A to F is passed over.
pub hex_step : ℕ → ℕ → ℕ
hex_step temp c =
    if leb b'0' c && leb c b'9'
    then 16 * temp + (c - b'0')
    else if leb b'A' c && leb c b'F'
    then 16 * temp + (c - b'A' + 10)
    else temp

-- The three digits of one byte of the address, at `at` of the output.
pub write_byte : ℕ → ℕ → Bytes → Bytes
write_byte at temp output =
    let hundreds = if ltb 99 temp then digit_parser (temp / 100) else b'0' in
    let tens = if ltb 9 temp then digit_parser (temp / 10 % 10) else b'0' in
    set (set (set output at hundreds) (at + 1) tens) (at + 2) (digit_parser (temp % 100 % 10))

pub record ParserState : Type 0 where
  pub temp : ℕ
  pub output : Bytes

-- One round of the loop; the bytes are written from the last to the first.
pub address_round : Bytes → ℕ → ParserState → ParserState
address_round addr i s =
    let temp = hex_step s.temp (get_or addr i 0) in
    if i % 2 == 1
    then (let written = write_byte (12 - i / 2 * 4) temp s.output in
        record {
          temp = 0;
          output = (if i == 7 then written else set written (11 - i / 2 * 4) b'.');
        })
    else record s { temp = temp }

pub address_rounds : ℕ → ℕ → Bytes → ParserState → ParserState
unfolding address_round
address_rounds zero i addr s = s
address_rounds (suc n) i addr s = address_rounds n (i + 1) addr (address_round addr i s)

unfoldable pub address_parser : Bytes → Bytes → Bytes
unfolding address_rounds
address_parser addr output = (address_rounds 8 0 addr (record { temp = 0; output = output })).output

-- The weight of the byte that ends at digit i.
pub weight : ℕ → ℕ
weight i = if i == 7 then 16 * 16 * 16 else if i == 5 then 16 * 16 else if i == 3 then 16 else 1

pub record FindState : Type 0 where
  pub source : ℕ
  pub dest : ℕ
  pub re_s : ℕ
  pub re_d : ℕ

pub find_round : Bytes → Bytes → ℕ → FindState → FindState
unfolding weight
find_round rem_adrr local_addr i s =
    let dest = hex_step s.dest (get_or rem_adrr i 0) % u32_mod in
    let source = hex_step s.source (get_or local_addr i 0) % u32_mod in
    if i % 2 == 1
    then record {
      source = 0;
      dest = 0;
      re_s = (s.re_s + source * weight i) % u32_mod;
      re_d = (s.re_d + dest * weight i) % u32_mod;
    }
    else record s { source = source; dest = dest }

pub find_rounds : ℕ → ℕ → Bytes → Bytes → FindState → FindState
unfolding find_round
find_rounds zero i rem_adrr local_addr s = s
find_rounds (suc n) i rem_adrr local_addr s =
    find_rounds n (i + 1) rem_adrr local_addr (find_round rem_adrr local_addr i s)

pub data_of : Option Bandwidth → ℕ
data_of none = 0
data_of (some temp) = temp.amount

-- The result is a float in C; the number that is converted is the result here.
unfoldable pub find_bandwidth : Bytes → Bytes → ℕ → ℕ → ListBandwidth → ℕ
find_bandwidth rem_adrr local_addr rem_port local_port l =
    let s =
      find_rounds 8 0 rem_adrr local_addr (record { source = 0; dest = 0; re_s = 0; re_d = 0 }) in
    data_of (
      lookup_bandwidth
        (record {
          source = s.re_s;
          dest = s.re_d;
          sport = local_port % 2 ^ 16;
          dport = rem_port % 2 ^ 16;
        })
        l)
