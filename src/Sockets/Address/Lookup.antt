-- ===== src/Sockets/Address/Lookup.antt =====
-- findBandwidth against the counters: which flow it looks up.
use practice.Base.{
  ℕ, ◌+◌, ◌*◌, ◌/◌, ◌%◌, ◌<◌, ◌≡◌, Option, none, some, false, arith, ◌^◌, refl, ◌∙◌,
}
use practice.Capture.Table.{
  u32_mod, Flow, ListBandwidth, Bandwidth, same_flow, lookup_bandwidth, add_bandwidth,
}
use practice.Capture.Table.Laws.{amount_of, lookup-add, same_flow_iff}
use practice.Sockets.Address.{hex_step, find_round, find_rounds, find_bandwidth, data_of}
use practice.Sockets.Address.Hex.{hex_char, hex_word, hex_step-char}

-- The number that findBandwidth makes of the four bytes of an address: each byte, the highest first,
-- counts sixteen times the one before.
abbrev pub folded : ℕ → ℕ
folded v = v / 16777216 + 16 * (v / 65536 % 256) + 256 * (v / 256 % 256) + 4096 * (v % 256)

-- A digit more, as an uint32_t.
hex_step-u32 :
    (temp n : ℕ) → n < 16 → temp < 16 → hex_step temp (hex_char n) % u32_mod ≡ 16 * temp + n
hex_step-u32 temp n h t = rw (hex_step-char temp n h) (omega arith)

byte-u32 :
    (x : ℕ)
    → x < 256
    → hex_step (hex_step 0 (hex_char (x / 16)) % u32_mod) (hex_char (x % 16)) % u32_mod ≡ x
byte-u32 x h =
    rw
      (
        hex_step-u32 0 (x / 16) (omega arith) (omega arith),
        hex_step-u32 (16 * 0 + x / 16) (x % 16) (omega arith) (omega arith),
      )
      (omega arith)

find_rounds-folded :
    (v w : ℕ)
    → v < 2 ^ 32
    → w < 2 ^ 32
    → find_rounds 8 0
        (hex_word w)
        (hex_word v)
        (record { source = 0; dest = 0; re_s = 0; re_d = 0 })
      ≡ record { source = 0; dest = 0; re_s = folded v; re_d = folded w }
unfolding find_rounds find_round hex_word
find_rounds-folded v w hv hw =
    let tv : v / 16777216 < 256 = omega arith in
    let tw : w / 16777216 < 256 = omega arith in
    rw
      (
        byte-u32 (v / 16777216) tv,
        byte-u32 (v / 65536 % 256) (omega arith),
        byte-u32 (v / 256 % 256) (omega arith),
        byte-u32 (v % 256) (omega arith),
        byte-u32 (w / 16777216) tw,
        byte-u32 (w / 65536 % 256) (omega arith),
        byte-u32 (w / 256 % 256) (omega arith),
        byte-u32 (w % 256) (omega arith),
      )
      (ground arith)

data_of-amount_of : (o : Option Bandwidth) → data_of o ≡ amount_of o
unfolding data_of
data_of-amount_of none = refl
data_of-amount_of (some n) = refl

-- For the digits of two 32-bit addresses, findBandwidth returns the counter of the flow whose
-- addresses are the folded ones, and whose ports are those given, as 16-bit numbers.
pub find_bandwidth-folded :
    (w v rem_port local_port : ℕ) (l : ListBandwidth)
    → w < 2 ^ 32
    → v < 2 ^ 32
    → find_bandwidth (hex_word w) (hex_word v) rem_port local_port l
      ≡ amount_of (
          lookup_bandwidth
            (record {
              source = folded v;
              dest = folded w;
              sport = local_port % 2 ^ 16;
              dport = rem_port % 2 ^ 16;
            })
            l)
unfolding find_bandwidth
find_bandwidth-folded w v rem_port local_port l hw hv =
    rw (find_rounds-folded v w hv hw) (data_of-amount_of _)

-- No counter is found for a connection that was counted, once for d bytes and as the only one, if its
-- local address as a number is above 1114095: findBandwidth looks up another flow and returns 0.
pub find_bandwidth-add :
    (f : Flow) (d : ℕ)
    → f.source < 2 ^ 32
    → f.dest < 2 ^ 32
    → 1114095 < f.source
    → find_bandwidth (hex_word f.dest) (hex_word f.source) f.dport f.sport (add_bandwidth f d none)
      ≡ 0
find_bandwidth-add f d hs hd big =
    find_bandwidth-folded f.dest f.source f.dport f.sport (add_bandwidth f d none) hd hs
    ∙ rw (lookup-add f _ d none) (rw other (unfold lookup_bandwidth in refl))
  where
    other :
        same_flow f (record {
          source = folded f.source;
          dest = folded f.dest;
          sport = f.sport % 2 ^ 16;
          dport = f.dport % 2 ^ 16;
        })
        ≡ false
    other = ground (
      arith,
      same_flow_iff f (record {
        source = folded f.source;
        dest = folded f.dest;
        sport = f.sport % 2 ^ 16;
        dport = f.dport % 2 ^ 16;
      }),
    )
