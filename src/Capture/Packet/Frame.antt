-- ===== src/Capture/Packet/Frame.antt =====
-- Ethernet frames that carry one TCP segment or UDP datagram over IPv4, as RFC 791, 793 and 768 lay
-- them out: an independent description of what got_packet reads. The datagram is not fragmented; all
-- other fields of the headers are arbitrary, the checksums too.
use practice.Base.{
  ℕ, ◌+◌, ◌*◌, ◌/◌, ◌%◌, ◌^◌, ◌≤◌, ◌<◌, ◌≡◌, Bool, [], ◌∷◌, ◌++◌, if◌then◌else◌, length,
}
use practice.Base.Text.{Bytes}
use practice.Capture.Table.{Flow}
use practice.Capture.Packet.{size_ethernet, ipproto_tcp, ipproto_udp}

-- The fields of the TCP header that a UDP header does not have are not used in a UDP datagram.
pub record Segment : Type 0 where
  pub is_tcp : Bool
  pub ethernet : Bytes
  pub service : ℕ
  pub id : ℕ
  pub dont_fragment : Bool
  pub ttl : ℕ
  pub ip_checksum : ℕ
  pub flow : Flow
  pub ip_options : Bytes
  pub ip_option_words : ℕ
  pub seq : ℕ
  pub ack : ℕ
  pub reserved : ℕ
  pub flags : ℕ
  pub window : ℕ
  pub checksum : ℕ
  pub urgent : ℕ
  pub tcp_options : Bytes
  pub tcp_option_words : ℕ
  pub payload : Bytes

-- Header lengths count words of four bytes; the fields of the flow hold the bytes in wire order.
pub record IsSegment (s : Segment) : Type 0 where
  pub ethernet_length : length s.ethernet ≡ size_ethernet
  pub service_fits : s.service < 2 ^ 8
  pub id_fits : s.id < 2 ^ 16
  pub ttl_fits : s.ttl < 2 ^ 8
  pub ip_checksum_fits : s.ip_checksum < 2 ^ 16
  pub source_fits : s.flow.source < 2 ^ 32
  pub dest_fits : s.flow.dest < 2 ^ 32
  pub sport_fits : s.flow.sport < 2 ^ 16
  pub dport_fits : s.flow.dport < 2 ^ 16
  pub ip_options_length : length s.ip_options ≡ 4 * s.ip_option_words
  pub ip_options_fit : s.ip_option_words ≤ 10
  pub seq_fits : s.seq < 2 ^ 32
  pub ack_fits : s.ack < 2 ^ 32
  pub reserved_fits : s.reserved < 2 ^ 4
  pub flags_fit : s.flags < 2 ^ 8
  pub window_fits : s.window < 2 ^ 16
  pub checksum_fits : s.checksum < 2 ^ 16
  pub urgent_fits : s.urgent < 2 ^ 16
  pub tcp_options_length : length s.tcp_options ≡ 4 * s.tcp_option_words
  pub tcp_options_fit : s.tcp_option_words ≤ 10
  pub total_fits : length s.payload + 120 < 2 ^ 16

-- A number in network order.
abbrev pub net16 : ℕ → Bytes → Bytes
net16 x rest = (x / 256) ∷ (x % 256) ∷ rest

abbrev pub net32 : ℕ → Bytes → Bytes
net32 x rest = (x / 16777216) ∷ (x / 65536 % 256) ∷ (x / 256 % 256) ∷ (x % 256) ∷ rest

-- The fields of a flow, of which the host reads the first byte as the lowest.
abbrev pub wire16 : ℕ → Bytes → Bytes
wire16 x rest = (x % 256) ∷ (x / 256) ∷ rest

abbrev pub wire32 : ℕ → Bytes → Bytes
wire32 x rest = (x % 256) ∷ (x / 256 % 256) ∷ (x / 65536 % 256) ∷ (x / 16777216) ∷ rest

abbrev pub tcp_tail : Segment → Bytes
tcp_tail s = net32 s.seq (
    net32 s.ack (
      ((5 + s.tcp_option_words) * 16 + s.reserved)
      ∷ s.flags
      ∷ net16 s.window (net16 s.checksum (net16 s.urgent s.tcp_options))))

abbrev pub udp_tail : Segment → Bytes
udp_tail s = net16 (8 + length s.payload) (net16 s.checksum [])

abbrev pub transport_header : Segment → Bytes
transport_header s =
    wire16 s.flow.sport (wire16 s.flow.dport (if s.is_tcp then tcp_tail s else udp_tail s))

abbrev pub transport_length : Segment → ℕ
transport_length s = if s.is_tcp then 20 + 4 * s.tcp_option_words else 8

abbrev pub total_length : Segment → ℕ
total_length s = 20 + 4 * s.ip_option_words + transport_length s + length s.payload

abbrev pub ip_header : Segment → Bytes → Bytes
ip_header s rest =
    (64 + 5 + s.ip_option_words)
    ∷ s.service
    ∷ net16 (total_length s) (
        net16 s.id (
          (if s.dont_fragment then 64 else 0)
          ∷ 0
          ∷ s.ttl
          ∷ (if s.is_tcp then ipproto_tcp else ipproto_udp)
          ∷ net16 s.ip_checksum (wire32 s.flow.source (wire32 s.flow.dest rest))))

unfoldable pub frame : Segment → Bytes
frame s = s.ethernet ++ ip_header s (s.ip_options ++ (transport_header s ++ s.payload))
