-- ===== src/Capture/Packet.antt =====
-- got_packet of Qt/ZMonitor/PacketCapture/packetcap.c over the captured bytes. The casts of the
-- packet to header structs are reads at the structs' offsets on a little-endian machine; none is a
-- read behind the last captured byte, which the C code does not guard (header->caplen is not used).
-- printBandwidth only prints, and is left out.
pub mod Frame
pub mod Decode
use practice.Base.{
  ℕ, ◌+◌, ◌-◌, ◌*◌, ◌/◌, ◌%◌, Option, none, some, List, [], ◌∷◌, ◌==◌, ltb, if◌then◌else◌, ◌>>=◌,
  get_elem?,
}
use practice.Base.Text.{Bytes}
use practice.Capture.Table.{u32_mod, Flow, ListBandwidth, add_bandwidth}

abbrev pub size_ethernet : ℕ
size_ethernet = 14

abbrev pub ipproto_tcp : ℕ
ipproto_tcp = 6

abbrev pub ipproto_udp : ℕ
ipproto_udp = 17

-- A 16-bit field as the host reads it, and through ntohs.
pub read_u16 : Bytes → ℕ → Option ℕ
read_u16 p i = do a ← get_elem? p i; b ← get_elem? p (i + 1); some (a + 256 * b)

pub read_ntohs : Bytes → ℕ → Option ℕ
read_ntohs p i = do a ← get_elem? p i; b ← get_elem? p (i + 1); some (256 * a + b)

pub read_u32 : Bytes → ℕ → Option ℕ
unfolding read_u16
read_u32 p i = do a ← read_u16 p i; b ← read_u16 p (i + 2); some (a + 65536 * b)

-- IP_HL(ip) * 4 and TH_OFF(tcp) * 4.
pub ip_hl_bytes : ℕ → ℕ
ip_hl_bytes vhl = vhl % 16 * 4

pub th_off_bytes : ℕ → ℕ
th_off_bytes offx2 = offx2 / 16 % 16 * 4

-- The payload size is an int; addBandwidth takes it as an uint32_t.
pub payload_size : ℕ → ℕ → ℕ
payload_size ip_len headers = (ip_len + u32_mod - headers) % u32_mod

unfoldable pub count_flow : Bytes → ℕ → ℕ → ListBandwidth → Option ListBandwidth
unfolding read_u32 read_u16 read_ntohs payload_size
count_flow p transport headers l = do
  ip_len ← read_ntohs p (size_ethernet + 2)
  source ← read_u32 p (size_ethernet + 12)
  dest ← read_u32 p (size_ethernet + 16)
  sport ← read_u16 p transport
  dport ← read_u16 p (transport + 2)
  some (
      add_bandwidth (record { source = source; dest = dest; sport = sport; dport = dport })
        (payload_size ip_len headers) l)

unfoldable pub tcp_packet : Bytes → ℕ → ListBandwidth → Option ListBandwidth
unfolding th_off_bytes
tcp_packet p size_ip l = do
  offx2 ← get_elem? p (size_ethernet + size_ip + 12)
  if ltb (th_off_bytes offx2) 20
      then some l
      else count_flow p (size_ethernet + size_ip) (size_ip + th_off_bytes offx2) l

unfoldable pub udp_packet : Bytes → ℕ → ListBandwidth → Option ListBandwidth
udp_packet p size_ip l = count_flow p (size_ethernet + size_ip) (size_ip + 8) l

-- The switch on ip->ip_p: ICMP, IP and unknown protocols are not counted.
unfoldable pub protocol_packet : Bytes → ℕ → ListBandwidth → Option ListBandwidth
protocol_packet p size_ip l = do
  proto ← get_elem? p (size_ethernet + 9)
  if proto == ipproto_tcp
      then tcp_packet p size_ip l
      else if proto == ipproto_udp
      then udp_packet p size_ip l
      else some l

unfoldable pub got_packet : Bytes → ListBandwidth → Option ListBandwidth
unfolding ip_hl_bytes
got_packet p l = do
  vhl ← get_elem? p size_ethernet
  if ltb (ip_hl_bytes vhl) 20 then some l else protocol_packet p (ip_hl_bytes vhl) l

-- pcap_loop calls got_packet for each packet in turn.
unfoldable pub pcap_loop : List Bytes → ListBandwidth → Option ListBandwidth
unfolding got_packet
pcap_loop [] l = some l
pcap_loop (p ∷ rest) l = got_packet p l >>= pcap_loop rest
