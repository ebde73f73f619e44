-- ===== src/Capture/Packet/Decode.antt =====
-- got_packet on well-formed frames.
use practice.Base.{
  ℕ, suc, ap, ◌∙◌, ◌+◌, ◌*◌, ◌≡◌, refl, true, false, some, ◌++◌, arith, ◌>>=◌, length, get_elem?,
  get_elem?-append, le→ltb, if◌then◌else◌,
}
use practice.Base.Text.{Bytes}
use practice.Capture.Table.{ListBandwidth, add_bandwidth}
use practice.Capture.Packet.{
  size_ethernet, ipproto_tcp, ipproto_udp, read_u16, read_ntohs, read_u32, ip_hl_bytes,
  th_off_bytes, payload_size, count_flow, tcp_packet, udp_packet, protocol_packet, got_packet,
}
use practice.Capture.Packet.Frame.{
  Segment, IsSegment, transport_header, total_length, ip_header, frame,
}

module _ (s : Segment) (ok : IsSegment s) where
  behind : Bytes
  behind = s.ip_options ++ (transport_header s ++ s.payload)

  -- A byte of the fixed IP header.
  ip_byte : (i j : ℕ) → j ≡ 14 + i → get_elem? (frame s) j ≡ get_elem? (ip_header s behind) i
  unfolding frame behind
  ip_byte i j e = get_elem?-append s.ethernet _ 14 i j ok.ethernet_length e

  -- A byte of the transport header, behind the IP options.
  transport_byte :
      (i j : ℕ)
      → j ≡ 34 + 4 * s.ip_option_words + i
      → get_elem? (frame s) j ≡ get_elem? (transport_header s ++ s.payload) i
  unfolding behind
  transport_byte i j e =
      let k = 4 * s.ip_option_words + i in
      let e0 : j
          ≡ 14
            + suc (
                suc (
                  suc (
                    suc (
                      suc (
                        suc (
                          suc (
                            suc (
                              suc (
                                suc (
                                  suc (
                                    suc
                                      (suc (suc (suc (suc (suc (suc (suc (suc k))))))))))))))))))) =
        omega arith in
      ip_byte _ j e0
      ∙ get_elem?-append s.ip_options _ (4 * s.ip_option_words) i k ok.ip_options_length refl

  read_source : read_u32 (frame s) 26 ≡ some s.flow.source
  unfolding read_u32 read_u16
  read_source =
      rw (ip_byte 12 26 refl, ip_byte 13 27 refl, ip_byte 14 28 refl, ip_byte 15 29 refl)
        (ap some (omega arith))

  read_dest : read_u32 (frame s) 30 ≡ some s.flow.dest
  unfolding read_u32 read_u16
  read_dest =
      rw (ip_byte 16 30 refl, ip_byte 17 31 refl, ip_byte 18 32 refl, ip_byte 19 33 refl)
        (ap some (omega arith))

  read_total : read_ntohs (frame s) 16 ≡ some (total_length s)
  unfolding read_ntohs
  read_total = rw (ip_byte 2 16 refl, ip_byte 3 17 refl) (ap some (omega arith))

  -- The offset of the transport header, as got_packet adds it up.
  abbrev start : ℕ
  start = size_ethernet + (20 + 4 * s.ip_option_words)

  at_transport :
      (i : ℕ) → get_elem? (frame s) (start + i) ≡ get_elem? (transport_header s ++ s.payload) i
  at_transport i = transport_byte i (start + i) (omega arith)

  at_start : get_elem? (frame s) start ≡ get_elem? (transport_header s ++ s.payload) 0
  at_start = transport_byte 0 start (omega arith)

  read_sport : read_u16 (frame s) start ≡ some s.flow.sport
  unfolding read_u16
  read_sport = rw (at_start, at_transport 1) (ground arith)

  read_dport : read_u16 (frame s) (start + 2) ≡ some s.flow.dport
  unfolding read_u16
  read_dport =
      let next : get_elem? (frame s) (start + 2 + 1)
          ≡ get_elem? (transport_header s ++ s.payload) 3 =
        transport_byte 3 (start + 2 + 1) (omega arith) in
      rw (at_transport 2, next) (ground arith)

  count_flow-frame :
      (headers : ℕ) (l : ListBandwidth)
      → headers + length s.payload ≡ total_length s
      → count_flow (frame s) start headers l ≡ some (add_bandwidth s.flow (length s.payload) l)
  unfolding count_flow
  count_flow-frame headers l e =
      rw (read_total, read_source, read_dest, read_sport, read_dport)
        (ap (λ n. some (add_bandwidth s.flow n l)) size)
    where
      size : payload_size (total_length s) headers ≡ length s.payload
      size = unfold payload_size in omega arith

  read_vhl : get_elem? (frame s) size_ethernet ≡ some (64 + 5 + s.ip_option_words)
  read_vhl = ip_byte 0 14 refl

  read_proto :
      get_elem? (frame s) (size_ethernet + 9) ≡ some (if s.is_tcp then ipproto_tcp else ipproto_udp)
  read_proto = ip_byte 9 23 refl

  ip_size : ip_hl_bytes (64 + 5 + s.ip_option_words) ≡ 20 + 4 * s.ip_option_words
  unfolding ip_hl_bytes
  ip_size = omega arith

  tcp_size : th_off_bytes ((5 + s.tcp_option_words) * 16 + s.reserved) ≡ 20 + 4 * s.tcp_option_words
  unfolding th_off_bytes
  tcp_size = omega arith

  tcp_packet-frame :
      (l : ListBandwidth)
      → s.is_tcp ≡ true
      → tcp_packet (frame s) (20 + 4 * s.ip_option_words) l
        ≡ some (add_bandwidth s.flow (length s.payload) l)
  unfolding tcp_packet
  tcp_packet-frame l e =
      let off : get_elem? (frame s) (start + 12)
          ≡ some ((5 + s.tcp_option_words) * 16 + s.reserved) =
        at_transport 12 ∙ ground arith in
      rw (off, tcp_size, ◌>>=◌, le→ltb (20 + 4 * s.tcp_option_words) 20 (omega arith))
        (count_flow-frame _ l (ground arith))

  udp_packet-frame :
      (l : ListBandwidth)
      → s.is_tcp ≡ false
      → udp_packet (frame s) (20 + 4 * s.ip_option_words) l
        ≡ some (add_bandwidth s.flow (length s.payload) l)
  unfolding udp_packet
  udp_packet-frame l e = count_flow-frame _ l (ground arith)

  protocol_packet-frame :
      (l : ListBandwidth)
      → protocol_packet (frame s) (20 + 4 * s.ip_option_words) l
        ≡ some (add_bandwidth s.flow (length s.payload) l)
  unfolding protocol_packet
  protocol_packet-frame l = rw read_proto (ground (arith, tcp_packet-frame l, udp_packet-frame l))

  -- A well-formed frame of an unfragmented TCP segment or UDP datagram over IPv4 is read without a
  -- fault, whatever options its headers carry and whatever stands in the fields that do not give
  -- lengths, and adds to the counter of its flow exactly the length of its payload.
  pub got_packet-frame :
      (l : ListBandwidth)
      → got_packet (frame s) l ≡ some (add_bandwidth s.flow (length s.payload) l)
  unfolding got_packet
  got_packet-frame l =
      rw (read_vhl, ip_size, ◌>>=◌, le→ltb (20 + 4 * s.ip_option_words) 20 (omega arith))
        (protocol_packet-frame l)
