-- ===== src/Tests/Capture.antt =====
-- Two flows, a capture with three packets, and the counters that it leaves.
use mathlib.Core.List.{map}
use practice.Base.{◌%◌, ◌≡◌, refl, true, false, none, some, List, [], ◌∷◌, arith, length, replicate}
use practice.Base.Text.{codes}
use practice.Capture.Table.{
  u32_mod, Flow, ListBandwidth, same_flow, lookup_bandwidth, bump, add_bandwidth,
}
use practice.Capture.Table.Laws.{amount_of}
use practice.Capture.Table.Totals.{IsUnique}
use practice.Capture.Packet.{
  got_packet, pcap_loop, protocol_packet, tcp_packet, udp_packet, count_flow,
}
use practice.Capture.Packet.Frame.{Segment, IsSegment, frame}
use practice.Capture.Packet.Decode.{got_packet-frame}
use practice.Capture.Accounting.{payload_of, pcap_loop-payload_of}

abbrev web : Flow
web = record { source = 0x0100_007f; dest = 0x0500_a8c0; sport = 80; dport = 40000 }

abbrev dns : Flow
dns = record { source = 0x0100_007f; dest = 0x0100_a8c0; sport = 53; dport = 1234 }

abbrev hello : Segment
hello = record {
  is_tcp = true;
  ethernet = replicate 14 0;
  service = 0;
  id = 0x3039;
  dont_fragment = true;
  ttl = 64;
  ip_checksum = 0x1c46;
  flow = web;
  ip_options = 1 ∷ 1 ∷ 1 ∷ 1 ∷ [];
  ip_option_words = 1;
  seq = 0x1234_5678;
  ack = 0x9abc_def0;
  reserved = 0;
  flags = 0x10;
  window = 502;
  checksum = 0xb1e6;
  urgent = 0;
  tcp_options = 1 ∷ 1 ∷ 1 ∷ 1 ∷ 1 ∷ 1 ∷ 1 ∷ 1 ∷ [];
  tcp_option_words = 2;
  payload = codes "hello";
}

abbrev query : Segment
query = record {
  is_tcp = false;
  ethernet = replicate 14 0;
  service = 16;
  id = 0x3039;
  dont_fragment = false;
  ttl = 64;
  ip_checksum = 0x1c46;
  flow = dns;
  ip_options = [];
  ip_option_words = 0;
  seq = 0;
  ack = 0;
  reserved = 0;
  flags = 0;
  window = 0;
  checksum = 0xb1e6;
  urgent = 0;
  tcp_options = [];
  tcp_option_words = 0;
  payload = codes "who?";
}

hello-IsSegment : IsSegment hello
hello-IsSegment = record {
  ethernet_length = refl;
  service_fits = omega arith;
  id_fits = omega arith;
  ttl_fits = omega arith;
  ip_checksum_fits = omega arith;
  source_fits = omega arith;
  dest_fits = omega arith;
  sport_fits = omega arith;
  dport_fits = omega arith;
  ip_options_length = refl;
  ip_options_fit = omega arith;
  seq_fits = omega arith;
  ack_fits = omega arith;
  reserved_fits = omega arith;
  flags_fit = omega arith;
  window_fits = omega arith;
  checksum_fits = omega arith;
  urgent_fits = omega arith;
  tcp_options_length = refl;
  tcp_options_fit = omega arith;
  total_fits = omega arith;
}

query-IsSegment : IsSegment query
query-IsSegment = record {
  ethernet_length = refl;
  service_fits = omega arith;
  id_fits = omega arith;
  ttl_fits = omega arith;
  ip_checksum_fits = omega arith;
  source_fits = omega arith;
  dest_fits = omega arith;
  sport_fits = omega arith;
  dport_fits = omega arith;
  ip_options_length = refl;
  ip_options_fit = omega arith;
  seq_fits = omega arith;
  ack_fits = omega arith;
  reserved_fits = omega arith;
  flags_fit = omega arith;
  window_fits = omega arith;
  checksum_fits = omega arith;
  urgent_fits = omega arith;
  tcp_options_length = refl;
  tcp_options_fit = omega arith;
  total_fits = omega arith;
}

abbrev capture : List Segment
capture = hello ∷ query ∷ hello ∷ []

payload_of-capture : payload_of web capture ≡ 10
unfolding payload_of same_flow
payload_of-capture = refl

capture_counts :
    pcap_loop (map frame capture) none
    ≡ some (some ((record { flow = dns; amount = 4 }) ∷ (record { flow = web; amount = 10 }) ∷ []))
unfolding pcap_loop frame protocol_packet tcp_packet udp_packet count_flow add_bandwidth bump
    lookup_bandwidth same_flow
capture_counts = refl

pcap_loop-payload_of_example :
    (l : ListBandwidth) × (pcap_loop (map frame capture) none ≡ some l)
    × IsUnique l
    × ((k : Flow) → amount_of (lookup_bandwidth k l) ≡ payload_of k capture % u32_mod)
pcap_loop-payload_of_example =
    pcap_loop-payload_of capture (hello-IsSegment, (query-IsSegment, (hello-IsSegment, tt)))

abbrev before : ListBandwidth
before = some ((record { flow = dns; amount = 7 }) ∷ [])

got_packet-frame_example :
    got_packet (frame hello) before ≡ some (add_bandwidth web (length (codes "hello")) before)
got_packet-frame_example = got_packet-frame hello hello-IsSegment before
