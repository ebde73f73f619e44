-- ===== src/Capture/Accounting.antt =====
-- From the first packet to the counters: pcap_loop over a whole capture.
use mathlib.Core.List.{map}
use practice.Base.{
  ℕ, ◌+◌, ◌%◌, ◌<◌, ◌≡◌, refl, none, some, List, [], ◌∷◌, arith, ◌∙◌, if◌then◌else◌, length,
}
use practice.Capture.Table.{
  u32_mod, Flow, ListBandwidth, same_flow, lookup_bandwidth, add_bandwidth,
}
use practice.Capture.Table.Laws.{amount_of, same_flow_iff}
use practice.Capture.Table.Totals.{amount-add, IsUnique, empty-IsUnique, add-IsUnique}
use practice.Capture.Packet.{pcap_loop}
use practice.Capture.Packet.Frame.{Segment, IsSegment, frame}
use practice.Capture.Packet.Decode.{got_packet-frame}

abbrev pub AllSegments : List Segment → Type 0
AllSegments [] = Unit
AllSegments (s ∷ rest) = IsSegment s × AllSegments rest

-- The payload bytes that a capture holds for a flow.
unfoldable pub payload_of : Flow → List Segment → ℕ
payload_of k [] = 0
payload_of k (s ∷ rest) = (if same_flow s.flow k then length s.payload else 0) + payload_of k rest

-- The counter of a flow is a 32-bit number.
abbrev IsBounded : ListBandwidth → Type 0
IsBounded l = (k : Flow) → amount_of (lookup_bandwidth k l) < u32_mod

-- The counter table that results, and what is known of it.
record Counted (segments : List Segment) (l : ListBandwidth) : Type 0 where
  after : ListBandwidth
  runs : pcap_loop (map frame segments) l ≡ some after
  unique : IsUnique after
  counts :
      (k : Flow)
      → amount_of (lookup_bandwidth k after)
        ≡ (amount_of (lookup_bandwidth k l) + payload_of k segments) % u32_mod

small : (s : Segment) → IsSegment s → length s.payload < u32_mod
small s h = omega arith

pcap_loop-Counted :
    (segments : List Segment) (l : ListBandwidth)
    → AllSegments segments
    → IsUnique l
    → IsBounded l
    → Counted segments l
unfolding pcap_loop payload_of
pcap_loop-Counted [] l ok u b = record {
  after = l;
  runs = refl;
  unique = u;
  counts = λ k. omega (arith, b k);
}
pcap_loop-Counted (s ∷ rest) l (ok, oks) u b =
    let d = length s.payload in
    let fits : d < u32_mod = small s ok in
    let l' = add_bandwidth s.flow d l in
    let tail =
      pcap_loop-Counted rest l' oks (add-IsUnique s.flow d l u)
        (λ k. ground (arith, amount-add s.flow k d l fits, b k)) in
    record {
      after = tail.after;
      runs = rw (got_packet-frame s ok l) tail.runs;
      unique = tail.unique;
      counts =
          λ k. ground (arith, tail.counts k, amount-add s.flow k d l fits, same_flow_iff s.flow k);
    }

empty-IsBounded : IsBounded none
unfolding lookup_bandwidth
empty-IsBounded k = omega arith

-- A capture of well-formed frames of unfragmented TCP segments and UDP datagrams over IPv4 is
-- processed to its end without a fault, and leaves at most one counter for each flow, whose value
-- is the number of payload bytes of that flow in the capture, modulo 2^32 (0 where the lookup finds
-- no counter).
pub pcap_loop-payload_of :
    (segments : List Segment)
    → AllSegments segments
    → (l : ListBandwidth) × (pcap_loop (map frame segments) none ≡ some l)
      × IsUnique l
      × ((k : Flow) → amount_of (lookup_bandwidth k l) ≡ payload_of k segments % u32_mod)
pcap_loop-payload_of segments oks =
    let c = pcap_loop-Counted segments none oks empty-IsUnique empty-IsBounded in
    (c.after, c.runs, c.unique, λ k. c.counts k ∙ from_empty k)
  where
    from_empty :
        (k : Flow)
        → (amount_of (lookup_bandwidth k none) + payload_of k segments) % u32_mod
          ≡ payload_of k segments % u32_mod
    from_empty k = unfold lookup_bandwidth in omega arith
