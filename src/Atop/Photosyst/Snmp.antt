-- ===== src/Atop/Photosyst/Snmp.antt =====
-- /proc/net/snmp and /proc/net/snmp6 in photosyst of Qt/FakeAtop/photosyst.c.
pub mod Table
pub mod Order
use practice.Base.{
  ℕ, zero, suc, ◌+◌, Bool, true, false, ◌==◌, leb, ltb, if◌then◌else◌, List, [], ◌∷◌, ◌++◌, get_or,
  set, take, drop, replicate, length,
}
use practice.Base.Text.{Bytes, codes, same_text}
use practice.Atop.Sstat.{Netstat}
use practice.Atop.Photosyst.Scan.{Scanned, scan_line}
use practice.Atop.Photosyst.Lines.{Vars, each_lines}

unfoldable pub snmp_line : Scanned → Netstat → Netstat
snmp_line s net =
    if same_text (codes "Ip:") s.nam
    then record net { ipv4 = take 19 s.cnts }
    else if same_text (codes "Icmp:") s.nam
    then record net { icmpv4 = take 26 s.cnts }
    else if same_text (codes "Tcp:") s.nam
    then record net { tcp = take 14 s.cnts }
    else if same_text (codes "Udp:") s.nam
    then record net { udpv4 = take 4 s.cnts }
    else net

unfoldable pub read_snmp : List Bytes → Vars Netstat → Vars Netstat
read_snmp = each_lines 40 snmp_line

-- The names of v6tab, whose values are the members of ipv6_tmp, icmpv6_tmp and udpv6_tmp in this order.
abbrev pub v6tab : List Bytes
v6tab =
    codes "Ip6InReceives"
    ∷ codes "Ip6InHdrErrors"
    ∷ codes "Ip6InTooBigErrors"
    ∷ codes "Ip6InNoRoutes"
    ∷ codes "Ip6InAddrErrors"
    ∷ codes "Ip6InUnknownProtos"
    ∷ codes "Ip6InTruncatedPkts"
    ∷ codes "Ip6InDiscards"
    ∷ codes "Ip6InDelivers"
    ∷ codes "Ip6OutForwDatagrams"
    ∷ codes "Ip6OutRequests"
    ∷ codes "Ip6OutDiscards"
    ∷ codes "Ip6OutNoRoutes"
    ∷ codes "Ip6ReasmTimeout"
    ∷ codes "Ip6ReasmReqds"
    ∷ codes "Ip6ReasmOKs"
    ∷ codes "Ip6ReasmFails"
    ∷ codes "Ip6FragOKs"
    ∷ codes "Ip6FragFails"
    ∷ codes "Ip6FragCreates"
    ∷ codes "Ip6InMcastPkts"
    ∷ codes "Ip6OutMcastPkts"
    ∷ codes "Icmp6InMsgs"
    ∷ codes "Icmp6InErrors"
    ∷ codes "Icmp6InDestUnreachs"
    ∷ codes "Icmp6InPktTooBigs"
    ∷ codes "Icmp6InTimeExcds"
    ∷ codes "Icmp6InParmProblems"
    ∷ codes "Icmp6InEchos"
    ∷ codes "Icmp6InEchoReplies"
    ∷ codes "Icmp6InGroupMembQueries"
    ∷ codes "Icmp6InGroupMembResponses"
    ∷ codes "Icmp6InGroupMembReductions"
    ∷ codes "Icmp6InRouterSolicits"
    ∷ codes "Icmp6InRouterAdvertisements"
    ∷ codes "Icmp6InNeighborSolicits"
    ∷ codes "Icmp6InNeighborAdvertisements"
    ∷ codes "Icmp6InRedirects"
    ∷ codes "Icmp6OutMsgs"
    ∷ codes "Icmp6OutDestUnreachs"
    ∷ codes "Icmp6OutPktTooBigs"
    ∷ codes "Icmp6OutTimeExcds"
    ∷ codes "Icmp6OutParmProblems"
    ∷ codes "Icmp6OutEchoReplies"
    ∷ codes "Icmp6OutRouterSolicits"
    ∷ codes "Icmp6OutNeighborSolicits"
    ∷ codes "Icmp6OutNeighborAdvertisements"
    ∷ codes "Icmp6OutRedirects"
    ∷ codes "Icmp6OutGroupMembResponses"
    ∷ codes "Icmp6OutGroupMembReductions"
    ∷ codes "Udp6InDatagrams"
    ∷ codes "Udp6NoPorts"
    ∷ codes "Udp6InErrors"
    ∷ codes "Udp6OutDatagrams"
    ∷ []

-- `for (cur=0; cur < v6tab_entries; cur++) if (strcmp(v6tab[cur].nam, nam) == 0) break;`, from cur on.
unfoldable pub seek_name : Bytes → ℕ → List Bytes → ℕ
seek_name nam cur [] = cur
seek_name nam cur (n ∷ names) =
    let rest = seek_name nam (suc cur) names in if same_text n nam then cur else rest

-- The values of the table, and cur.
pub record V6State : Type 0 where
  pub vals : List ℕ
  pub cur : ℕ

unfoldable pub next_cur : List Bytes → ℕ → ℕ
next_cur tab cur = if leb (length tab) (suc cur) then 0 else suc cur

-- A line with a name and a number; a name that the table does not hold is passed over. A write to the
-- index behind the table changes nothing.
unfoldable pub v6_count : List Bytes → Bytes → ℕ → V6State → V6State
v6_count tab nam countval v =
    let k = if same_text (get_or tab v.cur []) nam then v.cur else seek_name nam 0 tab in
    record { vals = set v.vals k countval; cur = next_cur tab k }

-- A line of the file; countval is cnts[0] here.
unfoldable pub snmp6_line : Scanned → V6State → V6State
snmp6_line s v = v6_count v6tab s.nam (get_or s.cnts 0 0) v

unfoldable pub read_snmp6 : List Bytes → Vars Netstat → Vars Netstat
read_snmp6 lines v =
    let start : V6State = record { vals = replicate (length v6tab) 0; cur = 0 } in
    let r = each_lines 1 snmp6_line lines (record { nam = v.nam; cnts = 0 ∷ []; si = start }) in
    let vals = r.si.vals in
    let net = v.si in
    record v {
      nam = r.nam;
      si = record net {
        ipv6 = take 22 vals;
        icmpv6 = take 28 (drop 22 vals);
        udpv6 = take 4 (drop 50 vals);
      };
    }
