-- ===== src/Atop/System/Network.antt =====
-- The structures of network counters in deviatsyst and totalsyst of Qt/FakeAtop/deviate.c.
use practice.Base.{ℕ, List, get_or, set}
use practice.Atop.Sstat.{Netstat}
use practice.Atop.System.Count.{table_deviation, table_total}

-- `dev->net.ipv4.Forwarding = cur->net.ipv4.Forwarding`: a member that is no frequency.
abbrev pub correct : ℕ → List ℕ → List ℕ → List ℕ
correct i cur dev = set dev i (get_or cur i 0)

-- Forwarding and DefaultTTL.
unfoldable pub ipv4_corrected : List ℕ → List ℕ → List ℕ
ipv4_corrected cur dev = correct 1 cur (correct 0 cur dev)

-- RtoAlgorithm, RtoMin, RtoMax, MaxConn and CurrEstab.
unfoldable pub tcp_corrected : List ℕ → List ℕ → List ℕ
tcp_corrected cur dev =
    correct 8 cur (correct 3 cur (correct 2 cur (correct 1 cur (correct 0 cur dev))))

unfoldable pub net_deviation : Netstat → Netstat → Netstat
net_deviation cur pre = record {
  ipv4 = ipv4_corrected cur.ipv4 (table_deviation 19 cur.ipv4 pre.ipv4);
  icmpv4 = table_deviation 26 cur.icmpv4 pre.icmpv4;
  udpv4 = table_deviation 4 cur.udpv4 pre.udpv4;
  ipv6 = table_deviation 22 cur.ipv6 pre.ipv6;
  icmpv6 = table_deviation 28 cur.icmpv6 pre.icmpv6;
  udpv6 = table_deviation 4 cur.udpv6 pre.udpv6;
  tcp = tcp_corrected cur.tcp (table_deviation 14 cur.tcp pre.tcp);
}

unfoldable pub net_total : Netstat → Netstat → Netstat
net_total new tot = record {
  ipv4 = ipv4_corrected new.ipv4 (table_total 19 tot.ipv4 new.ipv4);
  icmpv4 = table_total 26 tot.icmpv4 new.icmpv4;
  udpv4 = table_total 4 tot.udpv4 new.udpv4;
  ipv6 = table_total 22 tot.ipv6 new.ipv6;
  icmpv6 = table_total 28 tot.icmpv6 new.icmpv6;
  udpv6 = table_total 4 tot.udpv6 new.udpv6;
  tcp = tcp_corrected new.tcp (table_total 14 tot.tcp new.tcp);
}
