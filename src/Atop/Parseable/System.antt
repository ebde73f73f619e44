-- ===== src/Atop/Parseable/System.antt =====
-- The lines of Qt/FakeAtop/parseable.c on the whole system. The counters are not negative here, so that
-- their sums and quotients are those of natural numbers.
use practice.Base.{
  ℕ, zero, suc, ◌+◌, ◌*◌, ◌/◌, ◌&&◌, not, if◌then◌else◌, ◌==◌, List, [], ◌∷◌, ◌++◌, get_or,
}
use practice.Base.Text.{Bytes, codes}
use practice.Base.Decimal.{decimal}
use practice.Atop.Sstat.{
  Percpu, Cpustat, Memstat, Netstat, Perdsk, Perintf, Pernfsmount, NfsServer, NfsClient, Nfsstat,
  Sstat,
}
use practice.Atop.Parseable.{lld, id_text, columns, numbers, counter_line, named_line, each_text}

-- The clock frequency and its percentage.
unfoldable pub calc_freqscale : ℕ → ℕ → ℕ → ℕ × ℕ
calc_freqscale maxfreq cnt ticks =
    if not (maxfreq == 0) && not (ticks == 0)
    then (cnt / ticks, 100 * (cnt / ticks) / maxfreq)
    else if not (maxfreq == 0)
    then (cnt, 100 * cnt / maxfreq)
    else if not (cnt == 0)
    then (cnt, 100)
    else (0, 100)

unfoldable pub cpu_columns : Percpu → ℕ × ℕ → ℕ → ℕ → Bytes
cpu_columns p freq instr cycle = columns (
    numbers
      (p.stime ∷ p.utime ∷ p.ntime ∷ p.itime ∷ p.wtime ∷ p.irq ∷ p.softirq ∷ p.steal ∷ p.guest
        ∷ freq.0 ∷ [])
      (id_text freq.1 ∷ lld instr ∷ lld cycle ∷ []))

unfoldable pub sum_cnt : ℕ → List Percpu → ℕ
sum_cnt zero ps = 0
sum_cnt (suc n) [] = 0
sum_cnt (suc n) (p ∷ ps) = p.freqcnt.cnt + sum_cnt n ps

unfoldable pub sum_ticks : ℕ → List Percpu → ℕ
sum_ticks zero ps = 0
sum_ticks (suc n) [] = 0
sum_ticks (suc n) (p ∷ ps) = p.freqcnt.ticks + sum_ticks n ps

-- The maximum of the first entry.
unfoldable pub first_maxfreq : List Percpu → ℕ
first_maxfreq [] = 0
first_maxfreq (p ∷ ps) = p.freqcnt.maxfreq

-- The counter of instructions is 1 where there is none.
unfoldable pub print_cpu_total : Bytes → ℕ → Cpustat → Bytes
print_cpu_total hp hertz s =
    let freq =
      calc_freqscale (first_maxfreq s.cpu) (sum_cnt s.nrcpu s.cpu) (sum_ticks s.nrcpu s.cpu) in
    let none_counted = s.all.instr == 1 in
    hp
    ++ b' ' ∷ decimal hertz
    ++ b' ' ∷ lld s.nrcpu
    ++ cpu_columns s.all freq (if none_counted then 0 else s.all.instr)
        (if none_counted then 0 else s.all.cycle)

unfoldable pub cpu_lines : Bytes → ℕ → ℕ → ℕ → ℕ → List Percpu → Bytes
cpu_lines hp hertz maxfreq i zero ps = []
cpu_lines hp hertz maxfreq i (suc n) [] = []
cpu_lines hp hertz maxfreq i (suc n) (p ∷ ps) =
    (hp
      ++ b' ' ∷ decimal hertz
      ++ b' ' ∷ id_text i
      ++ cpu_columns p (calc_freqscale maxfreq p.freqcnt.cnt p.freqcnt.ticks) p.instr p.cycle)
    ++ cpu_lines hp hertz maxfreq (suc i) n ps

unfoldable pub print_cpu : Bytes → ℕ → Cpustat → Bytes
print_cpu hp hertz s = cpu_lines hp hertz (first_maxfreq s.cpu) 0 s.nrcpu s.cpu

unfoldable pub print_mem : Bytes → ℕ → Memstat → Bytes
print_mem hp pagesize m = counter_line hp (
    pagesize ∷ m.physmem ∷ m.freemem ∷ m.cachemem ∷ m.buffermem ∷ m.slabmem ∷ m.cachedrt
    ∷ m.slabreclaim ∷ m.vmwballoon ∷ m.shmem ∷ m.shmrss ∷ m.shmswp ∷ m.hugepagesz ∷ m.tothugepage
    ∷ m.freehugepage ∷ [])

unfoldable pub print_swp : Bytes → ℕ → Memstat → Bytes
print_swp hp pagesize m =
    counter_line hp (pagesize ∷ m.totswap ∷ m.freeswap ∷ 0 ∷ m.committed ∷ m.commitlim ∷ [])

unfoldable pub print_pag : Bytes → ℕ → Memstat → Bytes
print_pag hp pagesize m =
    counter_line hp (pagesize ∷ m.pgscans ∷ m.allocstall ∷ 0 ∷ m.swins ∷ m.swouts ∷ [])

unfoldable pub disk_line : Bytes → Perdsk → Bytes
disk_line hp d = named_line hp d.name (d.io_ms ∷ d.nread ∷ d.nrsect ∷ d.nwrite ∷ d.nwsect ∷ [])

-- The disks, or the volumes or multiple devices, up to the empty name.
unfoldable pub print_disks : Bytes → List Perdsk → Bytes
print_disks hp [] = []
print_disks hp (d ∷ ds) =
    let more = print_disks hp ds in elim d.name [ [] ↦ [] | ◌∷◌ c s ↦ disk_line hp d ++ more ]

unfoldable pub mount_line : Bytes → Pernfsmount → Bytes
mount_line hp n = named_line hp n.mountdev (
    n.bytestotread ∷ n.bytestotwrite ∷ n.bytesread ∷ n.byteswrite ∷ n.bytesdread ∷ n.bytesdwrite
    ∷ n.pagesmread ∷ n.pagesmwrite ∷ [])

unfoldable pub print_nfm : Bytes → Nfsstat → Bytes
print_nfm hp s = each_text s.nrmounts (mount_line hp) s.nfsmnt

unfoldable pub print_nfc : Bytes → NfsClient → Bytes
print_nfc hp c =
    counter_line hp (c.rpccnt ∷ c.rpcread ∷ c.rpcwrite ∷ c.rpcretrans ∷ c.rpcautrefresh ∷ [])

unfoldable pub print_nfs : Bytes → NfsServer → Bytes
print_nfs hp s = counter_line hp (
    s.rpccnt ∷ s.rpcread ∷ s.rpcwrite ∷ s.nrbytes ∷ s.nwbytes ∷ s.rpcbadfmt ∷ s.rpcbadaut
    ∷ s.rpcbadcln ∷ s.netcnt ∷ s.nettcpcnt ∷ s.netudpcnt ∷ s.nettcpcon ∷ s.rchits ∷ s.rcmiss
    ∷ s.rcnoca ∷ [])

unfoldable pub intf_line : Bytes → Perintf → Bytes
intf_line hp p =
    hp
    ++ columns (
        p.name
        ∷ numbers (p.rpack ∷ p.rbyte ∷ p.spack ∷ p.sbyte ∷ p.speed ∷ []) (id_text p.duplex ∷ []))

unfoldable pub intf_lines : Bytes → List Perintf → Bytes
intf_lines hp [] = []
intf_lines hp (p ∷ ps) =
    let more = intf_lines hp ps in elim p.name [ [] ↦ [] | ◌∷◌ c s ↦ intf_line hp p ++ more ]

-- The members of the upper layers, by their places in the structures of netstats.h.
unfoldable pub upper_counts : Netstat → List ℕ
upper_counts n =
    get_or n.tcp 9 0
    ∷ get_or n.tcp 10 0
    ∷ (get_or n.udpv4 0 0 + get_or n.udpv6 0 0)
    ∷ (get_or n.udpv4 3 0 + get_or n.udpv6 3 0)
    ∷ (get_or n.ipv4 2 0 + get_or n.ipv6 0 0)
    ∷ (get_or n.ipv4 9 0 + get_or n.ipv6 10 0)
    ∷ (get_or n.ipv4 8 0 + get_or n.ipv6 8 0)
    ∷ (get_or n.ipv4 5 0 + get_or n.ipv6 9 0)
    ∷ []

unfoldable pub print_net : Bytes → Sstat → Bytes
print_net hp s = named_line hp (codes "upper") (upper_counts s.net) ++ intf_lines hp s.intf.intf
