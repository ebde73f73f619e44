-- ===== src/Atop/Order.antt =====
-- The comparisons by which Qt/FakeAtop/showlinux.c has qsort order tasks, processors, disks, interfaces,
-- mounts and containers. The sums of counters stay below 2^63; C says nothing of larger ones.
pub mod Laws
use practice.Base.{
  ℕ, ◌+◌, ◌-◌, ◌*◌, ◌^◌, ◌/◌, Bool, true, false, ltb, ◌==◌, if◌then◌else◌, List, [], ◌∷◌,
}
use practice.Base.Text.{Bytes}
use practice.Atop.Tstat.{Tstat}
use practice.Atop.Sstat.{Percpu, Perdsk, Perintf, Pernfsmount, Percontainer}

-- The sign of a result, which is all that qsort reads: a number below 0, 0, one above 0.
pub data Sign : Type 0 where
  before : Sign
  same : Sign
  after : Sign

-- The larger number first.
unfoldable pub descending : ℕ → ℕ → Sign
descending a b = if ltb a b then after else if ltb b a then before else same

unfoldable pub ascending : ℕ → ℕ → Sign
ascending a b = if ltb b a then after else if ltb a b then before else same

-- 0 for the bits of a negative int.
unfoldable pub sign_rank : ℕ → ℕ
sign_rank n = if ltb n (2 ^ 31) then 1 else 0

-- The second comparison counts where the first finds no difference.
unfoldable pub or_else : Sign → Sign → Sign
or_else before s = before
or_else same s = s
or_else after s = after

unfoldable pub compmem : Tstat → Tstat → Sign
compmem a b = descending a.mem.rmem b.mem.rmem

unfoldable pub cpu_key : Tstat → ℕ
cpu_key t = t.cpu.stime + t.cpu.utime

unfoldable pub compcpu : Tstat → Tstat → Sign
compcpu a b = or_else (descending (cpu_key a) (cpu_key b)) (compmem a b)

-- The writes that were not cancelled, and the reads.
unfoldable pub dsk_key : Tstat → ℕ
dsk_key t = if ltb t.dsk.cwsz t.dsk.wsz then t.dsk.rio + t.dsk.wsz - t.dsk.cwsz else t.dsk.rio

unfoldable pub compdsk : Tstat → Tstat → Sign
compdsk a b = or_else (descending (dsk_key a) (dsk_key b)) (compcpu a b)

unfoldable pub net_key : Tstat → ℕ
net_key t = t.net.tcpssz + t.net.tcprsz + t.net.udpssz + t.net.udprsz

unfoldable pub compnet : Tstat → Tstat → Sign
compnet a b = or_else (descending (net_key a) (net_key b)) (compcpu a b)

-- The negative ones first; ints of one sign are ordered as their bits.
unfoldable pub ascending_int : ℕ → ℕ → Sign
ascending_int a b = or_else (ascending (sign_rank a) (sign_rank b)) (ascending a b)

unfoldable pub compusr : Tstat → Tstat → Sign
compusr a b = ascending_int a.gen.ruid b.gen.ruid

-- strcmp of the C library.
unfoldable pub strcmp : Bytes → Bytes → Sign
strcmp [] [] = same
strcmp [] (d ∷ b) = before
strcmp (c ∷ a) [] = after
strcmp (c ∷ a) (d ∷ b) = or_else (ascending c d) (strcmp a b)

unfoldable pub compnam : Tstat → Tstat → Sign
compnam a b = strcmp a.gen.name b.gen.name

unfoldable pub compcon : Tstat → Tstat → Sign
compcon a b = strcmp a.gen.container b.gen.container

-- The processor that was idle for less time first.
unfoldable pub cpucompar : Percpu → Percpu → Sign
cpucompar a b = ascending (a.itime + a.wtime) (b.itime + b.wtime)

unfoldable pub diskcompar : Perdsk → Perdsk → Sign
diskcompar a b = descending a.io_ms b.io_ms

-- The busy factor, 0 where the speed is not known.
unfoldable pub intf_factor : Perintf → ℕ
intf_factor p =
    if p.speed == 0
    then 0
    else if p.duplex == 0
    then (p.rbyte + p.sbyte) * 10 / p.speed
    else (if ltb p.sbyte p.rbyte then p.rbyte else p.sbyte) * 10 / p.speed

-- By speeds, factors and bytes.
unfoldable pub intf_order : ℕ → ℕ → ℕ → ℕ → ℕ → ℕ → Sign
intf_order aspeed bspeed afactor bfactor abyte bbyte =
    if aspeed == 0
    then (if bspeed == 0 then descending abyte bbyte else after)
    else if bspeed == 0
    then before
    else descending afactor bfactor

unfoldable pub intfcompar : Perintf → Perintf → Sign
intfcompar a b =
    intf_order a.speed b.speed (intf_factor a) (intf_factor b) (a.rbyte + a.sbyte)
      (b.rbyte + b.sbyte)

unfoldable pub nfsm_key : Pernfsmount → ℕ
nfsm_key n =
    n.bytesread + n.byteswrite + n.bytesdread + n.bytesdwrite + n.bytestotread + n.bytestotwrite
    + n.pagesmread + n.pagesmwrite

unfoldable pub nfsmcompar : Pernfsmount → Pernfsmount → Sign
nfsmcompar a b = descending (nfsm_key a) (nfsm_key b)

unfoldable pub cont_used : Percontainer → ℕ
cont_used c = c.system + c.user + c.nice

unfoldable pub contcompar : Percontainer → Percontainer → Sign
contcompar a b = descending (cont_used a) (cont_used b)
