-- ===== src/Atop/Deviate/Same.antt =====
-- The comparison of two samples of a task in deviattask of Qt/FakeAtop/deviate.c.
use practice.Base.{Bool, false, ◌&&◌, ◌==◌}
use practice.Base.Int.{ℤ, pos, negsuc}
use practice.Base.Text.{same_text}
use practice.Atop.Tstat.{Tstat, Gen, Cpu, Dsk, Mem, Net}
use practice.Atop.Pdb.{same_bool}

-- memcmp (curstat, &pinfo->tstat, sizeof (struct tstat)) == 0, where the arrays behind their texts
-- and the reserved members are zero.
abbrev same_int : ℤ → ℤ → Bool
same_int (pos m) (pos n) = m == n
same_int (pos m) b = false
same_int (negsuc m) (pos n) = false
same_int (negsuc m) (negsuc n) = m == n

same_gen : Gen → Gen → Bool
same_gen a b =
    a.tgid == b.tgid
    && a.pid == b.pid
    && a.ppid == b.ppid
    && a.ruid == b.ruid
    && a.euid == b.euid
    && a.suid == b.suid
    && a.fsuid == b.fsuid
    && a.rgid == b.rgid
    && a.egid == b.egid
    && a.sgid == b.sgid
    && a.fsgid == b.fsgid
    && a.nthr == b.nthr
    && same_text a.name b.name
    && same_bool a.isproc b.isproc
    && a.state == b.state
    && a.excode == b.excode
    && a.btime == b.btime
    && a.elaps == b.elaps
    && same_text a.cmdline b.cmdline
    && a.nthrslpi == b.nthrslpi
    && a.nthrslpu == b.nthrslpu
    && a.nthrrun == b.nthrrun
    && a.ctid == b.ctid
    && a.vpid == b.vpid
    && same_bool a.wasinactive b.wasinactive
    && same_text a.container b.container

same_cpu : Cpu → Cpu → Bool
same_cpu a b =
    a.utime == b.utime
    && a.stime == b.stime
    && same_int a.nice b.nice
    && same_int a.prio b.prio
    && same_int a.rtprio b.rtprio
    && same_int a.policy b.policy
    && same_int a.curcpu b.curcpu
    && same_int a.sleepavg b.sleepavg

same_dsk : Dsk → Dsk → Bool
same_dsk a b =
    a.rio == b.rio && a.rsz == b.rsz && a.wio == b.wio && a.wsz == b.wsz && a.cwsz == b.cwsz

same_mem : Mem → Mem → Bool
same_mem a b =
    a.minflt == b.minflt
    && a.majflt == b.majflt
    && a.vexec == b.vexec
    && a.vmem == b.vmem
    && a.rmem == b.rmem
    && same_int a.pmem b.pmem
    && same_int a.vgrow b.vgrow
    && same_int a.rgrow b.rgrow
    && a.vdata == b.vdata
    && a.vstack == b.vstack
    && a.vlibs == b.vlibs
    && a.vswap == b.vswap

same_net : Net → Net → Bool
same_net a b =
    a.tcpsnd == b.tcpsnd
    && a.tcpssz == b.tcpssz
    && a.tcprcv == b.tcprcv
    && a.tcprsz == b.tcprsz
    && a.udpsnd == b.udpsnd
    && a.udpssz == b.udpssz
    && a.udprcv == b.udprcv
    && a.udprsz == b.udprsz

unfoldable pub same_tstat : Tstat → Tstat → Bool
unfolding same_gen same_cpu same_dsk same_mem same_net
same_tstat a b =
    same_gen a.gen b.gen
    && same_cpu a.cpu b.cpu
    && same_dsk a.dsk b.dsk
    && same_mem a.mem b.mem
    && same_net a.net b.net
