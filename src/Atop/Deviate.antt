-- ===== src/Atop/Deviate.antt =====
-- subcount and calcdiff of Qt/FakeAtop/deviate.c: what a task used between two samples. A count_t is
-- the 64 bits of its two's complement; the counters of the samples are below 2^63.
pub mod Same
pub mod Task
pub mod Tally
pub mod Present
pub mod Arrays
pub mod Exits
pub mod Counters
use practice.Base.{ℕ, ◌+◌, ◌-◌, ◌%◌, ◌^◌, Bool, true, false, not, ◌&&◌, ltb, leb, if◌then◌else◌, []}
use practice.Base.Int.{ℤ, pos, sub_ℕ}
use practice.Atop.Tstat.{Tstat, Gen, Cpu, Dsk, Mem, Net, no_net}

abbrev pub count_mod : ℕ
count_mod = 2 ^ 64

abbrev pub max32bitval : ℕ
max32bitval = 0x100000000

unfoldable pub subcount : ℕ → ℕ → ℕ
subcount newval oldval =
    if leb oldval newval
    then newval - oldval
    else (max32bitval + newval + count_mod - oldval) % count_mod

-- `a > b` on count_t, where b is not negative.
pub above : ℕ → ℕ → Bool
above a b = ltb a (2 ^ 63) && ltb b a

-- The sanity check on the consumed CPU ticks.
unfoldable pub sane_ticks : ℕ → ℕ → ℕ
unfolding above
sane_ticks totusedcpu used = if above used totusedcpu then 1 else used

-- A network counter; a smaller value means that the counters were reset.
unfoldable pub net_count : ℕ → ℕ → ℕ
net_count newval oldval = if leb oldval newval then subcount newval oldval else newval

-- `excode |= ~(INT_MAX)`: the top bit of the 32 bits.
pub mark_excode : ℕ → ℕ
mark_excode excode = if ltb excode (2 ^ 31) then excode + 2 ^ 31 else excode

pub cpu_diff : Bool → Cpu → Cpu → ℕ → Cpu
cpu_diff inactive cur pre totusedcpu = record {
  utime = (if inactive then 0 else sane_ticks totusedcpu (subcount cur.utime pre.utime));
  stime = (if inactive then 0 else sane_ticks totusedcpu (subcount cur.stime pre.stime));
  nice = cur.nice;
  prio = cur.prio;
  rtprio = cur.rtprio;
  policy = cur.policy;
  curcpu = cur.curcpu;
  sleepavg = cur.sleepavg;
}

pub dsk_diff : Bool → Dsk → Dsk → Dsk
dsk_diff true cur pre = record { rio = 0; rsz = 0; wio = 0; wsz = 0; cwsz = 0 }
dsk_diff false cur pre = record {
  rio = subcount cur.rio pre.rio;
  rsz = subcount cur.rsz pre.rsz;
  wio = subcount cur.wio pre.wio;
  wsz = subcount cur.wsz pre.wsz;
  cwsz = subcount cur.cwsz pre.cwsz;
}

pub mem_diff : Bool → Mem → Mem → Mem
mem_diff inactive cur pre = record {
  minflt = (if inactive then 0 else subcount cur.minflt pre.minflt);
  majflt = (if inactive then 0 else subcount cur.majflt pre.majflt);
  vexec = cur.vexec;
  vmem = cur.vmem;
  rmem = cur.rmem;
  pmem = cur.pmem;
  vgrow = (if inactive then pos 0 else sub_ℕ cur.vmem pre.vmem);
  rgrow = (if inactive then pos 0 else sub_ℕ cur.rmem pre.rmem);
  vdata = cur.vdata;
  vstack = cur.vstack;
  vlibs = cur.vlibs;
  vswap = cur.vswap;
}

pub net_diff : Bool → Net → Net → Net
net_diff true cur pre = no_net
net_diff false cur pre = record {
  tcpsnd = net_count cur.tcpsnd pre.tcpsnd;
  tcpssz = net_count cur.tcpssz pre.tcpssz;
  tcprcv = net_count cur.tcprcv pre.tcprcv;
  tcprsz = net_count cur.tcprsz pre.tcprsz;
  udpsnd = net_count cur.udpsnd pre.udpsnd;
  udpssz = net_count cur.udpssz pre.udpssz;
  udprcv = net_count cur.udprcv pre.udprcv;
  udprsz = net_count cur.udprsz pre.udprsz;
}

-- The result is all of *devstat, as every member is assigned or cleared.
unfoldable pub calcdiff : Tstat → Tstat → Bool → ℕ → Tstat
unfolding mark_excode cpu_diff dsk_diff mem_diff net_diff
calcdiff cur pre newtask totusedcpu =
    let inactive = cur.gen.wasinactive in
    record {
      gen =
          (if newtask
            then (let g = cur.gen in record g { excode = mark_excode cur.gen.excode })
            else cur.gen);
      cpu = cpu_diff inactive cur.cpu pre.cpu totusedcpu;
      dsk = dsk_diff inactive cur.dsk pre.dsk;
      mem = mem_diff inactive cur.mem pre.mem;
      net = net_diff inactive cur.net pre.net;
    }
