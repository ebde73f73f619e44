-- ===== src/Atop/Tstat.antt =====
-- struct tstat of Qt/FakeAtop/photoproc.h: what is known of one task. The counters are not negative;
-- the fields that the code compares with or sets to negative numbers are integers. The members that
-- are reserved for future use (ifuture, cfuture, avail1, avail2) are left out: no code reads them.
use practice.Base.{ℕ, Bool, false, []}
use practice.Base.Int.{ℤ, pos}
use practice.Base.Text.{Bytes}

-- GENERAL TASK INFO; a pid is not negative, and excode holds the bits of the int.
pub record Gen : Type 0 where
  pub tgid : ℕ
  pub pid : ℕ
  pub ppid : ℕ
  pub ruid : ℕ
  pub euid : ℕ
  pub suid : ℕ
  pub fsuid : ℕ
  pub rgid : ℕ
  pub egid : ℕ
  pub sgid : ℕ
  pub fsgid : ℕ
  pub nthr : ℕ
  pub name : Bytes
  pub isproc : Bool
  pub state : ℕ
  pub excode : ℕ
  pub btime : ℕ
  pub elaps : ℕ
  pub cmdline : Bytes
  pub nthrslpi : ℕ
  pub nthrslpu : ℕ
  pub nthrrun : ℕ
  pub ctid : ℕ
  pub vpid : ℕ
  pub wasinactive : Bool
  pub container : Bytes

-- CPU STATISTICS
pub record Cpu : Type 0 where
  pub utime : ℕ
  pub stime : ℕ
  pub nice : ℤ
  pub prio : ℤ
  pub rtprio : ℤ
  pub policy : ℤ
  pub curcpu : ℤ
  pub sleepavg : ℤ

-- DISK STATISTICS
pub record Dsk : Type 0 where
  pub rio : ℕ
  pub rsz : ℕ
  pub wio : ℕ
  pub wsz : ℕ
  pub cwsz : ℕ

-- MEMORY STATISTICS
pub record Mem : Type 0 where
  pub minflt : ℕ
  pub majflt : ℕ
  pub vexec : ℕ
  pub vmem : ℕ
  pub rmem : ℕ
  pub pmem : ℤ
  pub vgrow : ℤ
  pub rgrow : ℤ
  pub vdata : ℕ
  pub vstack : ℕ
  pub vlibs : ℕ
  pub vswap : ℕ

-- NETWORK STATISTICS
pub record Net : Type 0 where
  pub tcpsnd : ℕ
  pub tcpssz : ℕ
  pub tcprcv : ℕ
  pub tcprsz : ℕ
  pub udpsnd : ℕ
  pub udpssz : ℕ
  pub udprcv : ℕ
  pub udprsz : ℕ

pub record Tstat : Type 0 where
  pub gen : Gen
  pub cpu : Cpu
  pub dsk : Dsk
  pub mem : Mem
  pub net : Net

-- A struct that memset has cleared.
abbrev pub no_net : Net
no_net = record {
  tcpsnd = 0;
  tcpssz = 0;
  tcprcv = 0;
  tcprsz = 0;
  udpsnd = 0;
  udpssz = 0;
  udprcv = 0;
  udprsz = 0;
}

abbrev pub zero_tstat : Tstat
zero_tstat = record {
  gen = record {
    tgid = 0;
    pid = 0;
    ppid = 0;
    ruid = 0;
    euid = 0;
    suid = 0;
    fsuid = 0;
    rgid = 0;
    egid = 0;
    sgid = 0;
    fsgid = 0;
    nthr = 0;
    name = [];
    isproc = false;
    state = 0;
    excode = 0;
    btime = 0;
    elaps = 0;
    cmdline = [];
    nthrslpi = 0;
    nthrslpu = 0;
    nthrrun = 0;
    ctid = 0;
    vpid = 0;
    wasinactive = false;
    container = [];
  };
  cpu = record {
    utime = 0;
    stime = 0;
    nice = pos 0;
    prio = pos 0;
    rtprio = pos 0;
    policy = pos 0;
    curcpu = pos 0;
    sleepavg = pos 0;
  };
  dsk = record { rio = 0; rsz = 0; wio = 0; wsz = 0; cwsz = 0 };
  mem = record {
    minflt = 0;
    majflt = 0;
    vexec = 0;
    vmem = 0;
    rmem = 0;
    pmem = pos 0;
    vgrow = pos 0;
    rgrow = pos 0;
    vdata = 0;
    vstack = 0;
    vlibs = 0;
    vswap = 0;
  };
  net = no_net;
}
