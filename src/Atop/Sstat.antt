-- ===== src/Atop/Sstat.antt =====
-- struct sstat of Qt/FakeAtop/photosyst.h: what is known of the system in one sample. A count_t is the
-- 64 bits of its two's complement; a load average (float), a speed (long) and a character are the
-- bits that the code copies. An array is the list of its entries: photosyst clears the whole
-- structure, so that an entry that is not in the list is zero. The members that are reserved for
-- future use (cfuture, rfuture, sfuture, future) are left out: no code reads them. The members Itime
-- and Stime of a CPU are irq and softirq here.
use practice.Base.{ℕ, List}
use practice.Base.Text.{Bytes}

pub record Freqcnt : Type 0 where
  pub maxfreq : ℕ
  pub cnt : ℕ
  pub ticks : ℕ

pub record Percpu : Type 0 where
  pub cpunr : ℕ
  pub stime : ℕ
  pub utime : ℕ
  pub ntime : ℕ
  pub itime : ℕ
  pub wtime : ℕ
  pub irq : ℕ
  pub softirq : ℕ
  pub steal : ℕ
  pub guest : ℕ
  pub freqcnt : Freqcnt
  pub instr : ℕ
  pub cycle : ℕ

pub record Cpustat : Type 0 where
  pub nrcpu : ℕ
  pub devint : ℕ
  pub csw : ℕ
  pub nprocs : ℕ
  pub lavg1 : ℕ
  pub lavg5 : ℕ
  pub lavg15 : ℕ
  pub all : Percpu
  pub cpu : List Percpu

pub record Memstat : Type 0 where
  pub physmem : ℕ
  pub freemem : ℕ
  pub buffermem : ℕ
  pub slabmem : ℕ
  pub cachemem : ℕ
  pub cachedrt : ℕ
  pub totswap : ℕ
  pub freeswap : ℕ
  pub pgscans : ℕ
  pub pgsteal : ℕ
  pub allocstall : ℕ
  pub swouts : ℕ
  pub swins : ℕ
  pub commitlim : ℕ
  pub committed : ℕ
  pub shmem : ℕ
  pub shmrss : ℕ
  pub shmswp : ℕ
  pub slabreclaim : ℕ
  pub tothugepage : ℕ
  pub freehugepage : ℕ
  pub hugepagesz : ℕ
  pub vmwballoon : ℕ

-- Each structure of counters as the list of its members, as the code reads it.
pub record Netstat : Type 0 where
  pub ipv4 : List ℕ
  pub icmpv4 : List ℕ
  pub udpv4 : List ℕ
  pub ipv6 : List ℕ
  pub icmpv6 : List ℕ
  pub udpv6 : List ℕ
  pub tcp : List ℕ

pub record Perdsk : Type 0 where
  pub name : Bytes
  pub nread : ℕ
  pub nrsect : ℕ
  pub nwrite : ℕ
  pub nwsect : ℕ
  pub io_ms : ℕ
  pub avque : ℕ

pub record Dskstat : Type 0 where
  pub ndsk : ℕ
  pub nmdd : ℕ
  pub nlvm : ℕ
  pub dsk : List Perdsk
  pub mdd : List Perdsk
  pub lvm : List Perdsk

pub record Perintf : Type 0 where
  pub name : Bytes
  pub rbyte : ℕ
  pub rpack : ℕ
  pub rerrs : ℕ
  pub rdrop : ℕ
  pub rfifo : ℕ
  pub rframe : ℕ
  pub rcompr : ℕ
  pub rmultic : ℕ
  pub sbyte : ℕ
  pub spack : ℕ
  pub serrs : ℕ
  pub sdrop : ℕ
  pub sfifo : ℕ
  pub scollis : ℕ
  pub scarrier : ℕ
  pub scompr : ℕ
  pub type : ℕ
  pub speed : ℕ
  pub speedp : ℕ
  pub duplex : ℕ

pub record Intfstat : Type 0 where
  pub nrintf : ℕ
  pub intf : List Perintf

pub record Pernfsmount : Type 0 where
  pub mountdev : Bytes
  pub age : ℕ
  pub bytesread : ℕ
  pub byteswrite : ℕ
  pub bytesdread : ℕ
  pub bytesdwrite : ℕ
  pub bytestotread : ℕ
  pub bytestotwrite : ℕ
  pub pagesmread : ℕ
  pub pagesmwrite : ℕ

pub record NfsServer : Type 0 where
  pub netcnt : ℕ
  pub netudpcnt : ℕ
  pub nettcpcnt : ℕ
  pub nettcpcon : ℕ
  pub rpccnt : ℕ
  pub rpcbadfmt : ℕ
  pub rpcbadaut : ℕ
  pub rpcbadcln : ℕ
  pub rpcread : ℕ
  pub rpcwrite : ℕ
  pub rchits : ℕ
  pub rcmiss : ℕ
  pub rcnoca : ℕ
  pub nrbytes : ℕ
  pub nwbytes : ℕ

pub record NfsClient : Type 0 where
  pub rpccnt : ℕ
  pub rpcretrans : ℕ
  pub rpcautrefresh : ℕ
  pub rpcread : ℕ
  pub rpcwrite : ℕ

pub record Nfsstat : Type 0 where
  pub server : NfsServer
  pub client : NfsClient
  pub nrmounts : ℕ
  pub nfsmnt : List Pernfsmount

pub record Percontainer : Type 0 where
  pub ctid : ℕ
  pub numproc : ℕ
  pub system : ℕ
  pub user : ℕ
  pub nice : ℕ
  pub uptime : ℕ
  pub physpages : ℕ

pub record Contstat : Type 0 where
  pub nrcontainer : ℕ
  pub cont : List Percontainer

pub record Wwwstat : Type 0 where
  pub accesses : ℕ
  pub totkbytes : ℕ
  pub uptime : ℕ
  pub bworkers : ℕ
  pub iworkers : ℕ

pub record Sstat : Type 0 where
  pub cpu : Cpustat
  pub mem : Memstat
  pub net : Netstat
  pub intf : Intfstat
  pub dsk : Dskstat
  pub nfs : Nfsstat
  pub cfs : Contstat
  pub www : Wwwstat
