-- ===== src/Tests/Sums.antt =====
-- Containers that come and go, and the sum of the deviations of two intervals.
use practice.Base.{ℕ, ◌-◌, refl, ◌≡◌, true, some, List, [], ◌∷◌, get_elem?, length, ◌<◌, ◌^◌, arith}
use practice.Atop.Sstat.{Percontainer, Contstat, Memstat, Wwwstat, Sstat}
use practice.Atop.Deviate.{subcount}
use practice.Atop.System.Count.{plus}
use practice.Atop.System.Cpu.{no_percpu}
use practice.Atop.System.Containers.{cfs_deviation, container_deviations, container_deviation}
use practice.Atop.System.Containers.Positions.{since_index, cfs_deviation-since_index}
use practice.Atop.System.Sums.{Snapshot, report, IsRising, last_count}
use practice.Atop.System.Sums.Counters.{SystCounter.csw, category_of, count_of, report-advance}
use practice.Tests.System.{mounts, intfs}

abbrev container : ℕ → ℕ → Percontainer
container id n = record {
  ctid = id;
  numproc = 1;
  system = n;
  user = 0;
  nice = 0;
  uptime = 0;
  physpages = 0;
}

abbrev containers : List Percontainer → Contstat
containers l = record { nrcontainer = length l; cont = l }

-- Container 101 is gone, and 102 is compared with its counters.
cfs_deviation-since_index_example :
    get_elem?
      (cfs_deviation
        (containers (container 102 30 ∷ []))
        (containers (container 101 10 ∷ container 102 25 ∷ []))).cont
      0
    ≡ since_index
        (containers (container 101 10 ∷ container 102 25 ∷ []))
        0
        (some (container 102 30))
cfs_deviation-since_index_example =
    cfs_deviation-since_index (containers (container 102 30 ∷ []))
      (containers (container 101 10 ∷ container 102 25 ∷ [])) 0 refl

container_moved :
    cfs_deviation
      (containers (container 102 30 ∷ []))
      (containers (container 101 10 ∷ container 102 25 ∷ []))
    ≡ containers (container 102 20 ∷ [])
unfolding cfs_deviation container_deviations container_deviation subcount
container_moved = refl

abbrev no_memstat : Memstat
no_memstat = record {
  physmem = 0;
  freemem = 0;
  buffermem = 0;
  slabmem = 0;
  cachemem = 0;
  cachedrt = 0;
  totswap = 0;
  freeswap = 0;
  pgscans = 0;
  pgsteal = 0;
  allocstall = 0;
  swouts = 0;
  swins = 0;
  commitlim = 0;
  committed = 0;
  shmem = 0;
  shmrss = 0;
  shmswp = 0;
  slabreclaim = 0;
  tothugepage = 0;
  freehugepage = 0;
  hugepagesz = 0;
  vmwballoon = 0;
}

abbrev no_www : Wwwstat
no_www = record { accesses = 0; totkbytes = 0; uptime = 0; bworkers = 0; iworkers = 0 }

abbrev sample : ℕ → Sstat
sample switches = record {
  cpu = record {
    nrcpu = 0;
    devint = 0;
    csw = switches;
    nprocs = 0;
    lavg1 = 0;
    lavg5 = 0;
    lavg15 = 0;
    all = no_percpu;
    cpu = [];
  };
  mem = no_memstat;
  net = record { ipv4 = []; icmpv4 = []; udpv4 = []; ipv6 = []; icmpv6 = []; udpv6 = []; tcp = [] };
  intf = intfs [];
  dsk = record { ndsk = 0; nmdd = 0; nlvm = 0; dsk = []; mdd = []; lvm = [] };
  nfs = mounts [];
  cfs = containers [];
  www = no_www;
}

abbrev samples : List Snapshot
samples =
    record { syst = sample 150; interval = 10 } ∷ record { syst = sample 180; interval = 10 } ∷ []

samples-IsRising : IsRising (count_of csw) (count_of csw (sample 100)) samples
unfolding count_of
samples-IsRising = (omega arith, (omega arith, omega arith))

small : count_of csw (sample 0) < 2 ^ 64
unfolding count_of
small = omega arith

report-advance_example :
    count_of csw (report true [] (category_of csw) samples (sample 100) (sample 0) (sample 0))
    ≡ plus
        (count_of csw (sample 0))
        (last_count (count_of csw) (count_of csw (sample 100)) samples - count_of csw (sample 100))
report-advance_example =
    report-advance true [] csw samples (sample 100) (sample 0) (sample 0) small samples-IsRising
