-- ===== src/Atop/System/Containers.antt =====
-- The containers and the counters of a web server in deviatsyst and totalsyst of
-- Qt/FakeAtop/deviate.c.
pub mod Positions
use practice.Base.{
  ℕ, zero, suc, Bool, true, false, not, ◌==◌, leb, if◌then◌else◌, List, [], ◌∷◌, get_or,
}
use practice.Atop.Sstat.{Percontainer, Contstat, Wwwstat}
use practice.Atop.Deviate.{subcount}
use practice.Atop.System.Count.{plus}

abbrev pub no_container : Percontainer
no_container = record {
  ctid = 0;
  numproc = 0;
  system = 0;
  user = 0;
  nice = 0;
  uptime = 0;
  physpages = 0;
}

unfoldable pub container_deviation : Percontainer → Percontainer → Percontainer
container_deviation cur pre = record {
  ctid = cur.ctid;
  numproc = cur.numproc;
  system = subcount cur.system pre.system;
  user = subcount cur.user pre.user;
  nice = subcount cur.nice pre.nice;
  uptime = subcount cur.uptime pre.uptime;
  physpages = cur.physpages;
}

-- The search for the container among n entries of pre from j on.
unfoldable pub seek_container : ℕ → List Percontainer → ℕ → ℕ → ℕ
seek_container ctid pre zero j = j
seek_container ctid pre (suc n) j =
    let rest = seek_container ctid pre n (suc j) in
    let p = get_or pre j no_container in if ctid == p.ctid then j else rest

unfoldable pub container_index : Percontainer → List Percontainer → ℕ → ℕ → ℕ
container_index c pre nrcontainer j =
    let p = get_or pre j no_container in
    if not (c.ctid == p.ctid) then seek_container c.ctid pre nrcontainer 0 else j

-- The loop over n entries of cur, the first of which has index i; j is looked up, and the counters
-- are those of pre->cfs.cont[i].
unfoldable pub container_deviations :
    ℕ → ℕ → List Percontainer → List Percontainer → ℕ → ℕ → List Percontainer
container_deviations nrcontainer zero cur pre i j = []
container_deviations nrcontainer (suc n) [] pre i j = []
container_deviations nrcontainer (suc n) (c ∷ cs) pre i j =
    let k = container_index c pre nrcontainer j in
    container_deviation c (get_or pre i no_container)
    ∷ container_deviations nrcontainer n cs pre (suc i) (suc k)

unfoldable pub cfs_deviation : Contstat → Contstat → Contstat
cfs_deviation cur pre = record {
  nrcontainer = cur.nrcontainer;
  cont = container_deviations pre.nrcontainer cur.nrcontainer cur.cont pre.cont 0 0;
}

unfoldable pub www_deviation : Wwwstat → Wwwstat → Wwwstat → Wwwstat
www_deviation cur pre dev =
    let running = leb pre.uptime cur.uptime in
    record dev {
      accesses = (if running then subcount cur.accesses pre.accesses else cur.accesses);
      totkbytes = (if running then subcount cur.totkbytes pre.totkbytes else cur.totkbytes);
      bworkers = cur.bworkers;
      iworkers = cur.iworkers;
    }

unfoldable pub www_total : Wwwstat → Wwwstat → Wwwstat
www_total new tot = record tot {
  accesses = plus tot.accesses new.accesses;
  totkbytes = plus tot.totkbytes new.totkbytes;
  bworkers = new.bworkers;
  iworkers = new.iworkers;
}
