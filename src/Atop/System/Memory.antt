-- ===== src/Atop/System/Memory.antt =====
-- The memory counters in deviatsyst and totalsyst of Qt/FakeAtop/deviate.c.
use practice.Atop.Sstat.{Memstat}
use practice.Atop.Deviate.{subcount}
use practice.Atop.System.Count.{plus}

unfoldable pub mem_deviation : Memstat → Memstat → Memstat
mem_deviation cur pre = record {
  physmem = cur.physmem;
  freemem = cur.freemem;
  buffermem = cur.buffermem;
  slabmem = cur.slabmem;
  slabreclaim = cur.slabreclaim;
  committed = cur.committed;
  commitlim = cur.commitlim;
  cachemem = cur.cachemem;
  cachedrt = cur.cachedrt;
  totswap = cur.totswap;
  freeswap = cur.freeswap;
  shmem = cur.shmem;
  shmrss = cur.shmrss;
  shmswp = cur.shmswp;
  tothugepage = cur.tothugepage;
  freehugepage = cur.freehugepage;
  hugepagesz = cur.hugepagesz;
  vmwballoon = cur.vmwballoon;
  swouts = subcount cur.swouts pre.swouts;
  swins = subcount cur.swins pre.swins;
  pgscans = subcount cur.pgscans pre.pgscans;
  pgsteal = subcount cur.pgsteal pre.pgsteal;
  allocstall = subcount cur.allocstall pre.allocstall;
}

-- totalsyst ('m', new, tot); pgsteal, the huge pages and vmwballoon stay what they were.
unfoldable pub mem_total : Memstat → Memstat → Memstat
mem_total new tot = record tot {
  physmem = new.physmem;
  freemem = new.freemem;
  buffermem = new.buffermem;
  slabmem = new.slabmem;
  slabreclaim = new.slabreclaim;
  committed = new.committed;
  commitlim = new.commitlim;
  cachemem = new.cachemem;
  cachedrt = new.cachedrt;
  totswap = new.totswap;
  freeswap = new.freeswap;
  shmem = new.shmem;
  shmrss = new.shmrss;
  shmswp = new.shmswp;
  swouts = plus tot.swouts new.swouts;
  swins = plus tot.swins new.swins;
  pgscans = plus tot.pgscans new.pgscans;
  allocstall = plus tot.allocstall new.allocstall;
}
