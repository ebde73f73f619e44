-- ===== src/Atop/System/Sums/Counters.antt =====
-- The counters of the system that are single numbers, and the sum of their deviations.
use practice.Base.{ℕ, ◌-◌, ◌^◌, ◌<◌, ◌≡◌, Bool, List, arith}
use practice.Atop.Sstat.{Sstat}
use practice.Atop.System.Count.{plus}
use practice.Atop.System.Cpu.{cpu_deviation, cpu_total, all_deviation, ticks_total}
use practice.Atop.System.Memory.{mem_deviation, mem_total}
use practice.Atop.System.Nfs.{
  deviate_nfs, nfs_total, server_deviation, client_deviation, server_total, client_total,
}
use practice.Atop.System.Properties.{Ifprop}
use practice.Atop.System.{deviatsyst, totalsyst}
use practice.Atop.System.Sums.{Snapshot, report, IsCounter, IsRising, last_count, report-counter}

pub data SystCounter : Type 0 where
  csw : SystCounter
  devint : SystCounter
  nprocs : SystCounter
  stime : SystCounter
  utime : SystCounter
  ntime : SystCounter
  itime : SystCounter
  wtime : SystCounter
  irq : SystCounter
  softirq : SystCounter
  steal : SystCounter
  guest : SystCounter
  swouts : SystCounter
  swins : SystCounter
  pgscans : SystCounter
  allocstall : SystCounter
  server_netcnt : SystCounter
  server_netudpcnt : SystCounter
  server_nettcpcnt : SystCounter
  server_nettcpcon : SystCounter
  server_rpccnt : SystCounter
  server_rpcread : SystCounter
  server_rpcwrite : SystCounter
  server_rpcbadfmt : SystCounter
  server_rpcbadaut : SystCounter
  server_rpcbadcln : SystCounter
  server_rchits : SystCounter
  server_rcmiss : SystCounter
  server_rcnoca : SystCounter
  server_nrbytes : SystCounter
  server_nwbytes : SystCounter
  client_rpccnt : SystCounter
  client_rpcread : SystCounter
  client_rpcwrite : SystCounter
  client_rpcretrans : SystCounter
  client_rpcautrefresh : SystCounter

-- The category of totalsyst that adds a counter up.
unfoldable pub category_of : SystCounter → ℕ
category_of csw = b'c'
category_of devint = b'c'
category_of nprocs = b'c'
category_of stime = b'c'
category_of utime = b'c'
category_of ntime = b'c'
category_of itime = b'c'
category_of wtime = b'c'
category_of irq = b'c'
category_of softirq = b'c'
category_of steal = b'c'
category_of guest = b'c'
category_of swouts = b'm'
category_of swins = b'm'
category_of pgscans = b'm'
category_of allocstall = b'm'
category_of server_netcnt = b'n'
category_of server_netudpcnt = b'n'
category_of server_nettcpcnt = b'n'
category_of server_nettcpcon = b'n'
category_of server_rpccnt = b'n'
category_of server_rpcread = b'n'
category_of server_rpcwrite = b'n'
category_of server_rpcbadfmt = b'n'
category_of server_rpcbadaut = b'n'
category_of server_rpcbadcln = b'n'
category_of server_rchits = b'n'
category_of server_rcmiss = b'n'
category_of server_rcnoca = b'n'
category_of server_nrbytes = b'n'
category_of server_nwbytes = b'n'
category_of client_rpccnt = b'n'
category_of client_rpcread = b'n'
category_of client_rpcwrite = b'n'
category_of client_rpcretrans = b'n'
category_of client_rpcautrefresh = b'n'

unfoldable pub count_of : SystCounter → Sstat → ℕ
count_of csw s = s.cpu.csw
count_of devint s = s.cpu.devint
count_of nprocs s = s.cpu.nprocs
count_of stime s = s.cpu.all.stime
count_of utime s = s.cpu.all.utime
count_of ntime s = s.cpu.all.ntime
count_of itime s = s.cpu.all.itime
count_of wtime s = s.cpu.all.wtime
count_of irq s = s.cpu.all.irq
count_of softirq s = s.cpu.all.softirq
count_of steal s = s.cpu.all.steal
count_of guest s = s.cpu.all.guest
count_of swouts s = s.mem.swouts
count_of swins s = s.mem.swins
count_of pgscans s = s.mem.pgscans
count_of allocstall s = s.mem.allocstall
count_of server_netcnt s = s.nfs.server.netcnt
count_of server_netudpcnt s = s.nfs.server.netudpcnt
count_of server_nettcpcnt s = s.nfs.server.nettcpcnt
count_of server_nettcpcon s = s.nfs.server.nettcpcon
count_of server_rpccnt s = s.nfs.server.rpccnt
count_of server_rpcread s = s.nfs.server.rpcread
count_of server_rpcwrite s = s.nfs.server.rpcwrite
count_of server_rpcbadfmt s = s.nfs.server.rpcbadfmt
count_of server_rpcbadaut s = s.nfs.server.rpcbadaut
count_of server_rpcbadcln s = s.nfs.server.rpcbadcln
count_of server_rchits s = s.nfs.server.rchits
count_of server_rcmiss s = s.nfs.server.rcmiss
count_of server_rcnoca s = s.nfs.server.rcnoca
count_of server_nrbytes s = s.nfs.server.nrbytes
count_of server_nwbytes s = s.nfs.server.nwbytes
count_of client_rpccnt s = s.nfs.client.rpccnt
count_of client_rpcread s = s.nfs.client.rpcread
count_of client_rpcwrite s = s.nfs.client.rpcwrite
count_of client_rpcretrans s = s.nfs.client.rpcretrans
count_of client_rpcautrefresh s = s.nfs.client.rpcautrefresh

count_of-IsCounter :
    (httpstats : Bool) (ifprops : List Ifprop) (k : SystCounter)
    → IsCounter httpstats ifprops (category_of k) (count_of k)
unfolding category_of count_of deviatsyst totalsyst cpu_deviation cpu_total all_deviation
    ticks_total mem_deviation mem_total deviate_nfs nfs_total server_deviation client_deviation
    server_total client_total
count_of-IsCounter httpstats ifprops k = record {
  subtracts = λ cur pre dev interval. ground arith;
  keeps = λ cur pre dev interval. ground arith;
  adds = λ new tot. ground arith;
}

-- For each of the 36 counters of SystCounter (context switches, interrupts, new processes and the
-- ticks of all processors together, swapped and scanned pages and allocation stalls, and the calls
-- of the NFS server and client; not the tables of single processors, disks and interfaces, the
-- network counters, pgsteal, instr and cycle): where it does not get smaller from sample to sample
-- and stays below 2^63, the totals of its category, below 2^64 before, grow over any number of
-- samples by what it advanced from the first sample to the last, modulo 2^64.
pub report-advance :
    (httpstats : Bool) (ifprops : List Ifprop) (k : SystCounter) (samples : List Snapshot)
    (pre dev tot : Sstat)
    → count_of k tot < 2 ^ 64
    → IsRising (count_of k) (count_of k pre) samples
    → count_of k (report httpstats ifprops (category_of k) samples pre dev tot)
      ≡ plus (count_of k tot) (last_count (count_of k) (count_of k pre) samples - count_of k pre)
report-advance httpstats ifprops k samples pre dev tot b h =
    report-counter httpstats ifprops (category_of k) (count_of k) samples pre dev tot
      (count_of-IsCounter httpstats ifprops k) b h
