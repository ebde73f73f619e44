-- ===== src/Atop/Netatop.antt =====
-- Qt/FakeAtop/netatopif.c: the network counters of tasks, which the kernel module netatop keeps. What
-- the module, the semaphore and the file of its daemon answer are arguments.
pub mod Daemon
pub mod Records
pub mod Exits
use practice.Base.{ℕ, Bool, true, false, if◌then◌else◌}
use practice.Atop.Tstat.{Tstat, Net, no_net}

-- struct taskcount of netatop.h.
pub record Taskcount : Type 0 where
  pub tcpsndpacks : ℕ
  pub tcpsndbytes : ℕ
  pub tcprcvpacks : ℕ
  pub tcprcvbytes : ℕ
  pub udpsndpacks : ℕ
  pub udpsndbytes : ℕ
  pub udprcvpacks : ℕ
  pub udprcvbytes : ℕ

-- What the file keeps between the calls: whether the socket is open, the semaphore known, the exit
-- file open and its first record mapped; the last sequence number, and two bits of supportflags.
pub record Netatop : Type 0 where
  pub netsock : Bool
  pub semid : Bool
  pub netexitfd : Bool
  pub nahp : Bool
  pub lastseq : ℕ
  pub netatop : Bool
  pub netatopd : Bool

-- What getsockopt answers for a task: the counters, or a failure with errno ENOPROTOOPT or EPERM
-- (unsupported), or with another.
pub data Answer : Type 0 where
  counted : Taskcount → Answer
  unsupported : Answer
  failed : Answer

-- The module is given up.
unfoldable pub give_up : Netatop → Netatop
give_up s = record s { netatop = false; netatopd = false; netsock = false }

unfoldable pub task_net : Taskcount → Net
task_net tc = record {
  tcpsnd = tc.tcpsndpacks;
  tcprcv = tc.tcprcvpacks;
  tcpssz = tc.tcpsndbytes;
  tcprsz = tc.tcprcvbytes;
  udpsnd = tc.udpsndpacks;
  udprcv = tc.udprcvpacks;
  udpssz = tc.udpsndbytes;
  udprsz = tc.udprcvbytes;
}

pub record Gathered : Type 0 where
  pub state : Netatop
  pub task : Tstat

unfoldable pub answered : Answer → Netatop → Tstat → Gathered
answered (counted tc) s tp = record { state = s; task = record tp { net = task_net tc } }
answered unsupported s tp = record { state = give_up s; task = record tp { net = no_net } }
answered failed s tp = record { state = s; task = record tp { net = no_net } }

-- `ask` is getsockopt for an id, of a thread group (true) or of a thread.
unfoldable pub netatop_gettask : (ℕ → Bool → Answer) → ℕ → Bool → Netatop → Tstat → Gathered
netatop_gettask ask id group s tp =
    if s.netatop
    then answered (ask id group) s tp
    else record { state = s; task = record tp { net = no_net } }
