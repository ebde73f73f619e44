-- ===== src/Atop/System.antt =====
-- deviatsyst and totalsyst of Qt/FakeAtop/deviate.c: what the system did between two samples, and
-- the sum of such deviations. Each child module has one part of struct sstat.
pub mod Count
pub mod Names
pub mod Cpu
pub mod Memory
pub mod Network
pub mod Disks
pub mod Properties
pub mod Interfaces
pub mod Nfs
pub mod Containers
pub mod Sums
use practice.Base.{ℕ, Bool, ◌==◌, if◌then◌else◌, List}
use practice.Atop.Sstat.{Sstat}
use practice.Atop.System.Cpu.{cpu_deviation, cpu_total}
use practice.Atop.System.Memory.{mem_deviation, mem_total}
use practice.Atop.System.Network.{net_deviation, net_total}
use practice.Atop.System.Disks.{dsk_deviation, dsk_total}
use practice.Atop.System.Interfaces.{deviate_intf, intfstat_total}
use practice.Atop.System.Properties.{Ifprop}
use practice.Atop.System.Nfs.{deviate_nfs, nfs_total}
use practice.Atop.System.Containers.{cfs_deviation, www_deviation, www_total}

-- *dev after the call, with *cur and *pre, which the call changes too.
pub record SystResult : Type 0 where
  pub dev : Sstat
  pub cur : Sstat
  pub pre : Sstat

module _ (httpstats : Bool) where
  -- With the table of interfaces that initifprop fills.
  unfoldable pub deviatsyst : List Ifprop → Sstat → Sstat → Sstat → ℕ → SystResult
  deviatsyst ifprops cur pre dev interval =
      let interfaces = deviate_intf ifprops cur.intf pre.intf in
      let nfs = deviate_nfs interval cur.nfs pre.nfs in
      record {
        dev = record {
          cpu = cpu_deviation cur.cpu pre.cpu dev.cpu;
          mem = mem_deviation cur.mem pre.mem;
          net = net_deviation cur.net pre.net;
          intf = interfaces.dev;
          dsk = dsk_deviation cur.dsk pre.dsk;
          nfs = nfs.dev;
          cfs = cfs_deviation cur.cfs pre.cfs;
          www = (if httpstats then www_deviation cur.www pre.www dev.www else dev.www);
        };
        cur = record cur { intf = interfaces.cur };
        pre = record pre { intf = interfaces.pre; nfs = nfs.pre };
      }

  unfoldable pub totalsyst : ℕ → Sstat → Sstat → Sstat
  totalsyst category new tot =
      if category == b'c'
      then record tot { cpu = cpu_total new.cpu tot.cpu }
      else if category == b'm'
      then record tot { mem = mem_total new.mem tot.mem }
      else if category == b'n'
      then record tot {
        nfs = nfs_total new.nfs tot.nfs;
        net = net_total new.net tot.net;
        intf = intfstat_total new.intf tot.intf;
        www = (if httpstats then www_total new.www tot.www else tot.www);
      }
      else if category == b'd'
      then record tot { dsk = dsk_total new.dsk tot.dsk }
      else tot
