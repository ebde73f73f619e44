-- ===== src/Atop/System/Nfs.antt =====
-- The NFS counters and mounts in deviatsyst and totalsyst of Qt/FakeAtop/deviate.c.
pub mod Fresh
use practice.Base.{ℕ, zero, suc, Bool, true, if◌then◌else◌, leb, List, [], ◌∷◌, get_or, set}
use practice.Base.Text.{Bytes, same_text}
use practice.Atop.Sstat.{NfsServer, NfsClient, Pernfsmount, Nfsstat}
use practice.Atop.Deviate.{subcount}
use practice.Atop.System.Count.{plus}

unfoldable pub server_deviation : NfsServer → NfsServer → NfsServer
server_deviation cur pre = record {
  netcnt = subcount cur.netcnt pre.netcnt;
  netudpcnt = subcount cur.netudpcnt pre.netudpcnt;
  nettcpcnt = subcount cur.nettcpcnt pre.nettcpcnt;
  nettcpcon = subcount cur.nettcpcon pre.nettcpcon;
  rpccnt = subcount cur.rpccnt pre.rpccnt;
  rpcread = subcount cur.rpcread pre.rpcread;
  rpcwrite = subcount cur.rpcwrite pre.rpcwrite;
  rpcbadfmt = subcount cur.rpcbadfmt pre.rpcbadfmt;
  rpcbadaut = subcount cur.rpcbadaut pre.rpcbadaut;
  rpcbadcln = subcount cur.rpcbadcln pre.rpcbadcln;
  rchits = subcount cur.rchits pre.rchits;
  rcmiss = subcount cur.rcmiss pre.rcmiss;
  rcnoca = subcount cur.rcnoca pre.rcnoca;
  nrbytes = subcount cur.nrbytes pre.nrbytes;
  nwbytes = subcount cur.nwbytes pre.nwbytes;
}

unfoldable pub client_deviation : NfsClient → NfsClient → NfsClient
client_deviation cur pre = record {
  rpccnt = subcount cur.rpccnt pre.rpccnt;
  rpcread = subcount cur.rpcread pre.rpcread;
  rpcwrite = subcount cur.rpcwrite pre.rpcwrite;
  rpcretrans = subcount cur.rpcretrans pre.rpcretrans;
  rpcautrefresh = subcount cur.rpcautrefresh pre.rpcautrefresh;
}

abbrev pub no_mount : Pernfsmount
no_mount = record {
  mountdev = [];
  age = 0;
  bytesread = 0;
  byteswrite = 0;
  bytesdread = 0;
  bytesdwrite = 0;
  bytestotread = 0;
  bytestotwrite = 0;
  pagesmread = 0;
  pagesmwrite = 0;
}

abbrev pub mount_name : Pernfsmount → Bytes
mount_name m = m.mountdev

unfoldable pub mount_deviation : Pernfsmount → Pernfsmount → Pernfsmount
mount_deviation cur pre = record {
  mountdev = cur.mountdev;
  age = cur.age;
  bytesread = subcount cur.bytesread pre.bytesread;
  byteswrite = subcount cur.byteswrite pre.byteswrite;
  bytesdread = subcount cur.bytesdread pre.bytesdread;
  bytesdwrite = subcount cur.bytesdwrite pre.bytesdwrite;
  bytestotread = subcount cur.bytestotread pre.bytestotread;
  bytestotwrite = subcount cur.bytestotwrite pre.bytestotwrite;
  pagesmread = subcount cur.pagesmread pre.pagesmread;
  pagesmwrite = subcount cur.pagesmwrite pre.pagesmwrite;
}

-- `for (j=0; j < pre->nfs.nfsmounts.nrmounts; j++) if (strcmp(...) == 0) break;`, n entries from j on.
unfoldable pub seek_mount : Bytes → List Pernfsmount → ℕ → ℕ → ℕ
seek_mount dev pre zero j = j
seek_mount dev pre (suc n) j =
    let rest = seek_mount dev pre n (suc j) in
    if same_text dev (mount_name (get_or pre j no_mount)) then j else rest

unfoldable pub mount_index : Pernfsmount → List Pernfsmount → ℕ → ℕ → ℕ
mount_index c pre nrmounts j =
    if same_text c.mountdev (mount_name (get_or pre j no_mount))
    then j
    else seek_mount c.mountdev pre nrmounts 0

-- What the loop leaves in dev and in pre, in which it clears the entries of fresh mounts.
pub record MountPasses : Type 0 where
  pub dev : List Pernfsmount
  pub pre : List Pernfsmount

unfoldable pub mount_passes : ℕ → ℕ → ℕ → List Pernfsmount → List Pernfsmount → ℕ → MountPasses
mount_passes interval nrmounts zero cur pre j = record { dev = []; pre = pre }
mount_passes interval nrmounts (suc n) [] pre j = record { dev = []; pre = pre }
mount_passes interval nrmounts (suc n) (c ∷ cs) pre j =
    let k = mount_index c pre nrmounts j in
    let cleared = if leb c.age interval then set pre k no_mount else pre in
    let rest = mount_passes interval nrmounts n cs cleared (suc k) in
    record { dev = mount_deviation c (get_or cleared k no_mount) ∷ rest.dev; pre = rest.pre }

pub record NfsResult : Type 0 where
  pub dev : Nfsstat
  pub pre : Nfsstat

unfoldable pub deviate_nfs : ℕ → Nfsstat → Nfsstat → NfsResult
deviate_nfs interval cur pre =
    let passes = mount_passes interval pre.nrmounts cur.nrmounts cur.nfsmnt pre.nfsmnt 0 in
    record {
      dev = record {
        server = server_deviation cur.server pre.server;
        client = client_deviation cur.client pre.client;
        nrmounts = cur.nrmounts;
        nfsmnt = passes.dev;
      };
      pre = record pre { nfsmnt = passes.pre };
    }

unfoldable pub server_total : NfsServer → NfsServer → NfsServer
server_total new tot = record {
  rpccnt = plus tot.rpccnt new.rpccnt;
  rpcread = plus tot.rpcread new.rpcread;
  rpcwrite = plus tot.rpcwrite new.rpcwrite;
  rpcbadfmt = plus tot.rpcbadfmt new.rpcbadfmt;
  rpcbadaut = plus tot.rpcbadaut new.rpcbadaut;
  rpcbadcln = plus tot.rpcbadcln new.rpcbadcln;
  netcnt = plus tot.netcnt new.netcnt;
  nettcpcnt = plus tot.nettcpcnt new.nettcpcnt;
  netudpcnt = plus tot.netudpcnt new.netudpcnt;
  nettcpcon = plus tot.nettcpcon new.nettcpcon;
  rchits = plus tot.rchits new.rchits;
  rcmiss = plus tot.rcmiss new.rcmiss;
  rcnoca = plus tot.rcnoca new.rcnoca;
  nrbytes = plus tot.nrbytes new.nrbytes;
  nwbytes = plus tot.nwbytes new.nwbytes;
}

unfoldable pub client_total : NfsClient → NfsClient → NfsClient
client_total new tot = record {
  rpccnt = plus tot.rpccnt new.rpccnt;
  rpcread = plus tot.rpcread new.rpcread;
  rpcwrite = plus tot.rpcwrite new.rpcwrite;
  rpcretrans = plus tot.rpcretrans new.rpcretrans;
  rpcautrefresh = plus tot.rpcautrefresh new.rpcautrefresh;
}

-- The mounts stay what they were.
unfoldable pub nfs_total : Nfsstat → Nfsstat → Nfsstat
nfs_total new tot = record tot {
  server = server_total new.server tot.server;
  client = client_total new.client tot.client;
}
