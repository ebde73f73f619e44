-- ===== src/Atop/Photosyst/Rpc.antt =====
-- /proc/net/rpc/nfsd, /proc/net/rpc/nfs and /proc/self/mountstats in photosyst of
-- Qt/FakeAtop/photosyst.c.
use practice.Base.{ℕ, zero, suc, ◌-◌, ltb, if◌then◌else◌, List, [], ◌∷◌, get_or, replicate}
use practice.Base.Text.{Bytes, codes, same_text}
use practice.Atop.Sstat.{NfsServer, NfsClient, Pernfsmount}
use practice.Atop.System.Count.{plus}
use practice.Atop.System.Nfs.{no_mount}
use practice.Atop.Photosyst.Scan.{Scanned, scan_line}
use practice.Atop.Photosyst.Lines.{has_prefix}

-- The loop over the lines, in which cnt is cleared for each line. A line without a label and a number
-- is passed over, so that the label of the line before is not looked at.
unfoldable pub rpc_lines : {A : Type 0} → ℕ → (Scanned → A → A) → List Bytes → A → A
rpc_lines n put [] a = a
rpc_lines n put (line ∷ lines) a =
    let s = scan_line n line [] (replicate n 0) in
    rpc_lines n put lines (if ltb s.nr 2 then a else put s a)

unfoldable pub server_line : Scanned → NfsServer → NfsServer
server_line s n =
    if same_text (codes "rc") s.nam
    then record n {
      rchits = get_or s.cnts 0 0;
      rcmiss = get_or s.cnts 1 0;
      rcnoca = get_or s.cnts 2 0;
    }
    else if same_text (codes "io") s.nam
    then record n { nrbytes = get_or s.cnts 0 0; nwbytes = get_or s.cnts 1 0 }
    else if same_text (codes "net") s.nam
    then record n {
      netcnt = get_or s.cnts 0 0;
      netudpcnt = get_or s.cnts 1 0;
      nettcpcnt = get_or s.cnts 2 0;
      nettcpcon = get_or s.cnts 3 0;
    }
    else if same_text (codes "rpc") s.nam
    then record n {
      rpccnt = get_or s.cnts 0 0;
      rpcbadfmt = get_or s.cnts 1 0;
      rpcbadaut = get_or s.cnts 2 0;
      rpcbadcln = get_or s.cnts 3 0;
    }
    else if same_text (codes "proc2") s.nam
    then record n {
      rpcread = plus n.rpcread (get_or s.cnts 7 0);
      rpcwrite = plus n.rpcwrite (get_or s.cnts 9 0);
    }
    else if same_text (codes "proc3") s.nam
    then record n {
      rpcread = plus n.rpcread (get_or s.cnts 7 0);
      rpcwrite = plus n.rpcwrite (get_or s.cnts 8 0);
    }
    else if same_text (codes "proc4ops") s.nam
    then record n {
      rpcread = plus n.rpcread (get_or s.cnts 26 0);
      rpcwrite = plus n.rpcwrite (get_or s.cnts 39 0);
    }
    else n

unfoldable pub read_nfsd : List Bytes → NfsServer → NfsServer
read_nfsd = rpc_lines 40 server_line

unfoldable pub client_line : Scanned → NfsClient → NfsClient
client_line s n =
    if same_text (codes "rpc") s.nam
    then record n {
      rpccnt = get_or s.cnts 0 0;
      rpcretrans = get_or s.cnts 1 0;
      rpcautrefresh = get_or s.cnts 2 0;
    }
    else if same_text (codes "proc2") s.nam
    then record n {
      rpcread = plus n.rpcread (get_or s.cnts 7 0);
      rpcwrite = plus n.rpcwrite (get_or s.cnts 9 0);
    }
    else if same_text (codes "proc3") s.nam
    then record n {
      rpcread = plus n.rpcread (get_or s.cnts 7 0);
      rpcwrite = plus n.rpcwrite (get_or s.cnts 8 0);
    }
    else if same_text (codes "proc4") s.nam
    then record n {
      rpcread = plus n.rpcread (get_or s.cnts 2 0);
      rpcwrite = plus n.rpcwrite (get_or s.cnts 3 0);
    }
    else n

unfoldable pub read_nfs : List Bytes → NfsClient → NfsClient
read_nfs = rpc_lines 10 client_line

abbrev pub maxnfsmount : ℕ
maxnfsmount = 64

-- A line "device %127s mounted on %*s with fstype %31s", or any other one.
pub data MountLine : Type 0 where
  device : Bytes → Bytes → MountLine
  other : Bytes → MountLine

-- The variables, and the entry i, which is in work.
pub record MountState : Type 0 where
  pub mountdev : Bytes
  pub fstype : Bytes
  pub label : Bytes
  pub cnt : List ℕ
  pub current : Pernfsmount

unfoldable pub mount_age : Scanned → Bytes → Pernfsmount → Pernfsmount
mount_age s mountdev m =
    if same_text (codes "age:") s.nam
    then record m { mountdev = mountdev; age = get_or s.cnts 0 0 }
    else m

unfoldable pub mount_bytes : Scanned → Pernfsmount → Pernfsmount
mount_bytes s m = record m {
  bytesread = get_or s.cnts 0 0;
  byteswrite = get_or s.cnts 1 0;
  bytesdread = get_or s.cnts 2 0;
  bytesdwrite = get_or s.cnts 3 0;
  bytestotread = get_or s.cnts 4 0;
  bytestotwrite = get_or s.cnts 5 0;
  pagesmread = get_or s.cnts 6 0;
  pagesmwrite = get_or s.cnts 7 0;
}

-- The entries that the loop finishes, with room for `left` more.
unfoldable pub mount_lines : ℕ → List MountLine → MountState → List Pernfsmount
mount_lines left [] v = []
mount_lines zero (line ∷ lines) v = []
mount_lines (suc left) (device mountdev fstype ∷ lines) v =
    mount_lines (suc left) lines (record v { mountdev = mountdev; fstype = fstype })
mount_lines (suc left) (other line ∷ lines) v =
    let s = scan_line 8 line v.label v.cnt in
    let scanned = record v { label = s.nam; cnt = s.cnts } in
    let aged = mount_age s v.mountdev v.current in
    let full = mount_bytes s aged in
    let skipped = mount_lines (suc left) lines v in
    let unlabelled = mount_lines (suc left) lines scanned in
    let going_on = mount_lines (suc left) lines (record scanned { current = aged }) in
    let rest = mount_lines left lines (record scanned { current = no_mount }) in
    if has_prefix (codes "nfs") v.fstype
    then (if ltb s.nr 2
        then unlabelled
        else if same_text (codes "bytes:") s.nam
        then full ∷ rest
        else going_on)
    else skipped

-- The entries and nrmounts, with what the variables held before.
unfoldable pub read_mountstats : List MountLine → MountState → List Pernfsmount
read_mountstats lines v = mount_lines (maxnfsmount - 1) lines v
