-- ===== src/Tests/System.antt =====
-- Two samples of a small system: disks, interfaces and mounts that come and go.
use practice.Base.{ℕ, refl, ◌≡◌, ◌≢◌, List, [], ◌∷◌, length, none}
use practice.Base.Text.{Bytes, codes, same_text}
use practice.Atop.Sstat.{Perdsk, Perintf, Intfstat, Pernfsmount, Nfsstat}
use practice.Atop.System.Disks.{no_perdsk, disk_name, disk_deviations}
use practice.Atop.System.Disks.Changes.{
  IsChange, IsChange.kept, IsChange.gone, IsChange.added, IsChange.ended, deviations_from,
  disk_deviations-IsChange, disk_deviations-forgets,
}
use practice.Atop.System.Interfaces.{no_perintf, with_ifprops, deviate_intf}
use practice.Atop.System.Interfaces.Resync.{intfs_since, deviate_intf-by_name}
use practice.Atop.System.Names.{by_name, IsDistinct}
use practice.Atop.System.Interfaces.{intf_name}
use practice.Atop.System.Nfs.{no_mount, mount_name, deviate_nfs}
use practice.Atop.System.Nfs.Fresh.{mounts_since, deviate_nfs-by_name}

abbrev disk : Bytes → ℕ → Perdsk
disk name n = record no_perdsk { name = name; nread = n }

abbrev sda : ℕ → Perdsk
sda n = disk (codes "sda") n

abbrev sdb : ℕ → Perdsk
sdb n = disk (codes "sdb") n

abbrev sdc : ℕ → Perdsk
sdc n = disk (codes "sdc") n

sda_absent : by_name disk_name (codes "sda") (sdb 9 ∷ sdc 2 ∷ []) ≡ none
unfolding by_name same_text
sda_absent = refl

-- sda is gone and sdc is new.
abbrev two_disks : IsChange (sda 5 ∷ sdb 6 ∷ []) (sdb 9 ∷ sdc 2 ∷ []) (sdb 6 ∷ no_perdsk ∷ [])
two_disks = gone refl sda_absent (kept refl refl (added refl ended))

disk_deviations-IsChange_example :
    disk_deviations (sdb 9 ∷ sdc 2 ∷ []) (sda 5 ∷ sdb 6 ∷ []) 0
    ≡ deviations_from (sdb 9 ∷ sdc 2 ∷ []) (sdb 6 ∷ no_perdsk ∷ [])
disk_deviations-IsChange_example = disk_deviations-IsChange two_disks

-- sda was added before sdb, which is then reported with the 9 reads since the start of the system.
sda_new : by_name disk_name (codes "sda") (sdb 6 ∷ []) ≡ none
unfolding by_name same_text
sda_new = refl

disk_deviations-forgets_example :
    disk_deviations (sda 1 ∷ sdb 9 ∷ []) (sdb 6 ∷ []) 0 ≡ sda 1 ∷ sdb 9 ∷ []
disk_deviations-forgets_example =
    disk_deviations-forgets (sda 1) (sdb 9 ∷ []) (sdb 6 ∷ []) 0 (refl, (refl, tt)) (refl, tt)
      sda_new

abbrev intf : Bytes → ℕ → Perintf
intf name n = record no_perintf { name = name; rbyte = n }

abbrev pub intfs : List Perintf → Intfstat
intfs l = record { nrintf = length l; intf = l }

abbrev before : Intfstat
before = intfs (intf (codes "lo") 100 ∷ intf (codes "eth0") 200 ∷ [])

abbrev after : Intfstat
after = intfs (intf (codes "eth0") 260 ∷ intf (codes "wlan0") 7 ∷ intf (codes "lo") 130 ∷ [])

before-IsDistinct : IsDistinct intf_name before.intf
unfolding by_name same_text
before-IsDistinct = (refl, refl, (refl, refl, tt))

deviate_intf-by_name_example :
    (before.intf ≡ [] → (deviate_intf [] after before).dev.intf ≡ with_ifprops [] after.intf)
    × (before.intf ≢ []
        → IsDistinct intf_name before.intf
        → (deviate_intf [] after before).dev.intf
          ≡ intfs_since before.intf (with_ifprops [] after.intf))
deviate_intf-by_name_example = deviate_intf-by_name [] after before (refl, (refl, (refl, tt)))

abbrev mount : Bytes → ℕ → ℕ → Pernfsmount
mount name age n = record no_mount { mountdev = name; age = age; bytesread = n }

abbrev pub mounts : List Pernfsmount → Nfsstat
mounts l = record {
  server = record {
    netcnt = 0;
    netudpcnt = 0;
    nettcpcnt = 0;
    nettcpcon = 0;
    rpccnt = 0;
    rpcbadfmt = 0;
    rpcbadaut = 0;
    rpcbadcln = 0;
    rpcread = 0;
    rpcwrite = 0;
    rchits = 0;
    rcmiss = 0;
    rcnoca = 0;
    nrbytes = 0;
    nwbytes = 0;
  };
  client = record { rpccnt = 0; rpcretrans = 0; rpcautrefresh = 0; rpcread = 0; rpcwrite = 0 };
  nrmounts = length l;
  nfsmnt = l;
}

abbrev mounts_before : Nfsstat
mounts_before = mounts (mount (codes "a:/x") 50 10 ∷ mount (codes "b:/y") 50 20 ∷ [])

-- b:/y was mounted again, a:/x continues.
abbrev mounts_after : Nfsstat
mounts_after = mounts (mount (codes "b:/y") 3 4 ∷ mount (codes "a:/x") 60 15 ∷ [])

mounts_before-IsDistinct : IsDistinct mount_name mounts_before.nfsmnt
unfolding by_name same_text
mounts_before-IsDistinct = (refl, refl, (refl, refl, tt))

mounts_after-IsDistinct : IsDistinct mount_name mounts_after.nfsmnt
unfolding by_name same_text
mounts_after-IsDistinct = (refl, refl, (refl, refl, tt))

deviate_nfs-by_name_example :
    (deviate_nfs 10 mounts_after mounts_before).dev.nfsmnt
    ≡ mounts_since 10 mounts_before.nfsmnt mounts_after.nfsmnt
deviate_nfs-by_name_example =
    deviate_nfs-by_name 10 mounts_after mounts_before refl refl mounts_after-IsDistinct
      mounts_before-IsDistinct
