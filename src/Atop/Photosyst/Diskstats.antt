-- ===== src/Atop/Photosyst/Diskstats.antt =====
-- isdisk, nullmodname and the loop over /proc/diskstats in photosyst of Qt/FakeAtop/photosyst.c. regexec
-- is an argument, and so is abbrevname1, which reads names of devfs. A line is what sscanf reads of it.
pub mod Bound
use practice.Base.{
  ℕ, zero, suc, ◌-◌, Bool, true, false, ltb, if◌then◌else◌, List, [], ◌∷◌, ◌++◌, length,
}
use practice.Base.Text.{Bytes, codes}
use practice.Atop.Sstat.{Perdsk, Dskstat}
use practice.Atop.Photosyst.Devmap.{DevmapState, lvmmapname, short_name}

abbrev pub maxdsk : ℕ
maxdsk = 1024

abbrev pub maxmdd : ℕ
maxmdd = 256

abbrev pub maxlvm : ℕ
maxlvm = 2048

pub data DiskType : Type 0 where
  nontype dsktype mddtype lvmtype : DiskType

-- (void *)0 or the function that gives the name.
pub data ModName : Type 0 where
  no_function null_mod_name lvm_map_name abbrev_name : ModName

pub record ValidDisk : Type 0 where
  pub regexp : Bytes
  pub modname : ModName
  pub retval : DiskType

abbrev disk_of : Bytes → ModName → DiskType → ValidDisk
disk_of regexp modname retval = record { regexp = regexp; modname = modname; retval = retval }

unfoldable pub validdisk : List ValidDisk
validdisk =
    disk_of (codes "^ram[0-9][0-9]*$") no_function nontype
    ∷ disk_of (codes "^loop[0-9][0-9]*$") no_function nontype
    ∷ disk_of (codes "^sd[a-z][a-z]*$") null_mod_name dsktype
    ∷ disk_of (codes "^dm-[0-9][0-9]*$") lvm_map_name lvmtype
    ∷ disk_of (codes "^md[0-9][0-9]*$") null_mod_name mddtype
    ∷ disk_of (codes "^vd[a-z][a-z]*$") null_mod_name dsktype
    ∷ disk_of (codes "^nvme[0-9][0-9]*n[0-9][0-9]*$") null_mod_name dsktype
    ∷ disk_of (codes "^nbd[0-9][0-9]*$") null_mod_name dsktype
    ∷ disk_of (codes "^hd[a-z]$") null_mod_name dsktype
    ∷ disk_of (codes "^rd/c[0-9][0-9]*d[0-9][0-9]*$") null_mod_name dsktype
    ∷ disk_of (codes "^cciss/c[0-9][0-9]*d[0-9][0-9]*$") null_mod_name dsktype
    ∷ disk_of (codes "^fio[a-z][a-z]*$") null_mod_name dsktype
    ∷ disk_of (codes "/host.*/bus.*/target.*/lun.*/disc") abbrev_name dsktype
    ∷ disk_of (codes "^xvd[a-z][a-z]*[0-9]*$") null_mod_name dsktype
    ∷ disk_of (codes "^dasd[a-z][a-z]*$") null_mod_name dsktype
    ∷ disk_of (codes "^mmcblk[0-9][0-9]*$") null_mod_name dsktype
    ∷ disk_of (codes "^emcpower[a-z][a-z]*$") null_mod_name dsktype
    ∷ []

-- "%d %d %255s %lld %*d %lld %*d %lld %*d %lld %*d %*d %lld %lld": with all nine values, or not.
pub record DiskLine : Type 0 where
  pub full : Bool
  pub major : ℕ
  pub minor : ℕ
  pub diskname : Bytes
  pub tmpdsk : Perdsk

-- The name that is left in *px, and the result.
pub record IsDisk : Type 0 where
  pub name : Bytes
  pub retval : DiskType

-- `if (n < max-1) table[n++] = tmpdsk;`
unfoldable pub add_disk : ℕ → Perdsk → List Perdsk → List Perdsk
add_disk max d table = if ltb (length table) (max - 1) then table ++ d ∷ [] else table

unfoldable pub stored_disk : DiskType → Perdsk → Dskstat → Dskstat
stored_disk nontype d s = s
stored_disk dsktype d s = record s { dsk = add_disk maxdsk d s.dsk }
stored_disk mddtype d s = record s { mdd = add_disk maxmdd d s.mdd }
stored_disk lvmtype d s = record s { lvm = add_disk maxlvm d s.lvm }

module _ (regexec : Bytes → Bytes → Bool) (abbrevname1 : Bytes → Bytes) (st : DevmapState) where
  unfoldable pub modified_name : ModName → ℕ → ℕ → Bytes → Bytes → Bytes
  modified_name no_function major minor curname old = old
  modified_name null_mod_name major minor curname old = short_name curname
  modified_name lvm_map_name major minor curname old = lvmmapname st major minor curname
  modified_name abbrev_name major minor curname old = abbrevname1 curname

  -- The loop over the table; `old` is the name in *px.
  unfoldable pub isdisk : List ValidDisk → ℕ → ℕ → Bytes → Bytes → IsDisk
  isdisk [] major minor curname old = record { name = old; retval = nontype }
  isdisk (d ∷ rest) major minor curname old =
      let more = isdisk rest major minor curname old in
      if regexec d.regexp curname
      then record { name = modified_name d.modname major minor curname old; retval = d.retval }
      else more

  -- The name in tmpdsk is the one of the line before, which a disk's own name replaces.
  unfoldable pub diskstats_line : DiskLine → Bytes → Dskstat → Dskstat
  diskstats_line l old s =
      let r = isdisk validdisk l.major l.minor l.diskname old in
      let t = l.tmpdsk in if l.full then stored_disk r.retval (record t { name = r.name }) s else s

  unfoldable pub diskstats_lines : List DiskLine → Bytes → Dskstat → Dskstat
  diskstats_lines [] old s = s
  diskstats_lines (l ∷ lines) old s =
      let r = isdisk validdisk l.major l.minor l.diskname old in
      diskstats_lines lines (if l.full then r.name else old) (diskstats_line l old s)

  -- The counts of the tables, and the entries up to the one whose name is cleared.
  unfoldable pub read_diskstats : List DiskLine → Bytes → Dskstat
  read_diskstats lines old =
      let s =
        diskstats_lines lines old
          (record { ndsk = 0; nmdd = 0; nlvm = 0; dsk = []; mdd = []; lvm = [] }) in
      record s { ndsk = length s.dsk; nmdd = length s.mdd; nlvm = length s.lvm }
