-- ===== src/Atop/Photosyst/Diskstats/Bound.antt =====
-- The tables of the disks never overflow.
use practice.Base.{
  ℕ, ◌<◌, Bool-cases, inl, inr, Bool, List, [], ◌∷◌, length, length-append, arith, if◌then◌else◌,
}
use practice.Base.Text.{Bytes}
use practice.Atop.Sstat.{Perdsk, Dskstat}
use practice.Atop.Photosyst.Devmap.{DevmapState}
use practice.Atop.Photosyst.Diskstats.{
  maxdsk, maxmdd, maxlvm, DiskType, DiskType.nontype, DiskType.dsktype, DiskType.mddtype,
  DiskType.lvmtype, DiskLine, validdisk, isdisk, add_disk, stored_disk, diskstats_line,
  diskstats_lines, read_diskstats,
}

-- Each table leaves an entry for the empty name.
pub record IsBounded (s : Dskstat) : Type 0 where
  pub disks : length s.dsk < maxdsk
  pub devices : length s.mdd < maxmdd
  pub volumes : length s.lvm < maxlvm

add_disk-lt :
    (max : ℕ) (d : Perdsk) (table : List Perdsk)
    → length table < max
    → length (add_disk max d table) < max
unfolding add_disk
add_disk-lt max d table h = let l = length-append table (d ∷ []) in ground (arith, l)

stored_disk-IsBounded :
    (t : DiskType) (d : Perdsk) (s : Dskstat) → IsBounded s → IsBounded (stored_disk t d s)
unfolding stored_disk
stored_disk-IsBounded nontype d s h = h
stored_disk-IsBounded dsktype d s h = record {
  disks = add_disk-lt maxdsk d s.dsk h.disks;
  devices = h.devices;
  volumes = h.volumes;
}
stored_disk-IsBounded mddtype d s h = record {
  disks = h.disks;
  devices = add_disk-lt maxmdd d s.mdd h.devices;
  volumes = h.volumes;
}
stored_disk-IsBounded lvmtype d s h = record {
  disks = h.disks;
  devices = h.devices;
  volumes = add_disk-lt maxlvm d s.lvm h.volumes;
}

module _ (regexec : Bytes → Bytes → Bool) (abbrevname1 : Bytes → Bytes) (st : DevmapState) where
  diskstats_lines-IsBounded :
      (lines : List DiskLine) (old : Bytes) (s : Dskstat)
      → IsBounded s
      → IsBounded (diskstats_lines regexec abbrevname1 st lines old s)
  unfolding diskstats_lines diskstats_line
  diskstats_lines-IsBounded [] old s h = h
  diskstats_lines-IsBounded (l ∷ lines) old s h =
      let r = isdisk regexec abbrevname1 st validdisk l.major l.minor l.diskname old in
      let t = l.tmpdsk in
      let d : Perdsk = record t { name = r.name } in
      diskstats_lines-IsBounded lines (if l.full then r.name else old)
        (if l.full then stored_disk r.retval d s else s)
        (elim (Bool-cases l.full) [
          | inl e ↦ rw e (stored_disk-IsBounded r.retval d s h)
          | inr e ↦ rw e h
        ])

  -- Whatever the file holds, and whatever regexec recognizes, at most 1023 disks, 255 multiple devices
  -- and 2047 logical volumes are stored, so that each array has an entry left for the empty name.
  pub read_diskstats-IsBounded :
      (lines : List DiskLine) (old : Bytes)
      → IsBounded (read_diskstats regexec abbrevname1 st lines old)
  unfolding read_diskstats
  read_diskstats-IsBounded lines old =
      let h =
        diskstats_lines-IsBounded lines old
          (record { ndsk = 0; nmdd = 0; nlvm = 0; dsk = []; mdd = []; lvm = [] })
          (record { disks = omega arith; devices = omega arith; volumes = omega arith }) in
      record { disks = h.disks; devices = h.devices; volumes = h.volumes }
