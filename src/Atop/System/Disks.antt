-- ===== src/Atop/System/Disks.antt =====
-- The disks, multiple devices and logical volumes in deviatsyst and totalsyst of
-- Qt/FakeAtop/deviate.c: the code has the same loop three times.
pub mod Changes
use practice.Base.{ℕ, suc, Bool, true, if◌then◌else◌, List, [], ◌∷◌, get_or, drop, length}
use practice.Base.Text.{Bytes, same_text}
use practice.Atop.Sstat.{Perdsk, Dskstat}
use practice.Atop.Deviate.{subcount}
use practice.Atop.System.Count.{plus}
use practice.Atop.System.Names.{named, seek}

abbrev pub no_perdsk : Perdsk
no_perdsk = record {
  name = [];
  nread = 0;
  nrsect = 0;
  nwrite = 0;
  nwsect = 0;
  io_ms = 0;
  avque = 0;
}

abbrev pub disk_name : Perdsk → Bytes
disk_name d = d.name

unfoldable pub disk_deviation : Perdsk → Perdsk → Perdsk
disk_deviation cur pre = record {
  name = cur.name;
  nread = subcount cur.nread pre.nread;
  nwrite = subcount cur.nwrite pre.nwrite;
  nrsect = subcount cur.nrsect pre.nrsect;
  nwsect = subcount cur.nwsect pre.nwsect;
  io_ms = subcount cur.io_ms pre.io_ms;
  avque = subcount cur.avque pre.avque;
}

-- The index in pre that the deviation is taken from.
unfoldable pub disk_index : Perdsk → List Perdsk → ℕ → ℕ
disk_index c pre j =
    if same_text c.name (disk_name (get_or pre j no_perdsk))
    then j
    else seek disk_name c.name (suc j) (drop (suc j) pre)

-- `pre->dsk.dsk[j].name` as a condition: the address of an array, which is never null.
abbrev pub array_address : Bytes → Bool
array_address name = true

-- The loop over cur from an entry on, j being the index into pre.
unfoldable pub disk_deviations : List Perdsk → List Perdsk → ℕ → List Perdsk
disk_deviations [] pre j = []
disk_deviations (c ∷ cs) pre j =
    let k = disk_index c pre j in
    let old = get_or pre k no_perdsk in
    let rest = disk_deviations cs pre (if array_address old.name then suc k else j) in
    if named c.name then disk_deviation c old ∷ rest else []

unfoldable pub dsk_deviation : Dskstat → Dskstat → Dskstat
dsk_deviation cur pre =
    let dsk = disk_deviations cur.dsk pre.dsk 0 in
    let mdd = disk_deviations cur.mdd pre.mdd 0 in
    let lvm = disk_deviations cur.lvm pre.lvm 0 in
    record {
      ndsk = length dsk;
      nmdd = length mdd;
      nlvm = length lvm;
      dsk = dsk;
      mdd = mdd;
      lvm = lvm;
    }

unfoldable pub disk_total : Perdsk → Perdsk → Perdsk
disk_total new tot = record {
  name = new.name;
  nread = plus tot.nread new.nread;
  nwrite = plus tot.nwrite new.nwrite;
  nrsect = plus tot.nrsect new.nrsect;
  nwsect = plus tot.nwsect new.nwsect;
  io_ms = plus tot.io_ms new.io_ms;
  avque = plus tot.avque new.avque;
}

abbrev pub first_disk : List Perdsk → Perdsk
first_disk [] = no_perdsk
first_disk (d ∷ ds) = d

abbrev pub next_disks : List Perdsk → List Perdsk
next_disks [] = []
next_disks (d ∷ ds) = ds

-- The entries of tot up to the one whose name is cleared.
unfoldable pub disk_totals : List Perdsk → List Perdsk → List Perdsk
disk_totals [] tot = []
disk_totals (d ∷ ds) tot =
    let rest = disk_totals ds (next_disks tot) in
    if named d.name then disk_total d (first_disk tot) ∷ rest else []

-- totalsyst ('d', new, tot)
unfoldable pub dsk_total : Dskstat → Dskstat → Dskstat
dsk_total new tot =
    let dsk = disk_totals new.dsk tot.dsk in
    let lvm = disk_totals new.lvm tot.lvm in
    let mdd = disk_totals new.mdd tot.mdd in
    record {
      ndsk = length dsk;
      nmdd = length mdd;
      nlvm = length lvm;
      dsk = dsk;
      mdd = mdd;
      lvm = lvm;
    }
