-- ===== src/Atop/Photosyst/Meminfo.antt =====
-- /proc/meminfo and /proc/vmmemctl in photosyst of Qt/FakeAtop/photosyst.c. The numbers of the files are
-- below 2^53, so that a number of kilobytes is not negative when it is taken as bytes.

use practice.Base.{ℕ, ◌-◌, ◌*◌, ◌/◌, ◌%◌, ◌==◌, if◌then◌else◌, List, [], ◌∷◌, get_or}
use practice.Base.Text.{Bytes, codes, same_text}
use practice.Atop.Sstat.{Memstat}
use practice.Atop.Deviate.{count_mod}
use practice.Atop.Photosyst.Scan.{Scanned, scan_line}
use practice.Atop.Photosyst.Lines.{Vars, each_lines}

-- (count_t) -1.
abbrev pub unset : ℕ
unset = count_mod - 1

unfoldable pub meminfo_start : Memstat → Memstat
meminfo_start mem = record mem {
  physmem = unset;
  freemem = unset;
  buffermem = unset;
  cachemem = unset;
  slabmem = 0;
  slabreclaim = 0;
  shmem = 0;
  totswap = unset;
  freeswap = unset;
  committed = 0;
}

unfoldable pub meminfo_line : ℕ → Scanned → Memstat → Memstat
meminfo_line pagesize s mem =
    let kilobytes = get_or s.cnts 0 0 * 1024 % count_mod / pagesize in
    if same_text (codes "Mem:") s.nam
    then record mem {
      physmem = get_or s.cnts 0 0 / pagesize;
      freemem = get_or s.cnts 2 0 / pagesize;
      buffermem = get_or s.cnts 4 0 / pagesize;
    }
    else if same_text (codes "Swap:") s.nam
    then record mem {
      totswap = get_or s.cnts 0 0 / pagesize;
      freeswap = get_or s.cnts 2 0 / pagesize;
    }
    else if same_text (codes "Cached:") s.nam
    then record mem { cachemem = (if mem.cachemem == unset then kilobytes else mem.cachemem) }
    else if same_text (codes "Dirty:") s.nam
    then record mem { cachedrt = kilobytes }
    else if same_text (codes "MemTotal:") s.nam
    then record mem { physmem = (if mem.physmem == unset then kilobytes else mem.physmem) }
    else if same_text (codes "MemFree:") s.nam
    then record mem { freemem = (if mem.freemem == unset then kilobytes else mem.freemem) }
    else if same_text (codes "Buffers:") s.nam
    then record mem { buffermem = (if mem.buffermem == unset then kilobytes else mem.buffermem) }
    else if same_text (codes "Shmem:") s.nam
    then record mem { shmem = kilobytes }
    else if same_text (codes "SwapTotal:") s.nam
    then record mem { totswap = (if mem.totswap == unset then kilobytes else mem.totswap) }
    else if same_text (codes "SwapFree:") s.nam
    then record mem { freeswap = (if mem.freeswap == unset then kilobytes else mem.freeswap) }
    else if same_text (codes "Slab:") s.nam
    then record mem { slabmem = kilobytes }
    else if same_text (codes "SReclaimable:") s.nam
    then record mem { slabreclaim = kilobytes }
    else if same_text (codes "Committed_AS:") s.nam
    then record mem { committed = kilobytes }
    else if same_text (codes "CommitLimit:") s.nam
    then record mem { commitlim = kilobytes }
    else if same_text (codes "HugePages_Total:") s.nam
    then record mem { tothugepage = get_or s.cnts 0 0 }
    else if same_text (codes "HugePages_Free:") s.nam
    then record mem { freehugepage = get_or s.cnts 0 0 }
    else if same_text (codes "Hugepagesize:") s.nam
    then record mem { hugepagesz = get_or s.cnts 0 0 * 1024 % count_mod }
    else mem

-- The file, where it can be opened.
unfoldable pub read_meminfo : ℕ → List Bytes → Vars Memstat → Vars Memstat
read_meminfo pagesize = each_lines 10 (meminfo_line pagesize)

-- The loop ends at the first line `current:`; the result of sscanf is not looked at.
unfoldable pub read_vmmemctl : List Bytes → Vars Memstat → Vars Memstat
read_vmmemctl [] v = v
read_vmmemctl (line ∷ lines) v =
    let s = scan_line 1 line v.nam v.cnts in
    let mem = v.si in
    let rest = read_vmmemctl lines (record v { nam = s.nam; cnts = s.cnts }) in
    if same_text (codes "current:") s.nam
    then record { nam = s.nam; cnts = s.cnts; si = record mem { vmwballoon = get_or s.cnts 0 0 } }
    else rest
