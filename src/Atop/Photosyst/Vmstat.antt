-- ===== src/Atop/Photosyst/Vmstat.antt =====
-- /proc/vmstat in photosyst of Qt/FakeAtop/photosyst.c.
use practice.Base.{if◌then◌else◌, List, get_or}
use practice.Base.Text.{Bytes, codes, same_text}
use practice.Atop.Sstat.{Memstat}
use practice.Atop.System.Count.{plus}
use practice.Atop.Photosyst.Scan.{Scanned}
use practice.Atop.Photosyst.Lines.{Vars, each_lines, has_prefix}

unfoldable pub vmstat_line : Scanned → Memstat → Memstat
vmstat_line s mem =
    let count = get_or s.cnts 0 0 in
    if same_text (codes "pswpin") s.nam
    then record mem { swins = count }
    else if same_text (codes "pswpout") s.nam
    then record mem { swouts = count }
    else if has_prefix (codes "pgscan_") s.nam
    then record mem { pgscans = plus mem.pgscans count }
    else if has_prefix (codes "pgsteal_") s.nam
    then record mem { pgsteal = plus mem.pgsteal count }
    else if same_text (codes "allocstall") s.nam
    then record mem { allocstall = count }
    else mem

unfoldable pub read_vmstat : List Bytes → Vars Memstat → Vars Memstat
read_vmstat = each_lines 1 vmstat_line
