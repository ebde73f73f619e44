-- ===== src/Atop/Photoproc/Io.antt =====
-- procio of Qt/FakeAtop/photoproc.c: the disk transfers of a task from its file io.
use practice.Base.{ℕ, ◌/◌, Bool, true, false, Option, none, some, List, [], ◌∷◌, if◌then◌else◌}
use practice.Base.Text.{Bytes, codes}
use practice.Atop.Tstat.{Tstat}
use practice.Atop.Photosyst.Scan.{skip_space, read_word}
use practice.Atop.Photosyst.Lines.{has_prefix}
use practice.Atop.Photoproc.Numbers.{llu_or}

pub record Sectors : Type 0 where
  pub dskrsz : ℕ
  pub dskwsz : ℕ
  pub dskcwsz : ℕ

-- sscanf (line, "%*s %llu", &bytes), and the bytes in sectors.
unfoldable pub sectors_of : Bytes → ℕ → ℕ
sectors_of line old = llu_or (read_word (skip_space line)).rest old / 512

unfoldable pub io_line : Bytes → Sectors → Sectors
io_line line v =
    if has_prefix (codes "read_bytes:") line
    then record v { dskrsz = sectors_of line v.dskrsz }
    else if has_prefix (codes "write_bytes:") line
    then record v { dskwsz = sectors_of line v.dskwsz }
    else if has_prefix (codes "cancelled_write_bytes:") line
    then record v { dskcwsz = sectors_of line v.dskcwsz }
    else v

unfoldable pub io_lines : List Bytes → Sectors → Sectors
io_lines [] v = v
io_lines (line ∷ lines) v = io_lines lines (io_line line v)

unfoldable pub io_task : Sectors → Tstat → Tstat
io_task v t = record t {
  dsk = record { rsz = v.dskrsz; rio = v.dskrsz; wsz = v.dskwsz; wio = v.dskwsz; cwsz = v.dskcwsz };
}

-- The counters stay as they are without the statistics and without the file; procio never fails.
unfoldable pub procio : Bool → Option (List Bytes) → Tstat → Tstat
procio false file t = t
procio true none t = t
procio true (some lines) t =
    io_task (io_lines lines (record { dskrsz = 0; dskwsz = 0; dskcwsz = 0 })) t
