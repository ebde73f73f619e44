-- ===== src/Atop/Photoproc/Smaps.antt =====
-- procsmaps of Qt/FakeAtop/photoproc.c: the proportional memory of a process from its file smaps.
use practice.Base.{ℕ, ◌+◌, ◌%◌, ◌^◌, Bool, Option, none, some, List, [], ◌∷◌, if◌then◌else◌, drop}
use practice.Base.Int.{negsuc}
use practice.Base.Text.{Bytes, codes}
use practice.Atop.Tstat.{Tstat}
use practice.Atop.Photosyst.Lines.{has_prefix}
use practice.Atop.Photoproc.Numbers.{as_signed, llu_or}

-- The lines that fgets returns, and whether it ended by an error.
pub record SmapsFile : Type 0 where
  pub lines : List Bytes
  pub ferror : Bool

-- pssval, which a line without a number leaves as it was, and the sum in 64 bits.
unfoldable pub pss_lines : List Bytes → ℕ → ℕ → ℕ
pss_lines [] pssval pmem = pmem
pss_lines (line ∷ lines) pssval pmem =
    let val = llu_or (drop 4 line) pssval in
    let other = pss_lines lines pssval pmem in
    let pss = pss_lines lines val ((pmem + val) % 2 ^ 64) in
    if has_prefix (codes "Pss:") line then pss else other

-- `pssval` is what the variable holds without a value.
unfoldable pub procsmaps : ℕ → Option SmapsFile → Tstat → Tstat
procsmaps pssval none t = record t { mem = record t.mem { pmem = negsuc 0 } }
procsmaps pssval (some file) t = record t {
  mem = record t.mem {
    pmem = (if file.ferror then negsuc 0 else as_signed 64 (pss_lines file.lines pssval 0));
  };
}
