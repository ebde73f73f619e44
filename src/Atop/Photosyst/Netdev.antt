-- ===== src/Atop/Photosyst/Netdev.antt =====
-- /proc/net/dev in photosyst of Qt/FakeAtop/photosyst.c.
pub mod Bound
use practice.Base.{
  ℕ, zero, suc, ◌-◌, Bool, true, false, ◌==◌, leb, if◌then◌else◌, List, [], ◌∷◌, get_or, take,
  length,
}
use practice.Base.Text.{Bytes}
use practice.Atop.Sstat.{Perintf, Intfstat}
use practice.Atop.System.Interfaces.{no_perintf}
use practice.Atop.Photosyst.Scan.{Scanned, scan_line}

abbrev pub maxintf : ℕ
maxintf = 128

-- `if ( (cp = strchr(linebuf, ':')) != NULL) *cp = ' ';`
unfoldable pub blank_colon : Bytes → Bytes
blank_colon [] = []
blank_colon (c ∷ s) = let rest = blank_colon s in if c == b':' then b' ' ∷ s else c ∷ rest

-- The entry of a line with a name, which has 15 characters at most (%15s), and 16 numbers.
unfoldable pub intf_of : Scanned → Perintf
intf_of s = record no_perintf {
  name = s.nam;
  rbyte = get_or s.cnts 0 0;
  rpack = get_or s.cnts 1 0;
  rerrs = get_or s.cnts 2 0;
  rdrop = get_or s.cnts 3 0;
  rfifo = get_or s.cnts 4 0;
  rframe = get_or s.cnts 5 0;
  rcompr = get_or s.cnts 6 0;
  rmultic = get_or s.cnts 7 0;
  sbyte = get_or s.cnts 8 0;
  spack = get_or s.cnts 9 0;
  serrs = get_or s.cnts 10 0;
  sdrop = get_or s.cnts 11 0;
  sfifo = get_or s.cnts 12 0;
  scollis = get_or s.cnts 13 0;
  scarrier = get_or s.cnts 14 0;
  scompr = get_or s.cnts 15 0;
}

-- The loop, with room for `left` more entries. A line that is no full one leaves its entry to be
-- written by the next.
unfoldable pub netdev_lines : ℕ → List Bytes → List Perintf
netdev_lines left [] = []
netdev_lines zero (line ∷ lines) = []
netdev_lines (suc left) (line ∷ lines) =
    let s = scan_line 16 (blank_colon line) [] [] in
    let same = netdev_lines (suc left) lines in
    let rest = netdev_lines left lines in if s.nr == 17 then intf_of s ∷ rest else same

unfoldable pub read_netdev : List Bytes → Intfstat
read_netdev lines =
    let intf = netdev_lines (maxintf - 1) lines in record { nrintf = length intf; intf = intf }
