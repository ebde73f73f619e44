-- ===== src/Atop/Photosyst/Netdev/Bound.antt =====
-- The table of interfaces never overflows, and holds the full lines of the file in their order.
use practice.Base.{
  ℕ, zero, suc, ◌-◌, ◌≡◌, refl, Bool-cases, inl, inr, true, ◌==◌, if◌then◌else◌, List, [], ◌∷◌,
  length, take, length-take, min, arith,
}
use practice.Base.Text.{Bytes}
use practice.Atop.Sstat.{Perintf}
use practice.Atop.System.Names.{named, IsAllNamed}
use practice.Atop.System.Interfaces.{intf_name}
use practice.Atop.Photosyst.Scan.{Scanned, scanned, scan_line, read_word, skip_space, read_counts}
use practice.Atop.Photosyst.Netdev.{maxintf, blank_colon, intf_of, netdev_lines, read_netdev}

abbrev pub line_of : Bytes → Scanned
line_of line = scan_line 16 (blank_colon line) [] []

-- The entries of the lines with a name and 16 numbers.
unfoldable pub full_lines : List Bytes → List Perintf
full_lines [] = []
full_lines (line ∷ lines) =
    let rest = full_lines lines in
    let s = line_of line in if s.nr == 17 then intf_of s ∷ rest else rest

netdev_lines-take :
    (lines : List Bytes) (left : ℕ) → netdev_lines left lines ≡ take left (full_lines lines)
unfolding netdev_lines full_lines
netdev_lines-take [] zero = refl
netdev_lines-take [] (suc left) = refl
netdev_lines-take (line ∷ lines) zero = refl
netdev_lines-take (line ∷ lines) (suc left) =
    let s = line_of line in
    elim (Bool-cases (s.nr == 17)) [
      | inl e ↦ rw (e, netdev_lines-take lines left) refl
      | inr e ↦ rw (e, netdev_lines-take lines (suc left)) refl
    ]

-- A line of which sscanf reads 17 values has a name.
scanned-named :
    (word : Bytes) (counts : List ℕ)
    → (let s = scanned word counts [] [] in s.nr == 17) ≡ true
    → named (let s = scanned word counts [] [] in s.nam) ≡ true
unfolding scanned
scanned-named [] counts h = absurd (ground arith)
scanned-named (c ∷ word) counts h = refl

take-IsAllNamed :
    (l : List Perintf) (n : ℕ) → IsAllNamed intf_name l → IsAllNamed intf_name (take n l)
take-IsAllNamed [] zero h = h
take-IsAllNamed [] (suc n) h = h
take-IsAllNamed (c ∷ cs) zero h = tt
take-IsAllNamed (c ∷ cs) (suc n) h = (h.0, take-IsAllNamed cs n h.1)

full_lines-IsAllNamed : (lines : List Bytes) → IsAllNamed intf_name (full_lines lines)
unfolding full_lines scan_line intf_of
full_lines-IsAllNamed [] = tt
full_lines-IsAllNamed (line ∷ lines) =
    let s = line_of line in
    let r = read_word (skip_space (blank_colon line)) in
    elim (Bool-cases (s.nr == 17)) [
      | inl e ↦ rw e (scanned-named r.value (read_counts 16 r.rest) e, full_lines-IsAllNamed lines)
      | inr e ↦ rw e (full_lines-IsAllNamed lines)
    ]

-- The table holds the interfaces of the first 127 full lines, in their order, so that the array of 128
-- always has an entry left for the empty name; no entry before that has an empty name.
pub read_netdev-take :
    (lines : List Bytes)
    → ((read_netdev lines).intf ≡ take (maxintf - 1) (full_lines lines))
      × ((read_netdev lines).nrintf ≡ min (maxintf - 1) (length (full_lines lines)))
      × IsAllNamed intf_name (read_netdev lines).intf
unfolding read_netdev
read_netdev-take lines =
    let e = netdev_lines-take lines (maxintf - 1) in
    (
      e,
      rw e (length-take (maxintf - 1) (full_lines lines)),
      rw e (take-IsAllNamed (full_lines lines) (maxintf - 1) (full_lines-IsAllNamed lines)),
    )
