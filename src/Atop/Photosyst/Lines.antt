-- ===== src/Atop/Photosyst/Lines.antt =====
-- The loop over the lines of a file, with the variables of photosyst that it changes.
use practice.Base.{ℕ, Bool, true, false, ltb, ◌==◌, if◌then◌else◌, List, [], ◌∷◌}
use practice.Base.Text.{Bytes}
use practice.Atop.Photosyst.Scan.{Scanned, scan_line}

-- nam and cnts, an array of 64 numbers, keep their values from line to line and from file to file.
pub record Vars (A : Type 0) : Type 0 where
  pub nam : Bytes
  pub cnts : List ℕ
  pub si : A

-- A line with a name and a number at least; `put` is what the code does with it.
unfoldable pub each_line : {A : Type 0} → ℕ → (Scanned → A → A) → Bytes → Vars A → Vars A
each_line n put line v =
    let s = scan_line n line v.nam v.cnts in
    record { nam = s.nam; cnts = s.cnts; si = (if ltb s.nr 2 then v.si else put s v.si) }

unfoldable pub each_lines : {A : Type 0} → ℕ → (Scanned → A → A) → List Bytes → Vars A → Vars A
each_lines n put [] v = v
each_lines n put (line ∷ lines) v = each_lines n put lines (each_line n put line v)

-- strncmp (prefix, s, strlen (prefix)) == 0.
unfoldable pub has_prefix : Bytes → Bytes → Bool
has_prefix [] s = true
has_prefix (c ∷ prefix) [] = false
has_prefix (c ∷ prefix) (d ∷ s) = if c == d then has_prefix prefix s else false
