-- ===== src/Atop/Photosyst/Beancounters.antt =====
-- /proc/user_beancounters and /proc/vz/vestat, the containers, in photosyst of
-- Qt/FakeAtop/photosyst.c. A line of the first file is what sscanf reads of it.
pub mod Bound
use practice.Base.{
  ℕ, zero, suc, Bool, true, false, ◌==◌, leb, if◌then◌else◌, List, [], ◌∷◌, ◌++◌, length,
}
use practice.Base.Text.{Bytes, codes, same_text}
use practice.Atop.Sstat.{Percontainer, Contstat}

abbrev pub maxcontainer : ℕ
maxcontainer = 128

-- "%lu: %31s %lld" with all three, "%31s %lld" with both, or neither.
pub data BeanLine : Type 0 where
  new_container : ℕ → Bytes → ℕ → BeanLine
  resource : Bytes → ℕ → BeanLine
  other : BeanLine

unfoldable pub bean_count : Bytes → ℕ → Percontainer → Percontainer
bean_count label cnt c =
    if same_text (codes "numproc") label
    then record c { numproc = cnt }
    else if same_text (codes "physpages") label
    then record c { physpages = cnt }
    else c

abbrev pub empty_container : ℕ → Percontainer
empty_container ctid = record {
  ctid = ctid;
  numproc = 0;
  system = 0;
  user = 0;
  nice = 0;
  uptime = 0;
  physpages = 0;
}

-- What the loop leaves: the entries, and i + 1.
unfoldable pub bean_lines : List BeanLine → ℕ → List Percontainer → Percontainer → Contstat
bean_lines [] i done current = record { nrcontainer = suc i; cont = done ++ current ∷ [] }
bean_lines (new_container ctid label cnt ∷ lines) i done current =
    let rest =
      bean_lines lines (suc i) (done ++ current ∷ [])
        (bean_count label cnt (empty_container ctid)) in
    if leb maxcontainer (suc i)
    then record { nrcontainer = suc (suc i); cont = done ++ current ∷ [] }
    else rest
bean_lines (resource label cnt ∷ lines) i done current =
    bean_lines lines i done (bean_count label cnt current)
bean_lines (other ∷ lines) i done current = bean_lines lines i done current

-- Lines before the first container are passed over.
unfoldable pub read_beancounters : List BeanLine → Contstat
read_beancounters [] = record { nrcontainer = 0; cont = [] }
read_beancounters (new_container ctid label cnt ∷ lines) =
    bean_lines lines 0 [] (bean_count label cnt (empty_container ctid))
read_beancounters (resource label cnt ∷ lines) = read_beancounters lines
read_beancounters (other ∷ lines) = read_beancounters lines

-- A line of vz/vestat with the container id and eight numbers at least: user, nice, system, uptime.
pub record VestatLine : Type 0 where
  pub ctid : ℕ
  pub user : ℕ
  pub nice : ℕ
  pub system : ℕ
  pub uptime : ℕ

unfoldable pub vestat_line : VestatLine → List Percontainer → List Percontainer
vestat_line l [] = []
vestat_line l (c ∷ cs) =
    let rest = vestat_line l cs in
    if c.ctid == l.ctid
    then (record c { user = l.user; nice = l.nice; system = l.system; uptime = l.uptime }) ∷ cs
    else c ∷ rest

unfoldable pub read_vestat : List VestatLine → List Percontainer → List Percontainer
read_vestat [] cont = cont
read_vestat (l ∷ lines) cont = read_vestat lines (vestat_line l cont)
