-- ===== src/Atop/Photosyst/Devmap.antt =====
-- lvmmapname of Qt/FakeAtop/photosyst.c: the name of a logical volume by its device numbers, kept in a
-- table of 64 chains. What opendir, readdir, stat and malloc return is an argument.
pub mod Lookup
use practice.Base.{
  ℕ, ◌+◌, ◌-◌, ◌%◌, ◌^◌, Bool, true, false, ◌&&◌, ◌==◌, if◌then◌else◌, Option, none, some, List, [],
  ◌∷◌, get_or, set, take, replicate,
}
use practice.Base.Text.{Bytes}

abbrev pub numdmhash : ℕ
numdmhash = 64

abbrev pub maxdknam : ℕ
maxdknam = 32

-- DMHASH on unsigned int.
unfoldable pub dmhash : ℕ → ℕ → ℕ
dmhash x y = (x + y) % 2 ^ 32 % numdmhash

pub record Devmap : Type 0 where
  pub major : ℕ
  pub minor : ℕ
  pub name : Bytes

-- An entry of /dev/mapper: what stat says of it, and whether there was memory for it.
pub record MapEntry : Type 0 where
  pub d_name : Bytes
  pub stat_ok : Bool
  pub is_block : Bool
  pub has_memory : Bool
  pub major : ℕ
  pub minor : ℕ

-- strncpy with room for a terminating zero.
abbrev pub short_name : Bytes → Bytes
short_name s = take (maxdknam - 1) s

unfoldable pub add_devmap : MapEntry → List (List Devmap) → List (List Devmap)
add_devmap e devmaps =
    let dmp : Devmap = record { major = e.major; minor = e.minor; name = short_name e.d_name } in
    let hashix = dmhash e.major e.minor in
    if e.stat_ok && e.is_block && e.has_memory
    then set devmaps hashix (dmp ∷ get_or devmaps hashix [])
    else devmaps

unfoldable pub add_devmaps : List MapEntry → List (List Devmap) → List (List Devmap)
add_devmaps [] devmaps = devmaps
add_devmaps (e ∷ entries) devmaps = add_devmaps entries (add_devmap e devmaps)

unfoldable pub find_devmap : ℕ → ℕ → List Devmap → Option Bytes
find_devmap major minor [] = none
find_devmap major minor (dmp ∷ rest) =
    let more = find_devmap major minor rest in
    if dmp.major == major && dmp.minor == minor then some dmp.name else more

-- The static variables of the function.
pub record DevmapState : Type 0 where
  pub firstcall : Bool
  pub devmaps : List (List Devmap)

-- none where /dev/mapper cannot be opened.
unfoldable pub setup_devmaps : Option (List MapEntry) → DevmapState → DevmapState
setup_devmaps mapdir st =
    if st.firstcall
    then record {
      firstcall = false;
      devmaps = elim mapdir [ none ↦ st.devmaps | some entries ↦ add_devmaps entries st.devmaps ];
    }
    else st

-- The name that is given to the disk.
unfoldable pub lvmmapname : DevmapState → ℕ → ℕ → Bytes → Bytes
lvmmapname st major minor curname =
    elim (find_devmap major minor (get_or st.devmaps (dmhash major minor) [])) [
      | none ↦ short_name curname
      | some name ↦ short_name name
    ]

-- The table at the start of the program.
abbrev pub start_devmaps : DevmapState
start_devmaps = record { firstcall = true; devmaps = replicate numdmhash [] }
