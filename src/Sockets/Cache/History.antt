-- ===== src/Sockets/Cache/History.antt =====
-- The cache against the sequence of additions that filled it.
use practice.Base.{ℕ, ◌≡◌, ◌++◌, refl, Bool, ◌&&◌, List, [], ◌∷◌, arith, ◌==◌, if◌then◌else◌, ◌∙◌}
use practice.Base.Text.{Bytes, codes}
use practice.Sockets.Cache.{PrgCache, empty_cache, safe_strncpy, prg_cache_add, prg_cache_get}
use practice.Sockets.Cache.Laws.{
  IsCache, known, known-add, get-add, get-unknown, known-add, unknown-empty, add-IsCache,
  empty_cache-IsCache,
}

-- The arguments of an addition, and whether its malloc succeeds.
pub record Entry : Type 0 where
  pub memory : Bool
  pub inode : ℕ
  pub name : Bytes
  pub scon : Bytes

-- prg_cache_add for each entry in turn.
pub add_all : List Entry → PrgCache → PrgCache
add_all [] c = c
add_all (e ∷ rest) c = add_all rest (prg_cache_add e.memory e.inode e.name e.scon c)

-- The name of the first entry of an inode that there was memory for.
unfoldable pub first_owner : ℕ → List Entry → Bytes
first_owner j [] = codes "-"
first_owner j (e ∷ rest) =
    if e.memory && e.inode == j then safe_strncpy e.name 20 else first_owner j rest

add_all_lem :
    (entries : List Entry) (c : PrgCache) (j : ℕ)
    → IsCache c
    → prg_cache_get j (add_all entries c)
      ≡ (if known j c then prg_cache_get j c else first_owner j entries)
unfolding add_all first_owner
add_all_lem [] c j valid = ground (arith, get-unknown j c)
add_all_lem (e ∷ rest) c j valid =
    add_all_lem rest (prg_cache_add e.memory e.inode e.name e.scon c) j
      (add-IsCache e.memory e.inode e.name e.scon c valid)
    ∙ ground (
      arith,
      known-add e.memory e.inode e.name e.scon c valid j,
      get-add e.memory e.inode e.name e.scon c valid j,
    )

-- The same cache with the flag that prg_cache_load sets first.
abbrev pub loaded_cache : PrgCache
loaded_cache = record empty_cache { loaded = 1 }

loaded_cache-IsCache : IsCache loaded_cache
loaded_cache-IsCache =
    let v = empty_cache-IsCache in record { size = v.size; unique = v.unique; placed = v.placed }

pub get-add_all_loaded :
    (entries : List Entry) (j : ℕ)
    → prg_cache_get j (add_all entries loaded_cache) ≡ first_owner j entries
get-add_all_loaded entries j =
    add_all_lem entries loaded_cache j loaded_cache-IsCache ∙ rw (unknown-empty j)

-- After any sequence of additions to the empty cache, with any contexts and with malloc failing in any
-- of them, the answer for an inode is the name, cut to 19 characters, of the first addition for it
-- whose malloc succeeded, and "-" if there was none.
pub get-add_all :
    (entries : List Entry) (j : ℕ)
    → prg_cache_get j (add_all entries empty_cache) ≡ first_owner j entries
get-add_all entries j = add_all_lem entries empty_cache j empty_cache-IsCache ∙ rw (unknown-empty j)

pub add_all-nil : (c : PrgCache) → c ≡ add_all [] c
unfolding add_all
add_all-nil c = refl

pub add_all-cons :
    (e : Entry) (rest : List Entry) (c : PrgCache)
    → add_all (e ∷ rest) c ≡ add_all rest (prg_cache_add e.memory e.inode e.name e.scon c)
unfolding add_all
add_all-cons e rest c = refl

pub add_all-append :
    (xs ys : List Entry) (c : PrgCache) → add_all (xs ++ ys) c ≡ add_all ys (add_all xs c)
unfolding add_all
add_all-append [] ys c = refl
add_all-append (x ∷ xs) ys c = add_all-append xs ys (prg_cache_add x.memory x.inode x.name x.scon c)
