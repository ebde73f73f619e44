-- ===== src/Sockets/Cache.antt =====
-- The cache from socket inodes to programs of Qt/ZMonitor/SocketMornitoring/zsocket.c: a table of 211
-- chains (prg_cache_add, prg_cache_get), with prg_cache_get_con and prg_cache_clear of
-- Qt/demo_netstat/main.c, which has the same table. The result of malloc is an argument.
pub mod Chain
pub mod Laws
pub mod History
use practice.Base.{
  ℕ, zero, suc, ◌+◌, ◌-◌, ◌%◌, Bool, true, false, List, [], ◌∷◌, ◌++◌, ltb, ◌==◌, if◌then◌else◌,
  length, get_or, set, take, drop, replicate,
}
use practice.Base.Text.{Bytes, codes}

abbrev pub prg_hash_size : ℕ
prg_hash_size = 211

abbrev pub progname_width : ℕ
progname_width = 20

abbrev pub selinux_width : ℕ
selinux_width = 50

pub record PrgNode : Type 0 where
  pub inode : ℕ
  pub name : Bytes
  pub scon : Bytes

-- prg_hash and prg_cache_loaded (0: not loaded, 1: loaded and empty, 2: something was added).
pub record PrgCache : Type 0 where
  pub hash : List (List PrgNode)
  pub loaded : ℕ

abbrev pub empty_cache : PrgCache
empty_cache = record { hash = replicate prg_hash_size []; loaded = 0 }

unfoldable pub prg_hashit : ℕ → ℕ
prg_hashit inode = inode % prg_hash_size

-- The text that stands in a buffer of the given size afterwards.
unfoldable pub safe_strncpy : Bytes → ℕ → Bytes
safe_strncpy src size = take (size - 1) src

-- `len` is strlen (scon) - 49; where it is above 0 the front of the text is cut off.
pub scon_text : Bytes → Bytes
unfolding safe_strncpy
scon_text scon =
    if ltb (selinux_width - 1) (length scon)
    then safe_strncpy (drop (length scon - (selinux_width - 1) + 1) scon) selinux_width
    else safe_strncpy scon selinux_width

pub has : ℕ → List PrgNode → Bool
has inode [] = false
has inode (pn ∷ rest) = if pn.inode == inode then true else has inode rest

-- The walk of prg_cache_add: it stops at a node of the inode, and else stores at the end.
pub add_chain : Bool → PrgNode → List PrgNode → List PrgNode
add_chain memory new [] = if memory then new ∷ [] else []
add_chain memory new (pn ∷ rest) =
    if pn.inode == new.inode then pn ∷ rest else pn ∷ add_chain memory new rest

unfoldable pub prg_cache_add : Bool → ℕ → Bytes → Bytes → PrgCache → PrgCache
unfolding prg_hashit safe_strncpy scon_text add_chain
prg_cache_add memory inode name scon c =
    let hi = prg_hashit inode in
    let new : PrgNode = record {
      inode = inode;
      name = safe_strncpy name progname_width;
      scon = scon_text scon;
    } in
    record { hash = set c.hash hi (add_chain memory new (get_or c.hash hi [])); loaded = 2 }

pub name_in : ℕ → List PrgNode → Bytes
name_in inode [] = codes "-"
name_in inode (pn ∷ rest) = if pn.inode == inode then pn.name else name_in inode rest

unfoldable pub prg_cache_get : ℕ → PrgCache → Bytes
unfolding prg_hashit name_in
prg_cache_get inode c = name_in inode (get_or c.hash (prg_hashit inode) [])

pub scon_in : ℕ → List PrgNode → Bytes
scon_in inode [] = codes "-"
scon_in inode (pn ∷ rest) = if pn.inode == inode then pn.scon else scon_in inode rest

unfoldable pub prg_cache_get_con : ℕ → PrgCache → Bytes
unfolding prg_hashit scon_in
prg_cache_get_con inode c = scon_in inode (get_or c.hash (prg_hashit inode) [])

-- The two loops: over the buckets, and freeing the nodes of each from its front.
pub free_chain : List PrgNode → List PrgNode
free_chain [] = []
free_chain (pn ∷ rest) = free_chain rest

pub clear_buckets : List (List PrgNode) → List (List PrgNode)
unfolding free_chain
clear_buckets [] = []
clear_buckets (b ∷ bs) = free_chain b ∷ clear_buckets bs

unfoldable pub prg_cache_clear : PrgCache → PrgCache
unfolding clear_buckets
prg_cache_clear c = record {
  hash = (if c.loaded == 2 then clear_buckets c.hash else c.hash);
  loaded = 0;
}
