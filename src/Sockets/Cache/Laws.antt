-- ===== src/Sockets/Cache/Laws.antt =====
-- The table of chains as a map from inodes.
use practice.Base.{
  ℕ, ◌≤◌, ◌<◌, ◌≡◌, ◌≢◌, refl, Bool, true, false, not, ◌&&◌, List, [], ◌∷◌, arith, ◌==◌,
  if◌then◌else◌, length, get_or, length-set, get_or-set, get_or-replicate, length-replicate, zero,
  suc, ◌∙◌,
}
use practice.Base.Text.{Bytes, codes}
use practice.Sockets.Cache.{
  prg_hash_size, PrgNode, PrgCache, empty_cache, prg_hashit, safe_strncpy, scon_text, has,
  add_chain, prg_cache_add, prg_cache_get, prg_cache_get_con, clear_buckets, prg_cache_clear,
}
use practice.Sockets.Cache.Chain.{
  name_in-add_chain, name_in-absent, scon_in-add_chain, has-add_chain, count_in, count_in-absent,
  count_in-add_chain, free_chain-empty,
}

abbrev pub bucket : PrgCache → ℕ → List PrgNode
bucket c i = get_or c.hash i []

-- Some node of the table has the inode.
abbrev pub known : ℕ → PrgCache → Bool
known inode c = has inode (bucket c (prg_hashit inode))

-- There are 211 chains, and an inode stands at most once, and only in the chain of its hash.
pub record IsCache (c : PrgCache) : Type 0 where
  pub size : length c.hash ≡ prg_hash_size
  pub unique : (i j : ℕ) → count_in j (bucket c i) ≤ 1
  pub placed : (i j : ℕ) → prg_hashit j ≢ i → count_in j (bucket c i) ≡ 0

pub empty_cache-IsCache : IsCache empty_cache
unfolding count_in
empty_cache-IsCache = record {
  size = length-replicate {A = List PrgNode} prg_hash_size [];
  unique = λ i j. rw (get_or-replicate {A = List PrgNode} prg_hash_size i []) (omega arith);
  placed = λ i j h. rw (get_or-replicate {A = List PrgNode} prg_hash_size i []);
}

prg_hashit-lt : (inode : ℕ) → prg_hashit inode < prg_hash_size
unfolding prg_hashit
prg_hashit-lt inode = omega arith

module _ (memory : Bool) (inode : ℕ) (name scon : Bytes) (c : PrgCache) (valid : IsCache c) where
  abbrev pub node : PrgNode
  node = record { inode = inode; name = safe_strncpy name 20; scon = scon_text scon }

  pub bucket-add :
      (i : ℕ)
      → bucket (prg_cache_add memory inode name scon c) i ≡ (
          if prg_hashit inode == i
          then add_chain memory node (bucket c (prg_hashit inode))
          else bucket c i)
  unfolding prg_cache_add
  bucket-add i =
      let fits : prg_hashit inode < length c.hash =
        omega (arith, prg_hashit-lt inode, valid.size) in
      get_or-set c.hash (prg_hashit inode) i _ [] fits

  same_hash : (k : ℕ) → (prg_hashit inode == prg_hashit k) ≡ false → (inode == k) ≡ false
  unfolding prg_hashit
  same_hash k h = ground arith

  -- The first process that is added for an inode stays its owner: an addition gives the inode the
  -- name, cut to 19 characters, if there was memory and no node of the inode, and changes the answer
  -- for no other inode. The same holds of the security context.
  pub get-add :
      (j : ℕ)
      → (prg_cache_get j (prg_cache_add memory inode name scon c) ≡ (
          if memory && not (known inode c) && inode == j
          then safe_strncpy name 20
          else prg_cache_get j c))
        × (prg_cache_get_con j (prg_cache_add memory inode name scon c) ≡ (
            if memory && not (known inode c) && inode == j
            then scon_text scon
            else prg_cache_get_con j c))
  unfolding prg_cache_get prg_cache_get_con
  get-add j =
      let chain = bucket c (prg_hashit inode) in
      rw (bucket-add (prg_hashit j)) (
        ground (arith, name_in-add_chain memory node j chain, same_hash j),
        ground (arith, scon_in-add_chain memory node j chain, same_hash j),
      )

  -- Afterwards the inode is known, if there was memory for a node.
  pub known-add :
      (j : ℕ)
      → known j (prg_cache_add memory inode name scon c)
        ≡ (if memory && inode == j then true else known j c)
  known-add j =
      rw (bucket-add (prg_hashit j))
        (ground (arith, has-add_chain memory node j (bucket c (prg_hashit inode)), same_hash j))

  -- An addition to a well-formed cache gives a well-formed cache: 211 chains, and an inode at most
  -- once and only in the chain of its hash.
  pub add-IsCache : IsCache (prg_cache_add memory inode name scon c)
  add-IsCache =
      let chain = bucket c (prg_hashit inode) in
      record {
        size = unfold prg_cache_add in length-set c.hash _ _ ∙ valid.size;
        unique = λ i j. rw (bucket-add i) (
            ground (
              arith,
              count_in-add_chain memory node j chain,
              count_in-absent j chain,
              valid.unique i j,
              valid.unique (prg_hashit inode) j,
            ));
        placed = λ i j h.
            rw (bucket-add i)
              (ground (arith, count_in-add_chain memory node j chain, valid.placed i j h));
      }

pub get-unknown : (j : ℕ) (c : PrgCache) → known j c ≡ false → prg_cache_get j c ≡ codes "-"
unfolding prg_cache_get
get-unknown j c h = name_in-absent j _ h

pub unknown-empty : (j : ℕ) → known j empty_cache ≡ false
unfolding has
unknown-empty j = rw (get_or-replicate {A = List PrgNode} prg_hash_size (prg_hashit j) [])

clear_buckets-empty : (bs : List (List PrgNode)) (i : ℕ) → get_or (clear_buckets bs) i [] ≡ []
unfolding clear_buckets
clear_buckets-empty [] i = refl
clear_buckets-empty (b ∷ bs) zero = free_chain-empty b
clear_buckets-empty (b ∷ bs) (suc i) = clear_buckets-empty bs i

-- A cleared cache that had been filled answers "-" for every inode, and may be loaded again.
pub clear_lem :
    (c : PrgCache) (j : ℕ)
    → c.loaded ≡ 2
    → (prg_cache_get j (prg_cache_clear c) ≡ codes "-")
      × (prg_cache_get_con j (prg_cache_clear c) ≡ codes "-")
      × ((prg_cache_clear c).loaded ≡ 0)
unfolding prg_cache_get prg_cache_get_con prg_cache_clear
clear_lem c j h = rw (h, clear_buckets-empty) (refl, refl, refl)
