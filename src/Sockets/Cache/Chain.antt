-- ===== src/Sockets/Cache/Chain.antt =====
-- One chain of the table.
use practice.Base.{
  ℕ, ◌≡◌, refl, Bool, true, false, not, ◌&&◌, List, [], ◌∷◌, arith, ◌==◌, if◌then◌else◌, ◌+◌,
}
use practice.Base.Text.{codes}
use practice.Sockets.Cache.{PrgNode, has, add_chain, name_in, scon_in, free_chain}

pub name_in-add_chain :
    (memory : Bool) (new : PrgNode) (j : ℕ) (chain : List PrgNode)
    → name_in j (add_chain memory new chain) ≡ (
        if memory && not (has new.inode chain) && new.inode == j then new.name else name_in j chain)
unfolding name_in add_chain has
name_in-add_chain memory new j [] = ground arith
name_in-add_chain memory new j (pn ∷ rest) = ground (arith, name_in-add_chain memory new j rest)

pub scon_in-add_chain :
    (memory : Bool) (new : PrgNode) (j : ℕ) (chain : List PrgNode)
    → scon_in j (add_chain memory new chain) ≡ (
        if memory && not (has new.inode chain) && new.inode == j then new.scon else scon_in j chain)
unfolding scon_in add_chain has
scon_in-add_chain memory new j [] = ground arith
scon_in-add_chain memory new j (pn ∷ rest) = ground (arith, scon_in-add_chain memory new j rest)

pub has-add_chain :
    (memory : Bool) (new : PrgNode) (j : ℕ) (chain : List PrgNode)
    → has j (add_chain memory new chain) ≡ (if memory && new.inode == j then true else has j chain)
unfolding add_chain has
has-add_chain memory new j [] = ground arith
has-add_chain memory new j (pn ∷ rest) = ground (arith, has-add_chain memory new j rest)

-- How often an inode stands in a chain.
unfoldable pub count_in : ℕ → List PrgNode → ℕ
count_in j [] = 0
count_in j (pn ∷ rest) = (if pn.inode == j then 1 else 0) + count_in j rest

pub count_in-absent : (j : ℕ) (chain : List PrgNode) → has j chain ≡ false → count_in j chain ≡ 0
unfolding has count_in
count_in-absent j [] h = refl
count_in-absent j (pn ∷ rest) h = ground (arith, count_in-absent j rest)

pub count_in-add_chain :
    (memory : Bool) (new : PrgNode) (j : ℕ) (chain : List PrgNode)
    → count_in j (add_chain memory new chain) ≡ (
        if memory && not (has new.inode chain) && new.inode == j
        then 1 + count_in j chain
        else count_in j chain)
unfolding count_in add_chain has
count_in-add_chain memory new j [] = ground arith
count_in-add_chain memory new j (pn ∷ rest) = ground (arith, count_in-add_chain memory new j rest)

pub free_chain-empty : (chain : List PrgNode) → free_chain chain ≡ []
unfolding free_chain
free_chain-empty [] = refl
free_chain-empty (pn ∷ rest) = free_chain-empty rest

pub name_in-absent :
    (j : ℕ) (chain : List PrgNode) → has j chain ≡ false → name_in j chain ≡ codes "-"
unfolding has name_in
name_in-absent j [] h = refl
name_in-absent j (pn ∷ rest) h = ground (arith, name_in-absent j rest)
