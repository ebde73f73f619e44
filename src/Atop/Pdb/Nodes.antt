-- ===== src/Atop/Pdb/Nodes.antt =====
-- Lists of nodes: membership, and taking one node out.
use practice.Base.{
  ℕ, ◌+◌, ◌≤◌, ◌≡◌, refl, Bool, true, false, not, ◌&&◌, ◌||◌, some, List, [], ◌∷◌, arith, ◌==◌,
  if◌then◌else◌,
}
use practice.Atop.Tstat.{Tstat}
use practice.Atop.Pdb.{unchain, first_match, same_task}

unfoldable pub mem : ℕ → List ℕ → Bool
mem a [] = false
mem a (b ∷ rest) = b == a || mem a rest

unfoldable pub count : ℕ → List ℕ → ℕ
count a [] = 0
count a (b ∷ rest) = (if b == a then 1 else 0) + count a rest

pub count-absent : (a : ℕ) (l : List ℕ) → mem a l ≡ false → count a l ≡ 0
unfolding mem count
count-absent a [] h = refl
count-absent a (b ∷ rest) h = ground (arith, count-absent a rest)

pub mem-count_zero : (a : ℕ) (l : List ℕ) → count a l ≡ 0 → mem a l ≡ false
unfolding mem count
mem-count_zero a [] h = refl
mem-count_zero a (b ∷ rest) h = ground (arith, mem-count_zero a rest)

pub mem-unchain :
    (a b : ℕ) (l : List ℕ) → count a l ≤ 1 → mem b (unchain a l) ≡ mem b l && not (a == b)
unfolding mem count unchain
mem-unchain a b [] h = refl
mem-unchain a b (c ∷ rest) h = ground (arith, mem-unchain a b rest, mem-count_zero a rest)

pub count-unchain_le : (a b : ℕ) (l : List ℕ) → count b (unchain a l) ≤ count b l
unfolding count unchain
count-unchain_le a b [] = omega arith
count-unchain_le a b (c ∷ rest) = ground (arith, count-unchain_le a b rest)

pub same_task_refl : (t : Tstat) → same_task t.gen.pid t.gen.isproc t ≡ true
unfolding same_task
same_task_refl t = ground arith

-- Where no other node of the chain is the same task, the first match is the node itself.
pub first_match_unique :
    (heap : ℕ → Tstat) (a : ℕ) (chain : List ℕ)
    → mem a chain ≡ true
    → ((b : ℕ)
        → mem b chain ≡ true
        → same_task (heap a).gen.pid (heap a).gen.isproc (heap b) ≡ true
        → b ≡ a)
    → first_match heap (heap a).gen.pid (heap a).gen.isproc chain ≡ some a
unfolding mem first_match
first_match_unique heap a [] m only = absurd (ground arith)
first_match_unique heap a (b ∷ rest) m only = ground (
  arith,
  only b,
  same_task_refl (heap a),
  first_match_unique heap a rest,
  λ (c : ℕ) (h : mem c rest ≡ true). only c (ground arith),
)

pub mem-count_pos : (a : ℕ) (l : List ℕ) → 1 ≤ count a l → mem a l ≡ true
unfolding mem count
mem-count_pos a [] h = absurd (omega arith)
mem-count_pos a (b ∷ rest) h = ground (arith, mem-count_pos a rest)

pub count-mem : (a : ℕ) (l : List ℕ) → mem a l ≡ true → 1 ≤ count a l
unfolding mem count
count-mem a [] h = ground arith
count-mem a (b ∷ rest) h = ground (arith, count-mem a rest)

pub same_task_symm :
    (t u : Tstat) → same_task t.gen.pid t.gen.isproc u ≡ same_task u.gen.pid u.gen.isproc t
unfolding same_task
same_task_symm t u = ground arith
