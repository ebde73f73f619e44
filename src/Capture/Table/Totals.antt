-- ===== src/Capture/Table/Totals.antt =====
-- Invariants of the list of counters: one node for each flow, counters of 32 bits, and the sum.
use practice.Base.{
  ℕ, ◌+◌, ◌%◌, ◌≤◌, ◌<◌, ◌≡◌, refl, inl, inr, none, some, List, [], ◌∷◌, arith, if◌then◌else◌,
  Option-cases,
}
use practice.Capture.Table.{
  u32_mod, Flow, Bandwidth, ListBandwidth, same_flow, lookup_node, lookup_bandwidth, bump,
  add_bandwidth,
}
use practice.Capture.Table.Laws.{same_flow_iff, amount_of, lookup-add, add-absent, add-present}

abbrev pub nodes_of : ListBandwidth → List Bandwidth
nodes_of none = []
nodes_of (some nodes) = nodes

-- How many nodes carry a flow.
pub count_nodes : Flow → List Bandwidth → ℕ
count_nodes k [] = 0
count_nodes k (n ∷ rest) = (if same_flow n.flow k then 1 else 0) + count_nodes k rest

-- The sum of all the counters.
pub sum_nodes : List Bandwidth → ℕ
sum_nodes [] = 0
sum_nodes (n ∷ rest) = n.amount + sum_nodes rest

abbrev pub IsUnique : ListBandwidth → Type 0
IsUnique l = (k : Flow) → count_nodes k (nodes_of l) ≤ 1

pub empty-IsUnique : IsUnique none
unfolding count_nodes
empty-IsUnique k = omega arith

count_nodes-bump :
    (k j : Flow) (d : ℕ) (nodes : List Bandwidth)
    → count_nodes j (bump k d nodes) ≡ count_nodes j nodes
unfolding count_nodes bump
count_nodes-bump k j d [] = refl
count_nodes-bump k j d (n ∷ rest) = ground (arith, count_nodes-bump k j d rest)

count_nodes-absent :
    (k : Flow) (nodes : List Bandwidth) → lookup_node k nodes ≡ none → count_nodes k nodes ≡ 0
unfolding count_nodes lookup_node
count_nodes-absent k [] h = refl
count_nodes-absent k (n ∷ rest) h = ground (arith, count_nodes-absent k rest)

-- An addition never makes a second node for a flow.
pub add-IsUnique :
    (k : Flow) (d : ℕ) (l : ListBandwidth) → IsUnique l → IsUnique (add_bandwidth k d l)
unfolding add_bandwidth lookup_bandwidth count_nodes
add-IsUnique k d none u j = ground arith
add-IsUnique k d (some nodes) u j = elim (Option-cases (lookup_node k nodes)) [
  | inl e ↦
      rw (add-absent k d nodes e)
        (ground (arith, u j, count_nodes-absent k nodes e, same_flow_iff k j))
  | inr (n, e) ↦ rw (add-present k d nodes n e, count_nodes-bump) (u j)
]

sum_nodes-bump :
    (k : Flow) (d : ℕ) (nodes : List Bandwidth) (n : Bandwidth)
    → lookup_node k nodes ≡ some n
    → sum_nodes (bump k d nodes) % u32_mod ≡ (sum_nodes nodes + d) % u32_mod
unfolding sum_nodes lookup_node bump
sum_nodes-bump k d [] n h = ground arith
sum_nodes-bump k d (m ∷ rest) n h = ground (arith, sum_nodes-bump k d rest n)

-- An addition of d bytes raises the sum of all the counters by d, modulo 2^32.
pub sum-add :
    (k : Flow) (d : ℕ) (l : ListBandwidth)
    → sum_nodes (nodes_of (add_bandwidth k d l)) % u32_mod ≡ (sum_nodes (nodes_of l) + d) % u32_mod
unfolding add_bandwidth lookup_bandwidth sum_nodes
sum-add k d none = omega arith
sum-add k d (some nodes) = elim (Option-cases (lookup_node k nodes)) [
  | inl e ↦ rw (add-absent k d nodes e) (omega arith)
  | inr (n, e) ↦ rw (add-present k d nodes n e) (sum_nodes-bump k d nodes n e)
]

-- The counter of a flow, as an addition of a 32-bit amount leaves it.
pub amount-add :
    (k j : Flow) (d : ℕ) (l : ListBandwidth)
    → d < u32_mod
    → amount_of (lookup_bandwidth j (add_bandwidth k d l)) ≡ (
        if same_flow k j
        then (amount_of (lookup_bandwidth k l) + d) % u32_mod
        else amount_of (lookup_bandwidth j l))
amount-add k j d l h = rw (lookup-add k j d l) (ground arith)
