-- ===== src/Capture/Table/Laws.antt =====
-- The counters as a map from flows: what a lookup sees after an addition.
use practice.Base.{
  ℕ, ◌+◌, ◌%◌, ◌≡◌, refl, ◌↔◌, inl, inr, true, Option, none, some, List, [], ◌∷◌, arith,
  if◌then◌else◌, Option-cases,
}
use practice.Capture.Table.{
  u32_mod, Flow, Bandwidth, ListBandwidth, same_flow, lookup_node, lookup_bandwidth, bump,
  add_bandwidth,
}

pub same_flow_iff : (a b : Flow) → (same_flow a b ≡ true) ↔ (a ≡ b)
unfolding same_flow
same_flow_iff a b = (λ h. ground arith, λ h. ground arith)

pub same_flow_refl : (a : Flow) → same_flow a a ≡ true
same_flow_refl a = (same_flow_iff a a).1 refl

-- The counter of a flow, 0 where there is no node.
abbrev pub amount_of : Option Bandwidth → ℕ
amount_of none = 0
amount_of (some n) = n.amount

-- Where the lookup finds a node, it is a node of that flow.
pub lookup_node-flow :
    (k : Flow) (nodes : List Bandwidth) (n : Bandwidth) → lookup_node k nodes ≡ some n → n.flow ≡ k
unfolding lookup_node
lookup_node-flow k [] n h = ground arith
lookup_node-flow k (m ∷ rest) n h =
    ground (arith, same_flow_iff m.flow k, lookup_node-flow k rest n)

pub lookup_node-bump :
    (k j : Flow) (d : ℕ) (nodes : List Bandwidth) (n : Bandwidth)
    → lookup_node k nodes ≡ some n
    → lookup_node j (bump k d nodes) ≡ (
        if same_flow k j
        then some (record n { amount = (n.amount + d) % u32_mod })
        else lookup_node j nodes)
unfolding lookup_node bump
lookup_node-bump k j d [] n h = ground arith
lookup_node-bump k j d (m ∷ rest) n h = ground (
  arith,
  same_flow_iff m.flow k,
  same_flow_iff m.flow j,
  same_flow_iff k j,
  lookup_node-bump k j d rest n,
)

abbrev pub added : ℕ → Option Bandwidth → ℕ
added d none = d
added d (some n) = (n.amount + d) % u32_mod

-- The node that a lookup of any flow finds after an addition.
pub lookup-add :
    (k j : Flow) (d : ℕ) (l : ListBandwidth)
    → lookup_bandwidth j (add_bandwidth k d l) ≡ (
        if same_flow k j
        then some (record { flow = k; amount = added d (lookup_bandwidth k l) })
        else lookup_bandwidth j l)
unfolding lookup_bandwidth add_bandwidth lookup_node
lookup-add k j d none = ground arith
lookup-add k j d (some nodes) = elim (Option-cases (lookup_node k nodes)) [
  | inl e ↦ rw e (ground arith)
  | inr (n, e) ↦
      rw e (ground (arith, lookup_node-bump k j d nodes n e, lookup_node-flow k nodes n e))
]

-- The two branches of an addition to a list that is there.
pub add-absent :
    (k : Flow) (d : ℕ) (nodes : List Bandwidth)
    → lookup_node k nodes ≡ none
    → add_bandwidth k d (some nodes) ≡ some ((record { flow = k; amount = d }) ∷ nodes)
unfolding add_bandwidth lookup_bandwidth
add-absent k d nodes e = ground arith

pub add-present :
    (k : Flow) (d : ℕ) (nodes : List Bandwidth) (n : Bandwidth)
    → lookup_node k nodes ≡ some n
    → add_bandwidth k d (some nodes) ≡ some (bump k d nodes)
unfolding add_bandwidth lookup_bandwidth
add-present k d nodes n e = ground arith
