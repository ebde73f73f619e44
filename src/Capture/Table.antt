-- ===== src/Capture/Table.antt =====
-- lookupBandwidth and addBandwidth of Qt/ZMonitor/PacketCapture/packetcap.c (the same text stands in
-- Qt/ZMonitor/SocketMornitoring/zsocket.c): the list of byte counters, one node for each flow.
-- The struct's field `data` is `amount` here. malloc is taken to succeed.
pub mod Laws
pub mod Totals
use practice.Base.{
  ℕ, ◌+◌, ◌%◌, ◌^◌, Bool, ◌&&◌, Option, none, some, List, [], ◌∷◌, ◌==◌, if◌then◌else◌,
}

abbrev pub u32_mod : ℕ
u32_mod = 2 ^ 32

-- The four arguments by which a node is found.
pub record Flow : Type 0 where
  pub source : ℕ
  pub dest : ℕ
  pub sport : ℕ
  pub dport : ℕ

pub record Bandwidth : Type 0 where
  pub flow : Flow
  pub amount : ℕ

-- The global `Lbandwidth`: none is the null pointer, some its chain of nodes.
abbrev pub ListBandwidth : Type 0
ListBandwidth = Option (List Bandwidth)

unfoldable pub same_flow : Flow → Flow → Bool
same_flow a b = a.source == b.source && a.dest == b.dest && a.dport == b.dport && a.sport == b.sport

-- The `while (temp)` loop.
pub lookup_node : Flow → List Bandwidth → Option Bandwidth
lookup_node k [] = none
lookup_node k (n ∷ rest) = if same_flow n.flow k then some n else lookup_node k rest

unfoldable pub lookup_bandwidth : Flow → ListBandwidth → Option Bandwidth
unfolding lookup_node
lookup_bandwidth k none = none
lookup_bandwidth k (some nodes) = lookup_node k nodes

-- `temp->data += data` through the pointer that lookupBandwidth returned.
unfoldable pub bump : Flow → ℕ → List Bandwidth → List Bandwidth
bump k d [] = []
bump k d (n ∷ rest) =
    if same_flow n.flow k
    then (record n { amount = (n.amount + d) % u32_mod }) ∷ rest
    else n ∷ bump k d rest

-- A node for a new flow is put in front, and the list head is allocated for the first one.
pub push : Bandwidth → ListBandwidth → ListBandwidth
push n none = some (n ∷ [])
push n (some nodes) = some (n ∷ nodes)

pub bump_list : Flow → ℕ → ListBandwidth → ListBandwidth
bump_list k d none = none
bump_list k d (some nodes) = some (bump k d nodes)

unfoldable pub add_bandwidth : Flow → ℕ → ListBandwidth → ListBandwidth
unfolding push bump_list
add_bandwidth k d l = elim (lookup_bandwidth k l) [
  | some _ ↦ bump_list k d l
  | none ↦ push (record { flow = k; amount = d }) l
]
