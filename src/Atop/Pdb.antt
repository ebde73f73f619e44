-- ===== src/Atop/Pdb.antt =====
-- The process database of Qt/FakeAtop/procdbase.c: 256 hash chains of nodes, and the RESIDUE list
-- of the nodes that were not referred to since pdb_makeresidue. A node is its address; `heap` gives
-- the tstat at an address. A chain is the list of its nodes in the order of phnext, and the residue
-- the list in the order of prnext from the anchor (a node is in it exactly when prnext is not null).
-- none is an access through a null or dangling pointer. Start times differ by less than 2^31.
pub mod Nodes
pub mod Delete
pub mod Insert
pub mod Clean
pub mod Residue
pub mod Sweep
use practice.Base.{
  ℕ, zero, suc, ◌+◌, ◌%◌, Bool, true, false, ◌&&◌, Option, none, some, List, [], ◌∷◌, ◌++◌, leb,
  ◌==◌, if◌then◌else◌, ◌>>=◌, get_or, set, length,
}
use practice.Base.Text.{Bytes, same_text}
use practice.Atop.Tstat.{Tstat}

abbrev pub nphash : ℕ
nphash = 256

pub record Pdb : Type 0 where
  pub heap : ℕ → Tstat
  pub phash : List (List ℕ)
  pub presidue : List ℕ

-- pid & (NPHASH - 1)
pub hash_index : ℕ → ℕ
hash_index pid = pid % nphash

abbrev pub same_bool : Bool → Bool → Bool
same_bool true b = b
same_bool false true = false
same_bool false false = true

unfoldable pub same_task : ℕ → Bool → Tstat → Bool
same_task pid isproc t = t.gen.pid == pid && same_bool t.gen.isproc isproc

-- The start times differ by one second at most.
pub near : ℕ → ℕ → Bool
near a b = leb a (b + 1) && leb b (a + 1)

-- Unchains a node from the list, if it is part of it.
pub unchain : ℕ → List ℕ → List ℕ
unchain a [] = []
unchain a (b ∷ rest) = if b == a then rest else b ∷ unchain a rest

unfoldable pub scan_chain : (ℕ → Tstat) → ℕ → Bool → ℕ → List ℕ → Option ℕ
unfolding same_task near
scan_chain heap pid isproc btime [] = none
scan_chain heap pid isproc btime (pp ∷ rest) =
    if same_task pid isproc (heap pp) && near (heap pp).gen.btime btime
    then some pp
    else scan_chain heap pid isproc btime rest

abbrev pub chain_of : ℕ → Pdb → List ℕ
chain_of pid db = get_or db.phash (hash_index pid) []

unfoldable pub pdb_gettask : ℕ → Bool → ℕ → Pdb → Option ℕ × Pdb
unfolding scan_chain
pdb_gettask pid isproc btime db = elim (scan_chain db.heap pid isproc btime (chain_of pid db)) [
  | some pp ↦ (some pp, record db { presidue = unchain pp db.presidue })
  | none ↦ (none, db)
]

unfoldable pub pdb_addtask : ℕ → ℕ → Pdb → Pdb
unfolding hash_index
pdb_addtask pid pinfop db = record db {
  phash = set db.phash (hash_index pid) (pinfop ∷ chain_of pid db);
}

-- The first node of the task in a chain.
pub first_match : (ℕ → Tstat) → ℕ → Bool → List ℕ → Option ℕ
unfolding same_task
first_match heap pid isproc [] = none
first_match heap pid isproc (pp ∷ rest) =
    if same_task pid isproc (heap pp) then some pp else first_match heap pid isproc rest

-- The test of the first entry reads through phash[...] without a test for the null pointer.
unfoldable pub pdb_deltask : ℕ → Bool → Pdb → Option (Bool × Pdb)
pdb_deltask pid isproc db = elim (chain_of pid db) [
  | [] ↦ none
  | pp ∷ rest ↦ elim (first_match db.heap pid isproc (chain_of pid db)) [
    | none ↦ some (false, db)
    | some found ↦ some (
      true,
      record db {
        phash = set db.phash (hash_index pid) (unchain found (chain_of pid db));
        presidue = unchain found db.presidue;
      },
    )
  ]
]

-- Every node of a chain is put in front of the list, chain after chain.
pub push_chain : List ℕ → List ℕ → List ℕ
push_chain [] pr = pr
push_chain (pp ∷ rest) pr = push_chain rest (pp ∷ pr)

pub push_chains : List (List ℕ) → List ℕ → List ℕ
unfolding push_chain
push_chains [] pr = pr
push_chains (c ∷ cs) pr = push_chains cs (push_chain c pr)

unfoldable pub pdb_makeresidue : Pdb → Pdb
unfolding push_chains
pdb_makeresidue db = record db { presidue = push_chains db.phash [] }

-- pr->prnext: some none is the anchor, none a node that is not in the list.
pub prnext : ℕ → List ℕ → Option (Option ℕ)
prnext pr [] = none
prnext pr (a ∷ []) = if a == pr then some none else none
prnext pr (a ∷ b ∷ rest) = if a == pr then some (some b) else prnext pr (b ∷ rest)

abbrev pub front : List ℕ → Option ℕ
front [] = none
front (a ∷ rest) = some a

-- The loop of pdb_cleanresidue; none also where the fuel runs out.
pub clean_rounds : ℕ → Option ℕ → Pdb → Option Pdb
unfolding prnext
clean_rounds zero pr db = none
clean_rounds (suc fuel) none db = some db
clean_rounds (suc fuel) (some pr) db =
    let rest = λ (next : Option ℕ) (r : Bool × Pdb). clean_rounds fuel next r.1 in
    do
      next ← prnext pr db.presidue
      r ← pdb_deltask (db.heap pr).gen.pid (db.heap pr).gen.isproc db
      rest next r

unfoldable pub pdb_cleanresidue : Pdb → Option Pdb
unfolding clean_rounds
pdb_cleanresidue db = clean_rounds (suc (length db.presidue)) (front db.presidue) db

pub fits_residue : Tstat → Tstat → Bool
fits_residue t s =
    t.gen.ruid == s.gen.ruid && t.gen.rgid == s.gen.rgid && same_text t.gen.name s.gen.name

-- The walk with prmin, the first node that fits and started one second off.
pub srch_residue : (ℕ → Tstat) → Tstat → Option ℕ → List ℕ → Option ℕ
unfolding fits_residue
srch_residue heap s prmin [] = prmin
srch_residue heap s prmin (pr ∷ rest) =
    if fits_residue (heap pr) s && (heap pr).gen.btime == s.gen.btime
    then some pr
    else srch_residue heap s
        (elim prmin [
          | some p ↦ some p
          | none ↦
              (if fits_residue (heap pr) s && near (heap pr).gen.btime s.gen.btime
                then some pr
                else none)
        ])
        rest

unfoldable pub pdb_srchresidue : Tstat → Pdb → Option ℕ
unfolding srch_residue
pdb_srchresidue s db = srch_residue db.heap s none db.presidue
