-- ===== src/Atop/Pdb/Sweep.antt =====
-- pdb_makeresidue, any number of pdb_gettask and pdb_cleanresidue: what is left in the database.
use practice.Base.{
  ℕ, suc, ◌≡◌, refl, ap, Bool, true, false, not, ◌&&◌, ◌||◌, Option, none, some, List, [], ◌∷◌,
  arith, ◌==◌, get_or, length, ◌∙◌, Option-cases, inl, inr,
}
use practice.Atop.Tstat.{Tstat}
use practice.Atop.Pdb.{
  Pdb, hash_index, scan_chain, chain_of, pdb_gettask, pdb_cleanresidue, pdb_makeresidue,
}
use practice.Atop.Pdb.Nodes.{mem, mem-unchain, count-unchain_le}
use practice.Atop.Pdb.Clean.{clean_rounds-Cleaned}
use practice.Atop.Pdb.Residue.{mem-makeresidue, makeresidue-IsPdb}
use practice.Atop.Pdb.Delete.{bucket, home, stored, IsPdb}

-- The arguments of a call of pdb_gettask.
pub record Query : Type 0 where
  pub pid : ℕ
  pub isproc : Bool
  pub btime : ℕ

pub gettasks : List Query → Pdb → Pdb
gettasks [] db = db
gettasks (q ∷ rest) db = gettasks rest (pdb_gettask q.pid q.isproc q.btime db).1

-- One of the calls returns the node.
pub referred : ℕ → List Query → Pdb → Bool
referred a [] db = false
referred a (q ∷ rest) db =
    (elim (pdb_gettask q.pid q.isproc q.btime db).0 [ none ↦ false | some pp ↦ pp == a ])
    || referred a rest (pdb_gettask q.pid q.isproc q.btime db).1

record Got (qs : List Query) (db : Pdb) : Type 0 where
  same_heap : (gettasks qs db).heap ≡ db.heap
  same_chains : (gettasks qs db).phash ≡ db.phash
  valid : IsPdb (gettasks qs db)
  residue : (a : ℕ) → mem a (gettasks qs db).presidue ≡ mem a db.presidue && not (referred a qs db)

gettask-IsPdb : (q : Query) (db : Pdb) → IsPdb db → IsPdb (pdb_gettask q.pid q.isproc q.btime db).1
unfolding pdb_gettask
gettask-IsPdb q db v = elim (Option-cases (scan db)) [
  | inl e ↦ rw (e, pdb_gettask) v
  | inr (pp, e) ↦
      rw (e, pdb_gettask)
        (record {
          size = v.size;
          placed = v.placed;
          once = v.once;
          single = v.single;
          residue_stored = λ a m.
              ground (arith, v.residue_stored a, mem-unchain pp a db.presidue (v.residue_once pp));
          residue_once = λ a. omega (arith, count-unchain_le pp a db.presidue, v.residue_once a);
        })
]
  where
    scan : Pdb → Option ℕ
    scan d = scan_chain d.heap q.pid q.isproc q.btime (chain_of q.pid d)

abbrev returns : ℕ → Query → Pdb → Bool
returns a q db = elim (pdb_gettask q.pid q.isproc q.btime db).0 [ none ↦ false | some pp ↦ pp == a ]

-- A call of pdb_gettask takes the node that it returns, and no other, off the RESIDUE list.
gettask-residue :
    (q : Query) (db : Pdb) (a : ℕ)
    → IsPdb db
    → mem a (pdb_gettask q.pid q.isproc q.btime db).1.presidue
      ≡ mem a db.presidue && not (returns a q db)
unfolding pdb_gettask
gettask-residue q db a v = elim (Option-cases (scan db)) [
  | inl e ↦ ground arith
  | inr (pp, e) ↦ ground (arith, mem-unchain pp a db.presidue (v.residue_once pp))
]
  where
    scan : Pdb → Option ℕ
    scan d = scan_chain d.heap q.pid q.isproc q.btime (chain_of q.pid d)

gettask-rest :
    (q : Query) (db : Pdb)
    → ((pdb_gettask q.pid q.isproc q.btime db).1.heap ≡ db.heap)
      × ((pdb_gettask q.pid q.isproc q.btime db).1.phash ≡ db.phash)
unfolding pdb_gettask
gettask-rest q db = ground arith

gettasks-Got : (qs : List Query) (db : Pdb) → IsPdb db → Got qs db
unfolding gettasks referred
gettasks-Got [] db v = record {
  same_heap = refl;
  same_chains = refl;
  valid = v;
  residue = λ a. ground arith;
}
gettasks-Got (q ∷ rest) db v =
    let db' = (pdb_gettask q.pid q.isproc q.btime db).1 in
    let g = gettasks-Got rest db' (gettask-IsPdb q db v) in
    let same = gettask-rest q db in
    record {
      same_heap = g.same_heap ∙ same.0;
      same_chains = g.same_chains ∙ same.1;
      valid = g.valid;
      residue = λ a. ground (arith, g.residue a, gettask-residue q db a v);
    }

-- One sample: the list is made, the tasks that are present are looked up, and the rest is cleaned.
unfoldable pub sample : List Query → Pdb → Option Pdb
sample qs db = pdb_cleanresidue (gettasks qs (pdb_makeresidue db))

-- What is left is read off the lists, the heap being the same.
left_over :
    (db before after : Pdb) (a : ℕ) (r : Bool)
    → after.heap ≡ db.heap
    → before.phash ≡ db.phash
    → ((i b : ℕ) → mem b (bucket after i) ≡ mem b (bucket before i) && not (mem b before.presidue))
    → mem a before.presidue ≡ stored db a && not r
    → stored after a ≡ stored db a && r
left_over db before after a r heap chains left residue =
    ap (λ (h : ℕ → Tstat). mem a (bucket after (hash_index (h a).gen.pid))) heap
    ∙ left (home db a) a
    ∙ ap (λ (p : List (List ℕ)). mem a (get_or p (home db a) []) && not (mem a before.presidue))
        chains
    ∙ logic (stored db a) r residue
  where
    logic :
        (x y : Bool)
        → mem a before.presidue ≡ x && not y
        → (x && not (mem a before.presidue)) ≡ x && y
    logic true true h = ground arith
    logic true false h = ground arith
    logic false y h = refl

-- On a well-formed database, pdb_makeresidue, then any calls of pdb_gettask, then pdb_cleanresidue
-- run to the end without an invalid access, change no node, and leave a well-formed database that
-- holds exactly the nodes of before that one of the calls returned, with an empty RESIDUE list.
pub sample-referred :
    (qs : List Query) (db : Pdb)
    → IsPdb db
    → (after : Pdb) × (sample qs db ≡ some after)
      × IsPdb after
      × (after.heap ≡ db.heap)
      × (after.presidue ≡ [])
      × ((a : ℕ) → stored after a ≡ stored db a && referred a qs (pdb_makeresidue db))
unfolding sample pdb_cleanresidue pdb_makeresidue
sample-referred qs db v =
    let start = pdb_makeresidue db in
    let g = gettasks-Got qs start (makeresidue-IsPdb db v) in
    let before = gettasks qs start in
    let c =
      clean_rounds-Cleaned before.presidue (suc (length before.presidue)) before refl g.valid
        (omega arith) in
    (
      c.after,
      c.runs,
      c.valid,
      c.heap ∙ g.same_heap,
      c.empty,
      λ a.
          left_over db before c.after a (referred a qs start) (c.heap ∙ g.same_heap) g.same_chains
            c.left
            (g.residue a
              ∙ ap (λ (b : Bool). b && not (referred a qs start)) (mem-makeresidue db v a)),
    )
