-- ===== src/Atop/Pdb/Delete.antt =====
-- Well-formed databases, and what pdb_gettask, pdb_addtask and pdb_deltask do to one.
use practice.Base.{
  Option, none, false, ℕ, ◌≤◌, ◌<◌, ◌≡◌, refl, Bool, true, not, ◌&&◌, some, List, [], ◌∷◌, arith,
  ◌==◌, get_or, set, get_or-set, length, length-set, ◌∙◌,
}
use practice.Atop.Tstat.{Tstat}
use practice.Atop.Pdb.{
  nphash, Pdb, hash_index, same_task, unchain, chain_of, first_match, pdb_deltask,
}
use practice.Atop.Pdb.Nodes.{mem, count, mem-unchain, count-unchain_le, first_match_unique}

abbrev pub bucket : Pdb → ℕ → List ℕ
bucket db i = get_or db.phash i []

abbrev pub home : Pdb → ℕ → ℕ
home db a = hash_index (db.heap a).gen.pid

-- A node is in the database.
abbrev pub stored : Pdb → ℕ → Bool
stored db a = mem a (bucket db (home db a))

-- Every node stands once, in the chain of its pid; no two nodes are the same task; and the nodes of
-- the RESIDUE list, each once, are nodes of the database.
pub record IsPdb (db : Pdb) : Type 0 where
  pub size : length db.phash ≡ nphash
  pub placed : (i a : ℕ) → mem a (bucket db i) ≡ true → home db a ≡ i
  pub once : (i a : ℕ) → count a (bucket db i) ≤ 1
  pub single :
      (a b : ℕ)
      → stored db a ≡ true
      → stored db b ≡ true
      → same_task (db.heap a).gen.pid (db.heap a).gen.isproc (db.heap b) ≡ true
      → b ≡ a
  pub residue_stored : (a : ℕ) → mem a db.presidue ≡ true → stored db a ≡ true
  pub residue_once : (a : ℕ) → count a db.presidue ≤ 1

pub hash_index-lt : (pid : ℕ) → hash_index pid < nphash
unfolding hash_index
hash_index-lt pid = omega arith

pub same_task-pid :
    (pid : ℕ) (isproc : Bool) (t : Tstat) → same_task pid isproc t ≡ true → t.gen.pid ≡ pid
unfolding same_task
same_task-pid pid isproc t h = ground arith

pub deltask-first :
    (pid : ℕ) (isproc : Bool) (db : Pdb) (a : ℕ) (chain : List ℕ)
    → chain_of pid db ≡ chain
    → first_match db.heap pid isproc chain ≡ some a
    → pdb_deltask pid isproc db
      ≡ some (
        true,
        record db {
          phash = set db.phash (hash_index pid) (unchain a chain);
          presidue = unchain a db.presidue;
        },
      )
unfolding pdb_deltask first_match
deltask-first pid isproc db a [] e f = ground arith
deltask-first pid isproc db a (pp ∷ rest) e f = unfold pdb_deltask in ground arith

-- pdb_deltask faults on an empty chain only.
pub deltask-total :
    (pid : ℕ) (isproc : Bool) (db : Pdb) (pp : ℕ) (rest : List ℕ)
    → chain_of pid db ≡ pp ∷ rest
    → (r : Bool × Pdb) × (pdb_deltask pid isproc db ≡ some r)
deltask-total pid isproc db pp rest e = by_match (first_match db.heap pid isproc (pp ∷ rest)) refl
  where
    by_match :
        (m : Option ℕ)
        → first_match db.heap pid isproc (pp ∷ rest) ≡ m
        → (r : Bool × Pdb) × (pdb_deltask pid isproc db ≡ some r)
    by_match (some a) f = (_, deltask-first pid isproc db a (pp ∷ rest) e f)
    by_match none f = ((false, db), unfold pdb_deltask in ground arith)

module _ (db : Pdb) (valid : IsPdb db) (a : ℕ) (inside : stored db a ≡ true) where
  -- The database without the node a.
  abbrev pub without : Pdb
  without = record db {
    phash = set db.phash (home db a) (unchain a (bucket db (home db a)));
    presidue = unchain a db.presidue;
  }

  first_is :
      first_match db.heap (db.heap a).gen.pid (db.heap a).gen.isproc (bucket db (home db a))
      ≡ some a
  first_is =
      first_match_unique db.heap a (bucket db (home db a)) inside
        (λ b m same. valid.single a b inside (here b m) same)
    where
      here : (b : ℕ) → mem b (bucket db (home db a)) ≡ true → stored db b ≡ true
      here b m = rw (valid.placed (home db a) b m) m

  -- pdb_deltask for the task of a node of a well-formed database takes out that node.
  pub deltask-stored :
      pdb_deltask (db.heap a).gen.pid (db.heap a).gen.isproc db ≡ some (true, without)
  deltask-stored = deltask-first _ _ db a (bucket db (home db a)) refl first_is

  pub bucket-without : (i b : ℕ) → mem b (bucket without i) ≡ mem b (bucket db i) && not (a == b)
  bucket-without i b =
      rw
        (get_or-set db.phash (home db a) i _ []
          (omega (arith, hash_index-lt (db.heap a).gen.pid, valid.size)))
        (ground (
          arith,
          mem-unchain a b (bucket db (home db a)) (valid.once (home db a) a),
          valid.placed i a,
          valid.placed i b,
        ))

  count-without : (i b : ℕ) → count b (bucket without i) ≤ count b (bucket db i)
  count-without i b =
      rw
        (get_or-set db.phash (home db a) i _ []
          (omega (arith, hash_index-lt (db.heap a).gen.pid, valid.size)))
        (ground (arith, count-unchain_le a b (bucket db (home db a))))

  -- Deleting a node keeps the database well formed.
  pub without-IsPdb : IsPdb without
  without-IsPdb = record {
    size = length-set db.phash _ _ ∙ valid.size;
    placed = λ i b m. valid.placed i b (old i b m);
    once = λ i b. omega (arith, count-without i b, valid.once i b);
    single = λ b c m n same. valid.single b c (old (home db b) b m) (old (home db c) c n) same;
    residue_stored = λ b m. rw (bucket-without (home db b) b) (
        ground (arith, mem-unchain a b db.presidue (valid.residue_once a), valid.residue_stored b));
    residue_once = λ b. omega (arith, count-unchain_le a b db.presidue, valid.residue_once b);
  }
    where
      old : (i b : ℕ) → mem b (bucket without i) ≡ true → mem b (bucket db i) ≡ true
      old i b m = ground (arith, bucket-without i b)

  -- On a well-formed database, pdb_deltask for the task of a node that it holds finds it and leaves a
  -- well-formed database, which holds the nodes of before but for this one.
  pub deltask-IsPdb :
      (after : Pdb) × (pdb_deltask (db.heap a).gen.pid (db.heap a).gen.isproc db
        ≡ some (true, after))
      × IsPdb after
      × ((b : ℕ) → stored after b ≡ stored db b && not (a == b))
  deltask-IsPdb = (without, deltask-stored, without-IsPdb, λ b. bucket-without (home db b) b)
