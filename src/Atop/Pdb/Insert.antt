-- ===== src/Atop/Pdb/Insert.antt =====
-- pdb_addtask.
use practice.Base.{
  ℕ, ◌≤◌, ◌≡◌, sym, ap, Bool, true, false, ◌&&◌, ◌||◌, some, List, [], ◌∷◌, arith, ◌==◌,
  if◌then◌else◌, ==_iff, ==_refl, set, get_or-set, set-set, set-get_or, length, length-set,
  get_or-replicate, length-replicate, replicate, ◌∙◌, Bool-cases, inl, inr,
}
use practice.Atop.Tstat.{Tstat}
use practice.Atop.Pdb.{
  nphash, Pdb, hash_index, same_task, unchain, chain_of, pdb_addtask, first_match, pdb_deltask,
}
use practice.Atop.Pdb.Nodes.{mem, count, same_task_symm, count-absent}
use practice.Atop.Pdb.Delete.{bucket, home, stored, IsPdb, hash_index-lt, deltask-first}

-- The database without a node.
abbrev pub empty_pdb : (ℕ → Tstat) → Pdb
empty_pdb heap = record { heap = heap; phash = replicate nphash []; presidue = [] }

pub empty_pdb-IsPdb : (heap : ℕ → Tstat) → IsPdb (empty_pdb heap)
unfolding mem count
empty_pdb-IsPdb heap =
    let empty = get_or-replicate {A = List ℕ} nphash in
    record {
      size = length-replicate {A = List ℕ} nphash [];
      placed = λ i a m. absurd (cc (ap (mem a) (empty i []), m));
      once = λ i a. rw (empty i []) (omega arith);
      single = λ a b m n s. absurd (cc (ap (mem a) (empty (hash_index (heap a).gen.pid) []), m));
      residue_stored = λ a m. absurd (ground arith);
      residue_once = λ a. omega arith;
    }

pub empty_pdb-bare : (heap : ℕ → Tstat) (i a : ℕ) → mem a (bucket (empty_pdb heap) i) ≡ false
unfolding mem
empty_pdb-bare heap i a = rw (get_or-replicate {A = List ℕ} nphash i [])

bucket-addtask :
    (pid a : ℕ) (db : Pdb) (i : ℕ)
    → length db.phash ≡ nphash
    → bucket (pdb_addtask pid a db) i
      ≡ (if hash_index pid == i then a ∷ bucket db (hash_index pid) else bucket db i)
unfolding pdb_addtask
bucket-addtask pid a db i e =
    get_or-set db.phash (hash_index pid) i _ [] (omega (arith, hash_index-lt pid))

-- Where there are 256 hash chains, deleting the task of the node that was added last gives the hash
-- table of before, whatever other nodes there are of the same pid (the new node is the one that
-- goes, not an older one), and takes the node out of the RESIDUE list.
pub deltask-addtask :
    (pid a : ℕ) (isproc : Bool) (db : Pdb)
    → length db.phash ≡ nphash
    → same_task pid isproc (db.heap a) ≡ true
    → pdb_deltask pid isproc (pdb_addtask pid a db)
      ≡ some (true, record db { presidue = unchain a db.presidue })
unfolding pdb_addtask
deltask-addtask pid a isproc db e same =
    deltask-first pid isproc (pdb_addtask pid a db) a (a ∷ chain_of pid db) front_is match
    ∙ ap
        (λ (p : List (List ℕ)).
          some (true, record db { phash = p; presidue = unchain a db.presidue }))
        back
  where
    front_is : chain_of pid (pdb_addtask pid a db) ≡ a ∷ chain_of pid db
    front_is = bucket-addtask pid a db (hash_index pid) e ∙ rw (==_refl (hash_index pid))

    match : first_match db.heap pid isproc (a ∷ chain_of pid db) ≡ some a
    match = unfold first_match in rw same

    unchain_front : unchain a (a ∷ chain_of pid db) ≡ chain_of pid db
    unchain_front = unfold unchain in rw (==_refl a)

    back :
        set
          (set db.phash (hash_index pid) (a ∷ chain_of pid db))
          (hash_index pid)
          (unchain a (a ∷ chain_of pid db))
        ≡ db.phash
    back =
        rw unchain_front
          (set-set db.phash (hash_index pid) _ _ ∙ set-get_or db.phash (hash_index pid) [])

module _ (pid a : ℕ) (db : Pdb) (valid : IsPdb db) (own : (db.heap a).gen.pid ≡ pid)
    (fresh : (i : ℕ) → mem a (bucket db i) ≡ false)
    (other : (b : ℕ)
      → stored db b ≡ true
      → same_task pid (db.heap a).gen.isproc (db.heap b) ≡ false) where
  mem-addtask :
      (i b : ℕ)
      → mem b (bucket (pdb_addtask pid a db) i)
        ≡ (hash_index pid == i && a == b) || mem b (bucket db i)
  unfolding mem
  mem-addtask i b =
      rw (bucket-addtask pid a db i valid.size) (ground (arith, ==_iff (hash_index pid) i))

  count-addtask : (i b : ℕ) → count b (bucket (pdb_addtask pid a db) i) ≤ 1
  unfolding count
  count-addtask i b = rw (bucket-addtask pid a db i valid.size) (
      ground (
        arith,
        count-absent a (bucket db (hash_index pid)) (fresh (hash_index pid)),
        valid.once i b,
        valid.once (hash_index pid) b,
      ))

  stored-addtask : (b : ℕ) → stored (pdb_addtask pid a db) b ≡ a == b || stored db b
  unfolding mem pdb_addtask
  stored-addtask b = mem-addtask (home db b) b ∙ elim (Bool-cases (a == b)) [
    | inr e ↦ ground arith
    | inl e ↦
        let at_home : hash_index pid ≡ home db b =
          ap hash_index (sym own) ∙ ap (home db) ((==_iff a b).0 e) in
        ground (arith, at_home)
  ]

  addtask-single :
      (b c : ℕ)
      → a == b || stored db b ≡ true
      → a == c || stored db c ≡ true
      → same_task (db.heap b).gen.pid (db.heap b).gen.isproc (db.heap c) ≡ true
      → c ≡ b
  addtask-single b c sb sc same = elim (Bool-cases (a == b)) [
    | inl e ↦ elim (Bool-cases (a == c)) [
      | inl f ↦ sym ((==_iff a c).0 f) ∙ (==_iff a b).0 e
      | inr f ↦
          let ab : a ≡ b = (==_iff a b).0 e in
          let no : same_task (db.heap a).gen.pid (db.heap a).gen.isproc (db.heap c) ≡ false =
            rw own (other c (ground arith)) in
          absurd (
            ground (
              arith,
              no,
              ap (λ (x : ℕ). same_task (db.heap x).gen.pid (db.heap x).gen.isproc (db.heap c)) ab,
            ))
    ]
    | inr e ↦ elim (Bool-cases (a == c)) [
      | inr f ↦ valid.single b c (ground arith) (ground arith) same
      | inl f ↦
          let ac : a ≡ c = (==_iff a c).0 f in
          let no : same_task (db.heap a).gen.pid (db.heap a).gen.isproc (db.heap b) ≡ false =
            rw own (other b (ground arith)) in
          absurd (
            ground (
              arith,
              no,
              same_task_symm (db.heap a) (db.heap b),
              ap (λ (x : ℕ). same_task (db.heap b).gen.pid (db.heap b).gen.isproc (db.heap x)) ac,
            ))
    ]
  ]

  -- Adding a node that is not in the database, for a task that is not in it, keeps the database well
  -- formed; it then holds the new node beside those of before.
  pub addtask-IsPdb :
      IsPdb (pdb_addtask pid a db)
      × ((b : ℕ) → stored (pdb_addtask pid a db) b ≡ a == b || stored db b)
  unfolding pdb_addtask
  addtask-IsPdb = (
    record {
      size = length-set db.phash _ _ ∙ valid.size;
      placed = λ i b m. home_is i b (sym (mem-addtask i b) ∙ m);
      once = count-addtask;
      single = λ b c m n same.
          addtask-single b c (sym (stored-addtask b) ∙ m) (sym (stored-addtask c) ∙ n) same;
      residue_stored = λ b m. stored-addtask b ∙ ground (arith, valid.residue_stored b m);
      residue_once = valid.residue_once;
    },
    stored-addtask,
  )
    where
      home_is :
          (i b : ℕ) → (hash_index pid == i && a == b) || mem b (bucket db i) ≡ true → home db b ≡ i
      home_is i b m = elim (Bool-cases (hash_index pid == i && a == b)) [
        | inr e ↦ valid.placed i b (ground arith)
        | inl e ↦
            let ab : a ≡ b = (==_iff a b).0 (ground arith) in
            let at_i : hash_index pid ≡ i = (==_iff (hash_index pid) i).0 (ground arith) in
            ap (home db) (sym ab) ∙ ap hash_index own ∙ at_i
      ]
