-- ===== src/Atop/Pdb/Residue.antt =====
-- pdb_makeresidue: the RESIDUE list of all nodes.
use practice.Base.{
  ℕ, zero, suc, ◌+◌, ◌≡◌, ◌≢◌, refl, sym, true, false, List, [], ◌∷◌, arith, Bool-cases, get_or,
  ◌∙◌, inl, inr,
}
use practice.Atop.Pdb.{Pdb, push_chain, push_chains, pdb_makeresidue}
use practice.Atop.Pdb.Nodes.{mem, count, mem-count_zero, count-absent, mem-count_pos, count-mem}
use practice.Atop.Pdb.Delete.{bucket, home, stored, IsPdb}

-- How often a node stands in all the chains.
total : ℕ → List (List ℕ) → ℕ
total a [] = 0
total a (c ∷ cs) = count a c + total a cs

count-push_chain : (a : ℕ) (c pr : List ℕ) → count a (push_chain c pr) ≡ count a c + count a pr
unfolding count push_chain
count-push_chain a [] pr = omega arith
count-push_chain a (b ∷ c) pr = omega (arith, count-push_chain a c (b ∷ pr))

count-push_chains :
    (a : ℕ) (cs : List (List ℕ)) (pr : List ℕ)
    → count a (push_chains cs pr) ≡ total a cs + count a pr
unfolding total push_chains
count-push_chains a [] pr = omega arith
count-push_chains a (c ∷ cs) pr =
    omega (arith, count-push_chains a cs (push_chain c pr), count-push_chain a c pr)

total_nowhere :
    (a : ℕ) (cs : List (List ℕ)) → ((i : ℕ) → mem a (get_or cs i []) ≡ false) → total a cs ≡ 0
unfolding total
total_nowhere a [] h = refl
total_nowhere a (c ∷ cs) h =
    omega (arith, count-absent a c (h 0), total_nowhere a cs (λ i. h (suc i)))

-- A node that stands in no other chain than number j.
total_only :
    (a : ℕ) (cs : List (List ℕ)) (j : ℕ)
    → ((i : ℕ) → i ≢ j → mem a (get_or cs i []) ≡ false)
    → total a cs ≡ count a (get_or cs j [])
unfolding total count
total_only a [] j h = refl
total_only a (c ∷ cs) zero h = omega (arith, total_nowhere a cs (λ i. h (suc i) (omega arith)))
total_only a (c ∷ cs) (suc j) h = omega (
  arith,
  count-absent a c (h 0 (omega arith)),
  total_only a cs j (λ i n. h (suc i) (omega arith)),
)

module _ (db : Pdb) (valid : IsPdb db) where
  elsewhere : (a i : ℕ) → i ≢ home db a → mem a (bucket db i) ≡ false
  elsewhere a i n = elim (Bool-cases (mem a (bucket db i))) [
    | inl m ↦ absurd (n (sym (valid.placed i a m)))
    | inr m ↦ m
  ]

  count-residue : (a : ℕ) → count a (push_chains db.phash []) ≡ count a (bucket db (home db a))
  count-residue a = omega (
    arith,
    count-push_chains a db.phash [],
    total_only a db.phash (home db a) (elsewhere a),
    count_nil a,
  )
    where
      count_nil : (b : ℕ) → count b [] ≡ 0
      count_nil b = unfold count in refl

  -- Afterwards the RESIDUE list holds all the nodes of the database.
  pub mem-makeresidue : (a : ℕ) → mem a (pdb_makeresidue db).presidue ≡ stored db a
  unfolding pdb_makeresidue
  mem-makeresidue a = elim (Bool-cases (stored db a)) [
    | inl m ↦ present m
    | inr m ↦ mem-count_zero a _ (count-residue a ∙ count-absent a _ m) ∙ sym m
  ]
    where
      present : stored db a ≡ true → mem a (push_chains db.phash []) ≡ stored db a
      present m =
          mem-count_pos a (push_chains db.phash [])
            (omega (arith, count-residue a, count-mem a (bucket db (home db a)) m))
          ∙ sym m

  pub makeresidue-IsPdb : IsPdb (pdb_makeresidue db)
  unfolding pdb_makeresidue
  makeresidue-IsPdb = record {
    size = valid.size;
    placed = valid.placed;
    once = valid.once;
    single = valid.single;
    residue_stored = λ a m. sym (mem-makeresidue a) ∙ m;
    residue_once = λ a. omega (arith, count-residue a, valid.once (home db a) a);
  }
