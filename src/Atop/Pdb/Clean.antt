-- ===== src/Atop/Pdb/Clean.antt =====
-- The loop of pdb_cleanresidue.
use practice.Base.{
  ℕ, zero, suc, ◌<◌, ◌≡◌, refl, true, not, ◌&&◌, Option, some, List, [], ◌∷◌, arith, length, ◌∙◌,
  ◌>>=◌,
}
use practice.Atop.Pdb.{Pdb, unchain, pdb_deltask, prnext, front, clean_rounds}
use practice.Atop.Pdb.Nodes.{mem}
use practice.Atop.Pdb.Delete.{
  bucket, stored, IsPdb, without, deltask-stored, bucket-without, without-IsPdb,
}

prnext-head : (a : ℕ) (rest : List ℕ) → prnext a (a ∷ rest) ≡ some (front rest)
unfolding prnext
prnext-head a [] = ground arith
prnext-head a (b ∷ rest) = ground arith

unchain-head : (a : ℕ) (rest : List ℕ) → unchain a (a ∷ rest) ≡ rest
unfolding unchain
unchain-head a rest = ground arith

clean_rounds-step :
    (fuel pr : ℕ) (db db' : Pdb) (next : Option ℕ)
    → prnext pr db.presidue ≡ some next
    → pdb_deltask (db.heap pr).gen.pid (db.heap pr).gen.isproc db ≡ some (true, db')
    → clean_rounds (suc fuel) (some pr) db ≡ clean_rounds fuel next db'
unfolding clean_rounds
clean_rounds-step fuel pr db db' next n d = rw (n, ◌>>=◌, d)

-- The loop ends, and takes out exactly the nodes of the RESIDUE list.
pub record Cleaned (l : List ℕ) (fuel : ℕ) (db : Pdb) : Type 0 where
  pub after : Pdb
  pub runs : clean_rounds fuel (front l) db ≡ some after
  pub valid : IsPdb after
  pub empty : after.presidue ≡ []
  pub heap : after.heap ≡ db.heap
  pub left : (i b : ℕ) → mem b (bucket after i) ≡ mem b (bucket db i) && not (mem b l)

pub clean_rounds-Cleaned :
    (l : List ℕ) (fuel : ℕ) (db : Pdb)
    → db.presidue ≡ l
    → IsPdb db
    → length l < fuel
    → Cleaned l fuel db
unfolding clean_rounds mem
clean_rounds-Cleaned l zero db e v h = absurd (omega arith)
clean_rounds-Cleaned [] (suc fuel) db e v h = record {
  after = db;
  runs = refl;
  valid = v;
  empty = e;
  heap = refl;
  left = λ i b. ground arith;
}
clean_rounds-Cleaned (pr ∷ rest) (suc fuel) db e v h =
    let inside : stored db pr ≡ true = v.residue_stored pr (rw e (ground arith)) in
    let db' = without db v pr inside in
    let e' : db'.presidue ≡ rest = rw e (unchain-head pr rest) in
    let r = clean_rounds-Cleaned rest fuel db' e' (without-IsPdb db v pr inside) (omega arith) in
    record {
      after = r.after;
      runs =
          clean_rounds-step fuel pr db db' (front rest) (rw e (prnext-head pr rest))
            (deltask-stored db v pr inside)
          ∙ r.runs;
      valid = r.valid;
      empty = r.empty;
      heap = r.heap;
      left = λ i b. ground (arith, r.left i b, bucket-without db v pr inside i b);
    }
