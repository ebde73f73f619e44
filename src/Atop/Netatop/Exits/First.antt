-- ===== src/Atop/Netatop/Exits/First.antt =====
-- What the search of Qt/FakeAtop/netatopif.c finds by pid: the hash makes no difference to a search
-- through all exited tasks in their order.
use practice.Base.{
  ℕ, suc, ◌≡◌, refl, ap, ◌∙◌, sym, true, false, Option, none, some, List, [], ◌∷◌, ◌++◌, ◌==◌,
  ==_refl, if◌then◌else◌, get_or, get_or-drop, drop, drop-drop, set, set-get_or, Bool-cases, inl,
  inr, arith,
}
use practice.Atop.Tstat.{Tstat}
use practice.Atop.Netatop.Records.{Exitstore}
use practice.Atop.Netatop.Exits.{
  Hashtype, by_pid, Exits, hashcalc, hash_key, push_bucket, hash_from, netatop_exithash, no_buckets,
  fill_networkcnt, is_exit, mark_used, Found, no_exit, find_step, find_from, netatop_exitfind,
}

-- The first exited task with a pid.
unfoldable pub first_exit : ℕ → List Exitstore → Option Exitstore
first_exit key [] = none
first_exit key (esp ∷ esps) =
    let more = first_exit key esps in if key == esp.npt.id then some esp else more

-- The counters of the task that was found; without one the deviation stays as it is.
unfoldable pub with_exit : Option Exitstore → Tstat → Tstat → Tstat
with_exit none dev pre = dev
with_exit (some esp) dev pre = fill_networkcnt dev pre esp

one_key : ℕ → ℕ → ℕ → List ℕ
one_key h k i = if h == k then i ∷ [] else []

-- The numbers of one bucket, the last first.
keys : Hashtype → ℕ → ℕ → List Exitstore → List ℕ
unfolding one_key
keys t h i [] = []
keys t h i (esp ∷ esps) = keys t h (suc i) esps ++ one_key h (hashcalc (hash_key t esp)) i

append_assoc : (xs ys zs : List ℕ) → (xs ++ ys) ++ zs ≡ xs ++ (ys ++ zs)
append_assoc [] ys zs = refl
append_assoc (x ∷ xs) ys zs = ap (λ r. x ∷ r) (append_assoc xs ys zs)

push-one_key : (h k i : ℕ) (b : ℕ → List ℕ) → push_bucket k i b h ≡ one_key h k i ++ b h
unfolding push_bucket one_key
push-one_key h k i b = elim (Bool-cases (h == k)) [ inl e ↦ rw e refl | inr e ↦ rw e refl ]

hash_from-keys :
    (t : Hashtype) (h i : ℕ) (esps : List Exitstore) (b : ℕ → List ℕ)
    → hash_from t i esps b h ≡ keys t h i esps ++ b h
unfolding hash_from keys
hash_from-keys t h i [] b = refl
hash_from-keys t h i (esp ∷ esps) b =
    let k = hashcalc (hash_key t esp) in
    rw (hash_from-keys t h (suc i) esps (push_bucket k i b), push-one_key h k i b)
      (sym (append_assoc (keys t h (suc i) esps) (one_key h k i) (b h)))

find_from-append :
    (t : Hashtype) (key : ℕ) (pre : Tstat) (xs ys : List ℕ) (s : Found)
    → find_from t key pre (xs ++ ys) s ≡ find_from t key pre ys (find_from t key pre xs s)
unfolding find_from
find_from-append t key pre [] ys s = refl
find_from-append t key pre (x ∷ xs) ys s =
    find_from-append t key pre xs ys (find_step t key pre x s)

append-nil : (xs : List ℕ) → xs ++ [] ≡ xs
append-nil [] = refl
append-nil (x ∷ xs) = ap (λ r. x ∷ r) (append-nil xs)

fill-with_exit :
    (o : Option Exitstore) (dev pre : Tstat) (esp : Exitstore)
    → fill_networkcnt (with_exit o dev pre) pre esp ≡ fill_networkcnt dev pre esp
unfolding with_exit fill_networkcnt
fill-with_exit none dev pre esp = refl
fill-with_exit (some e) dev pre esp = refl

module _ (key : ℕ) (pre : Tstat) (all : List Exitstore) where
  step-found :
      (i : ℕ) (esp : Exitstore) (dev : Tstat)
      → get_or all i no_exit ≡ esp
      → (key == esp.npt.id) ≡ true
      → find_step by_pid key pre i (record { all = all; dev = dev })
        ≡ record { all = all; dev = fill_networkcnt dev pre esp }
  unfolding find_step is_exit mark_used
  step-found i esp dev g e =
      let w : set all i (get_or all i no_exit) ≡ all = set-get_or all i no_exit in
      let e' : (key == (get_or all i no_exit).npt.id) ≡ true = rw g e in rw (e', w, g) refl

  step-other :
      (i : ℕ) (esp : Exitstore) (dev : Tstat)
      → get_or all i no_exit ≡ esp
      → (key == esp.npt.id) ≡ false
      → find_step by_pid key pre i (record { all = all; dev = dev })
        ≡ record { all = all; dev = dev }
  unfolding find_step is_exit
  step-other i esp dev g e =
      let e' : (key == (get_or all i no_exit).npt.id) ≡ false = rw g e in rw (e') refl

  one_key-find :
      (i : ℕ) (esp : Exitstore) (esps : List Exitstore) (dev : Tstat)
      → get_or all i no_exit ≡ esp
      → find_from by_pid key pre
          (one_key (hashcalc key) (hashcalc esp.npt.id) i)
          (record { all = all; dev = with_exit (first_exit key esps) dev pre })
        ≡ record { all = all; dev = with_exit (first_exit key (esp ∷ esps)) dev pre }
  unfolding one_key find_from first_exit
  one_key-find i esp esps dev g = elim (Bool-cases (key == esp.npt.id)) [
    | inl e ↦
        let k : key ≡ esp.npt.id = ground arith in
        let d = with_exit (first_exit key esps) dev pre in
        let h : (hashcalc key == hashcalc esp.npt.id) ≡ true =
          rw k (==_refl (hashcalc esp.npt.id)) in
        rw (h, e, step-found i esp d g e, fill-with_exit (first_exit key esps) dev pre esp)
          (unfold with_exit in refl)
    | inr e ↦ elim (Bool-cases (hashcalc key == hashcalc esp.npt.id)) [
      | inl h ↦
          let d = with_exit (first_exit key esps) dev pre in rw (h, e, step-other i esp d g e) refl
      | inr h ↦ rw (h, e) refl
    ]
  ]

  keys-find :
      (i : ℕ) (esps : List Exitstore) (dev : Tstat)
      → drop i all ≡ esps
      → find_from by_pid key pre
          (keys by_pid (hashcalc key) i esps)
          (record { all = all; dev = dev })
        ≡ record { all = all; dev = with_exit (first_exit key esps) dev pre }
  unfolding keys hash_key
  keys-find i [] dev d = unfold find_from first_exit with_exit in refl
  keys-find i (esp ∷ esps) dev d =
      let d' : drop (suc i) all ≡ esps = rw (drop-drop i 1 (suc i) all (omega arith), d) refl in
      let g : get_or all i no_exit ≡ esp =
        rw (get_or-drop i 0 i all no_exit (omega arith), d) refl in
      let ks = keys by_pid (hashcalc key) (suc i) esps in
      let one = one_key (hashcalc key) (hashcalc esp.npt.id) i in
      rw
        (
          find_from-append by_pid key pre ks one (record { all = all; dev = dev }),
          keys-find (suc i) esps dev d',
        )
        (one_key-find i esp esps dev g)

-- Behind netatop_exiterase and netatop_exithash by pid, netatop_exitfind changes no stored task, and
-- the deviation gets the differences to the first of all stored tasks with the pid, and stays as it
-- is where none has it.
pub netatop_exitfind-first :
    (all : List Exitstore) (key : ℕ) (dev pre : Tstat)
    → netatop_exitfind key dev pre (
        netatop_exithash by_pid
          (record { exitall = all; exithash = by_pid; esbucket = no_buckets }))
      ≡ record { all = all; dev = with_exit (first_exit key all) dev pre }
unfolding netatop_exitfind netatop_exithash
netatop_exitfind-first all key dev pre =
    let h = hashcalc key in
    rw (hash_from-keys by_pid h 0 all no_buckets, append-nil (keys by_pid h 0 all))
      (keys-find key pre all 0 all dev refl)

-- Whatever is stored and searched, only the network counters of the deviation change.
pub gen-netatop_exitfind :
    (key : ℕ) (dev pre : Tstat) (s : Exits) → (netatop_exitfind key dev pre s).dev.gen ≡ dev.gen
unfolding netatop_exitfind find_from find_step fill_networkcnt
gen-netatop_exitfind key dev pre s =
    go (s.esbucket (hashcalc key)) (record { all = s.exitall; dev = dev })
  where
    go_step : (i : ℕ) (f : Found) → (find_step s.exithash key pre i f).dev.gen ≡ f.dev.gen
    go_step i f = ground arith

    go : (bucket : List ℕ) (f : Found) → (find_from s.exithash key pre bucket f).dev.gen ≡ f.dev.gen
    go [] f = refl
    go (i ∷ bucket) f = go bucket (find_step s.exithash key pre i f) ∙ go_step i f
