-- ===== src/Atop/Photosyst/Devmap/Lookup.antt =====
-- The search in the chain of the hash is the search in the whole directory.
use practice.Base.{
  ℕ, ◌<◌, ◌≡◌, refl, ap, ◌∙◌, Bool, true, ◌&&◌, ◌==◌, ==_refl, if◌then◌else◌, Bool-cases, inl, inr,
  Option, none, some, List, [], ◌∷◌, get_or, get_or-set, get_or-replicate, length, length-set,
  length-replicate, replicate, arith,
}
use practice.Base.Text.{Bytes}
use practice.Atop.Photosyst.Devmap.{
  numdmhash, dmhash, Devmap, MapEntry, short_name, add_devmap, add_devmaps, find_devmap,
  setup_devmaps, lvmmapname, start_devmaps,
}

-- A block device of these numbers for which there was memory.
abbrev pub is_device : ℕ → ℕ → MapEntry → Bool
is_device major minor e =
    (e.stat_ok && e.is_block && e.has_memory) && (e.major == major && e.minor == minor)

-- The last such entry of the directory.
unfoldable pub last_device : ℕ → ℕ → List MapEntry → Option Bytes → Option Bytes
last_device major minor [] old = old
last_device major minor (e ∷ entries) old =
    last_device major minor entries
      (if is_device major minor e then some (short_name e.d_name) else old)

abbrev lookup : ℕ → ℕ → List (List Devmap) → Option Bytes
lookup major minor devmaps = find_devmap major minor (get_or devmaps (dmhash major minor) [])

dmhash-lt : (x y : ℕ) → dmhash x y < 64
unfolding dmhash
dmhash-lt x y = omega arith

module _ (major minor : ℕ) where
  -- The chain of the hash, after an addition to the chain of the new entry.
  chosen :
      (dmp : Devmap) (devmaps : List (List Devmap))
      → (let x = dmhash dmp.major dmp.minor in
          let y = dmhash major minor in
          find_devmap major minor
            (if x == y then dmp ∷ get_or devmaps x [] else get_or devmaps y []))
        ≡ (if dmp.major == major && dmp.minor == minor
            then some dmp.name
            else lookup major minor devmaps)
  unfolding find_devmap
  chosen dmp devmaps =
      let x = dmhash dmp.major dmp.minor in
      let y = dmhash major minor in
      elim (Bool-cases (dmp.major == major && dmp.minor == minor)) [
        | inl q ↦
            let a : dmp.major ≡ major = ground arith in
            let b : dmp.minor ≡ minor = ground arith in
            let e : x ≡ y = ap (λ i. dmhash i dmp.minor) a ∙ ap (dmhash major) b in
            let t : (x == y) ≡ true = rw e (==_refl y) in rw (t, q) refl
        | inr q ↦ elim (Bool-cases (x == y)) [
          | inl t ↦ let e : x ≡ y = ground arith in rw (t, q, e) refl
          | inr t ↦ rw (t, q) refl
        ]
      ]

  lookup-add_devmap :
      (e : MapEntry) (devmaps : List (List Devmap))
      → length devmaps ≡ numdmhash
      → (lookup major minor (add_devmap e devmaps) ≡ (
          if is_device major minor e
          then some (short_name e.d_name)
          else lookup major minor devmaps))
        × (length (add_devmap e devmaps) ≡ numdmhash)
  unfolding add_devmap find_devmap
  lookup-add_devmap e devmaps h = elim (Bool-cases (e.stat_ok && e.is_block && e.has_memory)) [
    | inl b ↦
        let x = dmhash e.major e.minor in
        let y = dmhash major minor in
        let dmp : Devmap = record {
          major = e.major;
          minor = e.minor;
          name = short_name e.d_name;
        } in
        let chain = dmp ∷ get_or devmaps x [] in
        let g = get_or-set devmaps x y chain [] (rw h (dmhash-lt e.major e.minor)) in
        (rw (b, g) (chosen dmp devmaps), rw b (length-set devmaps x chain ∙ h))
    | inr b ↦ (rw b refl, rw b h)
  ]

  lookup-add_devmaps :
      (entries : List MapEntry) (devmaps : List (List Devmap))
      → length devmaps ≡ numdmhash
      → lookup major minor (add_devmaps entries devmaps)
        ≡ last_device major minor entries (lookup major minor devmaps)
  unfolding add_devmaps last_device
  lookup-add_devmaps [] devmaps h = refl
  lookup-add_devmaps (e ∷ entries) devmaps h =
      let one = lookup-add_devmap e devmaps h in
      lookup-add_devmaps entries (add_devmap e devmaps) one.1
      ∙ ap (last_device major minor entries) one.0

  -- Where /dev/mapper can be opened at the first call: a logical volume has the name of the last
  -- block device of its numbers in the directory for which there was memory, cut to 31 characters,
  -- and its own name, cut, where there is none.
  pub lvmmapname-last_device :
      (entries : List MapEntry) (curname : Bytes)
      → lvmmapname (setup_devmaps (some entries) start_devmaps) major minor curname
        ≡ elim (last_device major minor entries none) [
          | none ↦ short_name curname
          | some name ↦ short_name name
        ]
  unfolding lvmmapname setup_devmaps
  lvmmapname-last_device entries curname =
      let start : List (List Devmap) = replicate numdmhash [] in
      let empty : lookup major minor start ≡ none =
        unfold find_devmap in
        ap (find_devmap major minor) (get_or-replicate numdmhash (dmhash major minor) []) in
      let e =
        lookup-add_devmaps entries start (length-replicate {A = List Devmap} numdmhash [])
        ∙ ap (last_device major minor entries) empty in
      rw (lvmmapname, e) refl
