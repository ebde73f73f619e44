-- ===== src/Atop/System/Nfs/Fresh.antt =====
-- Which entry of the previous sample deviatsyst takes for an NFS mount.
use practice.Base.{
  ℕ, zero, suc, ◌+◌, ◌≤◌, ◌<◌, ◌≡◌, refl, sym, ◌∙◌, ◌⊎◌, inl, inr, true, false, Option, none, some,
  Option-cases, Bool-cases, List, [], ◌∷◌, length, length-set, get_or, set, arith, leb,
  if◌then◌else◌, get_or-beyond, ◌==◌,
}
use practice.Base.Text.{Bytes, same_text, same_text_eq, same_text_swap}
use practice.Atop.Sstat.{Pernfsmount, Nfsstat}
use practice.Atop.System.Names.{
  named, by_name, by_name_first, by_name_rest, by_name-get_or, same_text-unnamed, IsAllNamed,
  IsDistinct, IsDistinct-IsAllNamed, IsDistinct-IsUnique, IsUnique,
}
use practice.Atop.System.Names.Cleared.{
  by_name-same, by_name-index, by_name-set, IsUnique-set, get_or-cleared,
}
use practice.Atop.System.Nfs.{
  no_mount, mount_name, mount_deviation, seek_mount, mount_index, mount_passes, deviate_nfs,
}

abbrev pub or_no_mount : Option Pernfsmount → Pernfsmount
or_no_mount none = no_mount
or_no_mount (some p) = p

-- A mount that is not older than the interval is compared with zeroes, as is one that pre does not
-- hold; any other one with the entry of pre of its name.
abbrev pub mount_since : ℕ → List Pernfsmount → Pernfsmount → Pernfsmount
mount_since interval pre c =
    mount_deviation c
      (if leb c.age interval then no_mount else or_no_mount (by_name mount_name c.mountdev pre))

abbrev pub mounts_since : ℕ → List Pernfsmount → List Pernfsmount → List Pernfsmount
mounts_since interval pre [] = []
mounts_since interval pre (c ∷ cs) = mount_since interval pre c ∷ mounts_since interval pre cs

between :
    (n : Bytes) (pre : List Pernfsmount) (j m : ℕ)
    → same_text n (mount_name (get_or pre j no_mount)) ≡ false
    → ((i : ℕ)
        → suc j ≤ i
        → i < suc j + m
        → same_text n (mount_name (get_or pre i no_mount)) ≡ false)
    → (i : ℕ) → j ≤ i
    → i < j + suc m
    → same_text n (mount_name (get_or pre i no_mount)) ≡ false
between n pre j m e h i a b = elim (Bool-cases (i == j)) [
  | inl q ↦ let q' : i ≡ j = ground arith in rw q' e
  | inr q ↦ h i (ground arith) (omega arith)
]

seek_mount-cases :
    (n : Bytes) (pre : List Pernfsmount) (m j : ℕ)
    → (same_text n (mount_name (get_or pre (seek_mount n pre m j) no_mount)) ≡ true)
      ⊎ ((seek_mount n pre m j ≡ j + m)
          × ((i : ℕ)
              → j ≤ i
              → i < j + m
              → same_text n (mount_name (get_or pre i no_mount)) ≡ false))
unfolding seek_mount
seek_mount-cases n pre zero j = inr (omega arith, λ i a b. absurd (omega arith))
seek_mount-cases n pre (suc m) j =
    elim (Bool-cases (same_text n (mount_name (get_or pre j no_mount)))) [
      | inl e ↦ rw e (inl e)
      | inr e ↦ rw e (elim (seek_mount-cases n pre m (suc j)) [
        | inl h ↦ inl h
        | inr h ↦ inr (omega (arith, h.0), λ i a b. between n pre j m e h.1 i a b)
      ])
    ]

module _ (pre : List Pernfsmount) (v : IsUnique mount_name pre) where
  seek_mount-by_name :
      (n : Bytes)
      → named n ≡ true
      → get_or pre (seek_mount n pre (length pre) 0) no_mount
        ≡ or_no_mount (by_name mount_name n pre)
  seek_mount-by_name n w = elim (seek_mount-cases n pre (length pre) 0) [
    | inl h ↦
        rw (by_name-get_or mount_name no_mount refl n pre (seek_mount n pre (length pre) 0) v w h)
          refl
    | inr h ↦ elim (Option-cases (by_name mount_name n pre)) [
      | inl e ↦
          rw e (get_or-beyond pre (seek_mount n pre (length pre) 0) no_mount (omega (arith, h.0)))
      | inr (p, e) ↦ absurd (
          let t = by_name-index mount_name no_mount refl n pre p e in
          let s = by_name-same mount_name n pre p e in
          let f : same_text n (mount_name p) ≡ false =
            rw⁻¹ t.2 (h.1 t.0 (omega arith) (omega (arith, t.1))) in
          ground arith)
    ]
  ]

  mount_index-by_name :
      (c : Pernfsmount) (j : ℕ)
      → named c.mountdev ≡ true
      → get_or pre (mount_index c pre (length pre) j) no_mount
        ≡ or_no_mount (by_name mount_name c.mountdev pre)
  unfolding mount_index
  mount_index-by_name c j w =
      elim (Bool-cases (same_text c.mountdev (mount_name (get_or pre j no_mount)))) [
        | inl e ↦ rw (e, by_name-get_or mount_name no_mount refl c.mountdev pre j v w e) refl
        | inr e ↦ rw e (seek_mount-by_name c.mountdev w)
      ]

-- The counters of a mount that is found again do not change what later mounts are compared with.
mounts_since-set :
    (interval : ℕ) (pre cs : List Pernfsmount) (k : ℕ)
    → IsAllNamed mount_name cs
    → by_name mount_name (mount_name (get_or pre k no_mount)) cs ≡ none
    → mounts_since interval (set pre k no_mount) cs ≡ mounts_since interval pre cs
mounts_since-set interval pre [] k w h = refl
mounts_since-set interval pre (c ∷ cs) k w h =
    let s =
      same_text_swap (mount_name (get_or pre k no_mount)) c.mountdev
        (by_name_first mount_name (mount_name (get_or pre k no_mount)) c cs h) in
    let t =
      mounts_since-set interval pre cs k w.1
        (by_name_rest mount_name (mount_name (get_or pre k no_mount)) c cs h) in
    rw (by_name-set mount_name no_mount refl c.mountdev pre k w.0 s, t) refl

by_name-unnamed :
    (cs : List Pernfsmount) → IsAllNamed mount_name cs → by_name mount_name [] cs ≡ none
unfolding by_name
by_name-unnamed [] w = refl
by_name-unnamed (c ∷ cs) w =
    rw (same_text_swap c.mountdev [] (same_text-unnamed c.mountdev w.0), by_name-unnamed cs w.1)
      refl

-- No later mount has the name of the entry that is cleared.
cleared_gone :
    (c : Pernfsmount) (cs pre : List Pernfsmount)
    → IsDistinct mount_name (c ∷ cs)
    → by_name mount_name (mount_name (or_no_mount (by_name mount_name c.mountdev pre))) cs ≡ none
cleared_gone c cs pre w = elim (Option-cases (by_name mount_name c.mountdev pre)) [
  | inl e ↦ rw e (by_name-unnamed cs (IsDistinct-IsAllNamed mount_name cs w.2))
  | inr (p, e) ↦
      let n = same_text_eq c.mountdev p.mountdev (by_name-same mount_name c.mountdev pre p e) in
      rw (e, sym n) w.1
]

mount_passes-by_name :
    (interval : ℕ) (cs pre : List Pernfsmount) (m j : ℕ)
    → m ≡ length pre
    → IsDistinct mount_name cs
    → IsUnique mount_name pre
    → (mount_passes interval m (length cs) cs pre j).dev ≡ mounts_since interval pre cs
unfolding mount_passes
mount_passes-by_name interval [] pre m j h w v = refl
mount_passes-by_name interval (c ∷ cs) pre m j h w v =
    let k = mount_index c pre m j in
    let e : get_or pre k no_mount ≡ or_no_mount (by_name mount_name c.mountdev pre) =
      rw h (mount_index-by_name pre v c j w.0) in
    let pre' = set pre k no_mount in
    let t =
      mount_passes-by_name interval cs pre' m (suc k) (h ∙ sym (length-set pre k no_mount)) w.2
        (IsUnique-set mount_name no_mount refl pre k v) in
    let g : by_name mount_name (mount_name (get_or pre k no_mount)) cs ≡ none =
      rw e (cleared_gone c cs pre w) in
    let f = mounts_since-set interval pre cs k (IsDistinct-IsAllNamed mount_name cs w.2) g in
    let r = mount_passes-by_name interval cs pre m (suc k) h w.2 v in
    elim (Bool-cases (leb c.age interval)) [
      | inl a ↦ rw (a, get_or-cleared mount_name no_mount refl pre k, t, f) refl
      | inr a ↦ rw (a, e, r) refl
    ]

-- Where the mounts of each sample have names that are all different, and are as many as nrmounts
-- says, each mount is compared with the entry of pre of its name, whatever was mounted or unmounted
-- in between: a mount that is not older than the interval, and one that pre does not hold, with
-- zeroes.
pub deviate_nfs-by_name :
    (interval : ℕ) (cur pre : Nfsstat)
    → cur.nrmounts ≡ length cur.nfsmnt
    → pre.nrmounts ≡ length pre.nfsmnt
    → IsDistinct mount_name cur.nfsmnt
    → IsDistinct mount_name pre.nfsmnt
    → (deviate_nfs interval cur pre).dev.nfsmnt ≡ mounts_since interval pre.nfsmnt cur.nfsmnt
unfolding deviate_nfs
deviate_nfs-by_name interval cur pre h k w v = rw h (
    mount_passes-by_name interval cur.nfsmnt pre.nfsmnt pre.nrmounts 0 k w
      (IsDistinct-IsUnique mount_name pre.nfsmnt v))
