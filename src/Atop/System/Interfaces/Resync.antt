-- ===== src/Atop/System/Interfaces/Resync.antt =====
-- deviatsyst finds the previous counters of an interface by walking both lists at once and searching
-- from the start where the names differ: that is the lookup of the name.
use practice.Base.{
  ℕ, suc, ◌≡◌, ◌≢◌, refl, sym, ap, drop, get_or-drop, drop-drop, ◌∙◌, true, Option, none, some,
  Option-cases, inl, inr, Bool-cases, List, [], ◌∷◌, get_or, arith,
}
use practice.Base.Text.{same_text, same_text_refl}
use practice.Atop.Sstat.{Perintf, Intfstat}
use practice.Atop.Deviate.Counters.{subcount_zero}
use practice.Atop.System.Names.{
  named, by_name, IsAllNamed, IsDistinct, IsUnique, IsDistinct-IsUnique, IsDistinct-IsAllNamed,
  by_name-named, by_name-get_or, seek-found, seek-missing,
}
use practice.Atop.System.Interfaces.{
  no_perintf, first_intf, intf_name, intf_deviation, intf_found, intf_step, intf_passes,
  with_ifprop, with_ifprops, first_names, named_pre, deviate_intf,
}
use practice.Atop.System.Properties.{Ifprop}

-- The difference to the entry of pre of the same name; the counters themselves where there is none.
abbrev pub since : Option Perintf → Perintf → Perintf
since none c = c
since (some p) c = intf_deviation c p

abbrev pub intfs_since : List Perintf → List Perintf → List Perintf
intfs_since pre [] = []
intfs_since pre (c ∷ cs) = since (by_name intf_name c.name pre) c ∷ intfs_since pre cs

module _ (pre : List Perintf) (v : IsDistinct intf_name pre) where
  intf_step-by_name :
      (c : Perintf) (j : ℕ)
      → named c.name ≡ true
      → (intf_step c pre j).dev ≡ since (by_name intf_name c.name pre) c
  unfolding intf_step intf_found
  intf_step-by_name c j w =
      elim (Bool-cases (same_text c.name (intf_name (get_or pre j no_perintf)))) [
        | inl e ↦ rw (e, by_name-get_or intf_name no_perintf refl c.name pre j unique w e) refl
        | inr e ↦ elim (Option-cases (by_name intf_name c.name pre)) [
          | inl n ↦ rw (e, n, seek-missing intf_name no_perintf refl c.name pre all n) refl
          | inr (p, n) ↦
              rw
                (
                  e,
                  n,
                  seek-found intf_name no_perintf refl c.name pre p all n,
                  by_name-named intf_name c.name pre p all n,
                )
                refl
        ]
      ]
    where
      unique : IsUnique intf_name pre
      unique = IsDistinct-IsUnique intf_name pre v

      all : IsAllNamed intf_name pre
      all = IsDistinct-IsAllNamed intf_name pre v

  intf_passes-by_name :
      (cs : List Perintf) (j : ℕ)
      → IsAllNamed intf_name cs
      → (intf_passes cs pre j).dev ≡ intfs_since pre cs
  unfolding intf_passes
  intf_passes-by_name [] j w = refl
  intf_passes-by_name (c ∷ cs) j w =
      rw (w.0, intf_step-by_name c j w.0, intf_passes-by_name cs (intf_step c pre j).next w.1) refl

-- The entry that the first sample leaves in pre for an interface.
abbrev stamp : Perintf → Perintf
stamp c = record no_perintf {
  name = c.name;
  type = c.type;
  speed = c.speed;
  speedp = c.speedp;
  duplex = c.duplex;
}

abbrev stamps : List Perintf → List Perintf
stamps [] = []
stamps (c ∷ cs) = stamp c ∷ stamps cs

first_names-nil : (cs : List Perintf) → IsAllNamed intf_name cs → first_names cs [] ≡ stamps cs
unfolding first_names
first_names-nil [] w = refl
first_names-nil (c ∷ cs) w = rw (w.0, first_names-nil cs w.1) refl

-- Every speedp is the speed, as with_ifprop leaves it.
abbrev IsFresh : List Perintf → Type 0
IsFresh [] = Unit
IsFresh (c ∷ cs) = (c.speedp ≡ c.speed) × IsFresh cs

intf_deviation-stamp : (c : Perintf) → c.speedp ≡ c.speed → intf_deviation c (stamp c) ≡ c
unfolding intf_deviation
intf_deviation-stamp c h =
    rw
      (
        subcount_zero c.rbyte,
        subcount_zero c.rpack,
        subcount_zero c.rerrs,
        subcount_zero c.rdrop,
        subcount_zero c.rfifo,
        subcount_zero c.rframe,
        subcount_zero c.rcompr,
        subcount_zero c.rmultic,
        subcount_zero c.sbyte,
        subcount_zero c.spack,
        subcount_zero c.serrs,
        subcount_zero c.sdrop,
        subcount_zero c.sfifo,
        subcount_zero c.scollis,
        subcount_zero c.scarrier,
        subcount_zero c.scompr,
      )
      (ap (λ s. let d : Perintf = record c { speedp = s } in d) (sym h))

intf_passes-first :
    (cs pre : List Perintf) (j : ℕ)
    → IsAllNamed intf_name cs
    → IsFresh cs
    → drop j pre ≡ stamps cs
    → (intf_passes cs pre j).dev ≡ cs
unfolding intf_passes
intf_passes-first [] pre j w f h = refl
intf_passes-first (c ∷ cs) pre j w f h =
    let e : get_or pre j no_perintf ≡ stamp c =
      get_or-drop j 0 j pre no_perintf (omega arith) ∙ ap (λ l. get_or l 0 no_perintf) h in
    let d : drop (suc j) pre ≡ stamps cs =
      drop-drop j 1 (suc j) pre (omega arith) ∙ ap (drop 1) h in
    let s : intf_step c pre j
        ≡ record { dev = c; cur = record c { speedp = c.speed }; next = suc j } =
      unfold intf_step intf_found in
      rw (e, same_text_refl c.name, intf_deviation-stamp c f.0) refl in
    rw (w.0, s, intf_passes-first cs pre (suc j) w.1 f.1 d) refl

with_ifprops-IsFresh :
    (ifprops : List Ifprop) (cs : List Perintf)
    → IsAllNamed intf_name cs
    → IsAllNamed intf_name (with_ifprops ifprops cs) × IsFresh (with_ifprops ifprops cs)
unfolding with_ifprops with_ifprop
with_ifprops-IsFresh ifprops [] w = (tt, tt)
with_ifprops-IsFresh ifprops (c ∷ cs) w =
    let t = with_ifprops-IsFresh ifprops cs w.1 in rw w.0 ((w.0, t.0), (refl, t.1))

first_intf-named :
    (l : List Perintf) → l ≢ [] → IsDistinct intf_name l → named (intf_name (first_intf l)) ≡ true
first_intf-named [] n v = absurd (n refl)
first_intf-named (c ∷ cs) n v = v.0

module _ (ifprops : List Ifprop) (cur pre : Intfstat) (w : IsAllNamed intf_name cur.intf) where
  -- Where every interface of cur has a name: with the first sample, the deviations are the counters
  -- themselves. Later, where every interface of pre has a name and no two have the same, and
  -- whatever was added, removed or moved in between, the deviation of an interface is the difference
  -- to the entry of pre of its name, and its counters where pre has none.
  pub deviate_intf-by_name :
      (pre.intf ≡ [] → (deviate_intf ifprops cur pre).dev.intf ≡ with_ifprops ifprops cur.intf)
      × (pre.intf ≢ []
          → IsDistinct intf_name pre.intf
          → (deviate_intf ifprops cur pre).dev.intf
            ≡ intfs_since pre.intf (with_ifprops ifprops cur.intf))
  unfolding deviate_intf named_pre
  deviate_intf-by_name =
      let t = with_ifprops-IsFresh ifprops cur.intf w in
      let c = with_ifprops ifprops cur.intf in
      (
        λ e. rw (e, first_names-nil c t.0) (intf_passes-first c (stamps c) 0 t.0 t.1 refl),
        λ n v. rw (first_intf-named pre.intf n v) (intf_passes-by_name pre.intf v c 0 t.0),
      )
