-- ===== src/Atop/System/Disks/Changes.antt =====
-- Which entry of the previous sample deviatsyst takes for a disk: the right one as long as disks only
-- disappear or are added at the end; none any more behind a disk that was added before others.
use practice.Base.{
  ℕ, suc, ◌+◌, ◌≡◌, refl, sym, ap, ◌∙◌, true, false, none, List, [], ◌∷◌, drop, get_or-drop,
  drop-drop, arith,
}
use practice.Base.Text.{same_text, same_text_refl, same_text_swap}
use practice.Atop.Sstat.{Perdsk}
use practice.Atop.Deviate.Counters.{subcount_zero}
use practice.Atop.System.Names.{
  named, seek, by_name, IsAllNamed, seek-shift, by_name_first, by_name_rest, IsAllNamed-drop,
  by_name-drop,
}
use practice.Atop.System.Disks.{no_perdsk, disk_name, disk_deviation, disk_index, disk_deviations}

disk_index-shift :
    (c : Perdsk) (pre : List Perdsk) (j k i : ℕ)
    → i ≡ j + k
    → disk_index c pre i ≡ j + disk_index c (drop j pre) k
unfolding disk_index
disk_index-shift c pre j k i h =
    let e = get_or-drop j k i pre no_perdsk h in
    let d = drop-drop j (suc k) (suc i) pre (omega arith) in
    let s =
      seek-shift disk_name c.name j (suc k) (suc i) (drop (suc k) (drop j pre)) (omega arith) in
    rw (e, d, s) (ground arith)

-- What the loop does from index j on depends on the entries from j on.
deviations-shift :
    (cs pre : List Perdsk) (j k i : ℕ)
    → i ≡ j + k
    → disk_deviations cs pre i ≡ disk_deviations cs (drop j pre) k
unfolding disk_deviations
deviations-shift [] pre j k i h = refl
deviations-shift (c ∷ cs) pre j k i h =
    let m = disk_index c (drop j pre) k in
    let e : disk_index c pre i ≡ j + m = disk_index-shift c pre j k i h in
    let d = get_or-drop j m (j + m) pre no_perdsk refl in
    let t = deviations-shift cs pre j (suc m) (suc (j + m)) (omega arith) in rw (e, d, t) refl

-- The cur disks, each with the entry of pre that it is compared with, and the cleared entry where none is.
unfoldable pub deviations_from : List Perdsk → List Perdsk → List Perdsk
deviations_from [] olds = []
deviations_from (c ∷ cs) [] = []
deviations_from (c ∷ cs) (o ∷ os) = disk_deviation c o ∷ deviations_from cs os

all_new : (c : Perdsk) → disk_deviation c no_perdsk ≡ c
unfolding disk_deviation
all_new c =
    rw
      (
        subcount_zero c.nread,
        subcount_zero c.nrsect,
        subcount_zero c.nwrite,
        subcount_zero c.nwsect,
        subcount_zero c.io_ms,
        subcount_zero c.avque,
      )
      refl

-- Behind the last entry of pre a disk is compared with cleared entries.
deviations_nil : (cs : List Perdsk) (j : ℕ) → IsAllNamed disk_name cs → disk_deviations cs [] j ≡ cs
unfolding disk_deviations
deviations_nil [] j v = refl
deviations_nil (c ∷ cs) j v =
    let t = deviations_nil cs (suc (disk_index c [] j)) v.1 in rw (v.0, all_new c, t) refl

-- An entry of another name first.
deviations_skip :
    (c p : Perdsk) (cs ps : List Perdsk)
    → IsAllNamed disk_name (c ∷ cs)
    → IsAllNamed disk_name ps
    → same_text c.name p.name ≡ false
    → disk_deviations (c ∷ cs) (p ∷ ps) 0 ≡ disk_deviations (c ∷ cs) ps 0
deviations_skip c p cs [] v w h =
    let e : disk_index c (p ∷ []) 0 ≡ 1 = unfold disk_index seek in rw h refl in
    let t = deviations-shift cs (p ∷ []) 2 0 2 refl in
    let l = deviations_nil cs 0 v.1 in
    let r = deviations_nil cs (suc (disk_index c [] 0)) v.1 in
    unfold disk_deviations in rw (e, t, l, r) refl
deviations_skip c p cs (q ∷ qs) v w h =
    let m = disk_index c (q ∷ qs) 0 in
    let e : disk_index c (p ∷ q ∷ qs) 0 ≡ suc m =
      unfold disk_index seek in
      rw (h, w.0) (ground (arith, seek-shift disk_name c.name 1 1 2 qs refl)) in
    let t = deviations-shift cs (p ∷ q ∷ qs) 1 (suc m) (suc (suc m)) (omega arith) in
    unfold disk_deviations in rw (e, t) refl

-- How the list of disks changed between two samples, and for each disk of cur the entry of pre that it
-- continues: disks of pre are gone, and disks behind all those of pre are new.
pub data IsChange : List Perdsk → List Perdsk → List Perdsk → Type 0 where
  ended : IsChange [] [] []
  kept :
      {p c : Perdsk} {ps cs os : List Perdsk}
      → named p.name ≡ true
      → c.name ≡ p.name
      → IsChange ps cs os
      → IsChange (p ∷ ps) (c ∷ cs) (p ∷ os)
  gone :
      {p : Perdsk} {ps cs os : List Perdsk}
      → named p.name ≡ true
      → by_name disk_name p.name cs ≡ none
      → IsChange ps cs os
      → IsChange (p ∷ ps) cs os
  added :
      {c : Perdsk} {cs os : List Perdsk}
      → named c.name ≡ true
      → IsChange [] cs os
      → IsChange [] (c ∷ cs) (no_perdsk ∷ os)

pre_named : {ps cs os : List Perdsk} → IsChange ps cs os → IsAllNamed disk_name ps
pre_named ended = tt
pre_named (kept v e h) = (v, pre_named h)
pre_named (gone v e h) = (v, pre_named h)
pre_named (added v h) = tt

cur_named : {ps cs os : List Perdsk} → IsChange ps cs os → IsAllNamed disk_name cs
cur_named ended = tt
cur_named (kept v e h) = (rw e v, cur_named h)
cur_named (gone v e h) = cur_named h
cur_named (added v h) = (v, cur_named h)

-- As long as disks only disappear or are added at the end (IsChange, in which every disk has a
-- name), each disk is compared with its own entry of the previous sample, and a new disk with
-- zeroes.
pub disk_deviations-IsChange :
    {ps cs os : List Perdsk} → IsChange ps cs os → disk_deviations cs ps 0 ≡ deviations_from cs os
unfolding disk_deviations deviations_from
disk_deviations-IsChange ended = refl
disk_deviations-IsChange (kept {p = p} {c = c} {ps = ps} {cs = cs} v e h) =
    let m : disk_index c (p ∷ ps) 0 ≡ 0 = unfold disk_index in rw (e, same_text_refl p.name) refl in
    let t = deviations-shift cs (p ∷ ps) 1 0 1 refl in
    let n : named c.name ≡ true = rw e v in rw (n, m, t, disk_deviations-IsChange h) refl
disk_deviations-IsChange (gone {p = p} {ps = ps} {cs = []} v e h) = refl
disk_deviations-IsChange (gone {p = p} {ps = ps} {cs = c ∷ cs} v e h) =
    deviations_skip c p cs ps (cur_named h) (pre_named h)
      (same_text_swap p.name c.name (by_name_first disk_name p.name c cs e))
    ∙ disk_deviations-IsChange h
disk_deviations-IsChange (added {c = c} {cs = cs} {os = os} v h) =
    let n = deviations_nil cs (suc (disk_index c [] 0)) (cur_named h) in
    let t = sym (deviations_nil cs 0 (cur_named h)) ∙ disk_deviations-IsChange h in
    rw (v, n) (ap (λ r. disk_deviation c no_perdsk ∷ r) t)

-- Where every disk of cur and of pre has a name: at whatever index of pre the loop is, from a disk
-- on that pre does not hold, the deviations are the counters of cur themselves, as if no disk had
-- been there before.
pub disk_deviations-forgets :
    (c : Perdsk) (cs pre : List Perdsk) (j : ℕ)
    → IsAllNamed disk_name (c ∷ cs)
    → IsAllNamed disk_name pre
    → by_name disk_name c.name pre ≡ none
    → disk_deviations (c ∷ cs) pre j ≡ c ∷ cs
disk_deviations-forgets c cs pre j v w h =
    let rest = drop j pre in
    deviations-shift (c ∷ cs) pre j 0 j (omega arith)
    ∙ from_start rest (IsAllNamed-drop disk_name j pre w) (by_name-drop disk_name c.name j pre h)
  where
    from_start :
        (rest : List Perdsk)
        → IsAllNamed disk_name rest
        → by_name disk_name c.name rest ≡ none
        → disk_deviations (c ∷ cs) rest 0 ≡ c ∷ cs
    from_start [] a n = deviations_nil (c ∷ cs) 0 v
    from_start (p ∷ ps) a n =
        deviations_skip c p cs ps v a.1 (by_name_first disk_name c.name p ps n)
        ∙ from_start ps a.1 (by_name_rest disk_name c.name p ps n)
