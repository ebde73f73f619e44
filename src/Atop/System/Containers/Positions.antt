-- ===== src/Atop/System/Containers/Positions.antt =====
-- Which entry of the previous sample deviatsyst takes for a container.
use practice.Base.{
  ℕ, zero, suc, ◌+◌, ◌≡◌, refl, ap, ◌∙◌, Option, none, some, List, [], ◌∷◌, length, get_elem?,
  get_or, arith,
}
use practice.Atop.Sstat.{Percontainer, Contstat}
use practice.Atop.System.Containers.{
  no_container, container_deviation, container_index, container_deviations, cfs_deviation,
}

-- The difference to the entry of pre of the same index.
abbrev pub since_index : Contstat → ℕ → Option Percontainer → Option Percontainer
since_index pre i none = none
since_index pre i (some c) = some (container_deviation c (get_or pre.cont i no_container))

container_deviations-get_elem? :
    (pre : Contstat) (cs : List Percontainer) (n i j : ℕ)
    → get_elem? (container_deviations pre.nrcontainer (length cs) cs pre.cont i j) n
      ≡ since_index pre (i + n) (get_elem? cs n)
unfolding container_deviations
container_deviations-get_elem? pre [] n i j = refl
container_deviations-get_elem? pre (c ∷ cs) zero i j =
    let e : i ≡ i + 0 = omega arith in ap (λ k. since_index pre k (some c)) e
container_deviations-get_elem? pre (c ∷ cs) (suc n) i j =
    let e : suc i + n ≡ i + suc n = omega arith in
    container_deviations-get_elem? pre cs n (suc i)
      (suc (container_index c pre.cont pre.nrcontainer j))
    ∙ ap (λ k. since_index pre k (get_elem? cs n)) e

-- Where cur holds nrcontainer containers, each of them is compared with the entry of pre that has the
-- same index, whatever the container ids of the two entries are.
pub cfs_deviation-since_index :
    (cur pre : Contstat) (n : ℕ)
    → cur.nrcontainer ≡ length cur.cont
    → get_elem? (cfs_deviation cur pre).cont n ≡ since_index pre n (get_elem? cur.cont n)
unfolding cfs_deviation
cfs_deviation-since_index cur pre n h =
    let e : 0 + n ≡ n = omega arith in
    rw h (container_deviations-get_elem? pre cur.cont n 0 0)
    ∙ ap (λ k. since_index pre k (get_elem? cur.cont n)) e
