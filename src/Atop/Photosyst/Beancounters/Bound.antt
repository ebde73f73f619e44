-- ===== src/Atop/Photosyst/Beancounters/Bound.antt =====
-- How many containers photosyst counts, and how many entries it fills.
use practice.Base.{
  ℕ, suc, ◌+◌, ◌≤◌, ◌<◌, ◌≡◌, refl, Bool-cases, inl, inr, leb, List, [], ◌∷◌, ◌++◌, length,
  length-append, arith,
}
use practice.Atop.Sstat.{Percontainer, Contstat}
use practice.Atop.Photosyst.Beancounters.{
  maxcontainer, BeanLine, BeanLine.new_container, BeanLine.resource, BeanLine.other, bean_count,
  empty_container, bean_lines, read_beancounters,
}

-- The containers of the file.
unfoldable pub containers_in : List BeanLine → ℕ
containers_in [] = 0
containers_in (new_container ctid label cnt ∷ lines) = suc (containers_in lines)
containers_in (resource label cnt ∷ lines) = containers_in lines
containers_in (other ∷ lines) = containers_in lines

-- With room for n containers all of them are counted and have an entry; else one more is counted than
-- the array has entries.
pub record IsCounted (n : ℕ) (c : Contstat) : Type 0 where
  pub within : n ≤ maxcontainer → (c.nrcontainer ≡ n) × (length c.cont ≡ n)
  pub beyond :
      maxcontainer < n → (c.nrcontainer ≡ suc maxcontainer) × (length c.cont ≡ maxcontainer)

bean_lines-IsCounted :
    (lines : List BeanLine) (i n : ℕ) (done : List Percontainer) (c : Percontainer)
    → length done ≡ i
    → i < maxcontainer
    → n ≡ suc i + containers_in lines
    → IsCounted n (bean_lines lines i done c)
unfolding bean_lines containers_in
bean_lines-IsCounted [] i n done c h r e =
    let l = length-append done (c ∷ []) in
    record { within = λ w. (omega arith, omega (arith, l)); beyond = λ w. absurd (omega arith) }
bean_lines-IsCounted (new_container ctid label cnt ∷ lines) i n done c h r e =
    let l = length-append done (c ∷ []) in
    elim (Bool-cases (leb maxcontainer (suc i))) [
      | inl b ↦ rw b (record {
        within = λ w. absurd (ground arith);
        beyond = λ w. (ground arith, ground (arith, l));
      })
      | inr b ↦ rw b (
          bean_lines-IsCounted lines (suc i) n (done ++ c ∷ [])
            (bean_count label cnt (empty_container ctid)) (omega (arith, l)) (ground arith)
            (omega arith))
    ]
bean_lines-IsCounted (resource label cnt ∷ lines) i n done c h r e =
    bean_lines-IsCounted lines i n done (bean_count label cnt c) h r e
bean_lines-IsCounted (other ∷ lines) i n done c h r e = bean_lines-IsCounted lines i n done c h r e

-- Up to 128 containers are counted, each with its entry. From 129 on the number of containers is 129,
-- one more than the entries of the array.
pub read_beancounters-IsCounted :
    (lines : List BeanLine) → IsCounted (containers_in lines) (read_beancounters lines)
unfolding read_beancounters containers_in
read_beancounters-IsCounted [] = record {
  within = λ w. (refl, refl);
  beyond = λ w. absurd (omega arith);
}
read_beancounters-IsCounted (new_container ctid label cnt ∷ lines) =
    bean_lines-IsCounted lines 0 (suc (containers_in lines)) []
      (bean_count label cnt (empty_container ctid)) refl (omega arith) (omega arith)
read_beancounters-IsCounted (resource label cnt ∷ lines) = read_beancounters-IsCounted lines
read_beancounters-IsCounted (other ∷ lines) = read_beancounters-IsCounted lines
