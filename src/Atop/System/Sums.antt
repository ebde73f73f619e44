-- ===== src/Atop/System/Sums.antt =====
-- deviatsyst and totalsyst together, as the reports of Qt/FakeAtop/atopsar.c use them: the deviations
-- of a sequence of samples, added up, are what happened between the first and the last.
pub mod Counters
use practice.Base.{
  ℕ, zero, suc, ◌+◌, ◌-◌, ◌%◌, ◌^◌, ◌≤◌, ◌<◌, ◌≡◌, refl, sym, ap, ◌∙◌, Bool, true, false, List, [],
  ◌∷◌, arith, if◌then◌else◌, ltb, leb, ◌==◌,
}
use practice.Atop.Deviate.{subcount, count_mod}
use practice.Atop.Sstat.{Sstat}
use practice.Atop.System.Count.{plus}
use practice.Atop.System.Properties.{Ifprop}
use practice.Atop.System.{deviatsyst, totalsyst}

-- A sample, and the length of the interval that it ends.
pub record Snapshot : Type 0 where
  pub syst : Sstat
  pub interval : ℕ

plus_lt : (a b : ℕ) → plus a b < 2 ^ 64
plus_lt a b = ground arith

-- Two intervals in a row.
plus-chain :
    (tot a b z : ℕ)
    → a ≤ b
    → b ≤ z
    → z < 2 ^ 63
    → tot < 2 ^ 64
    → plus (plus tot (subcount b a)) (z - b) ≡ plus tot (z - a)
unfolding subcount
plus-chain tot a b z h k l t = ground arith

module _ (f : Sstat → ℕ) where
  -- A counter that never gets smaller, and stays below 2^63.
  abbrev pub IsRising : ℕ → List Snapshot → Type 0
  IsRising old [] = old < 2 ^ 63
  IsRising old (s ∷ rest) = (old ≤ f s.syst) × IsRising (f s.syst) rest

  -- What the counter is in the last sample.
  abbrev pub last_count : ℕ → List Snapshot → ℕ
  last_count old [] = old
  last_count old (s ∷ rest) = last_count (f s.syst) rest

  last_count-le :
      (l : List Snapshot) (old : ℕ)
      → IsRising old l
      → (old ≤ last_count old l) × (last_count old l < 2 ^ 63)
  last_count-le [] old h = (omega arith, h)
  last_count-le (s ∷ rest) old h = let t = last_count-le rest (f s.syst) h.1 in (omega arith, t.1)

module _ (httpstats : Bool) (ifprops : List Ifprop) (category : ℕ) where
  -- The loop of the samples: pre is the sample before, dev the structure of the deviations, which is
  -- used again each time, and tot the totals.
  unfoldable pub report : List Snapshot → Sstat → Sstat → Sstat → Sstat
  report [] pre dev tot = tot
  report (s ∷ rest) pre dev tot =
      let r = deviatsyst httpstats ifprops s.syst pre dev s.interval in
      report rest r.cur r.dev (totalsyst httpstats category r.dev tot)

  -- A number of the samples that deviatsyst subtracts and totalsyst adds.
  pub record IsCounter (f : Sstat → ℕ) : Type 0 where
    pub subtracts :
        (cur pre dev : Sstat) (interval : ℕ)
        → f (deviatsyst httpstats ifprops cur pre dev interval).dev ≡ subcount (f cur) (f pre)
    pub keeps :
        (cur pre dev : Sstat) (interval : ℕ)
        → f (deviatsyst httpstats ifprops cur pre dev interval).cur ≡ f cur
    pub adds : (new tot : Sstat) → f (totalsyst httpstats category new tot) ≡ plus (f tot) (f new)

  module _ (f : Sstat → ℕ) where
    pub report-counter :
        (l : List Snapshot) (pre dev tot : Sstat)
        → IsCounter f
        → f tot < 2 ^ 64
        → IsRising f (f pre) l
        → f (report l pre dev tot) ≡ plus (f tot) (last_count f (f pre) l - f pre)
    unfolding report
    report-counter [] pre dev tot c b h = omega arith
    report-counter (s ∷ rest) pre dev tot c b h =
        let r = deviatsyst httpstats ifprops s.syst pre dev s.interval in
        let tot' = totalsyst httpstats category r.dev tot in
        let k = c.keeps s.syst pre dev s.interval in
        let a : f tot' ≡ plus (f tot) (subcount (f s.syst) (f pre)) =
          c.adds r.dev tot ∙ ap (plus (f tot)) (c.subtracts s.syst pre dev s.interval) in
        let t = report-counter rest r.cur r.dev tot' c (rw a (plus_lt _ _)) (rw k h.1) in
        let l = last_count-le f rest (f s.syst) h.1 in
        t
        ∙ rw (a, k)
            (plus-chain (f tot) (f pre) (f s.syst) (last_count f (f s.syst) rest) h.0 l.0 l.1 b)
