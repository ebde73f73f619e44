-- ===== src/Atop/Photoproc/Walk/Within.antt =====
-- Writes to the array of photoproc in Qt/FakeAtop/photoproc.c between two bounds.
use practice.Base.{
  ℕ, zero, suc, ◌≤◌, ◌<◌, ◌≡◌, refl, ◌∙◌, true, false, Bool, List, [], ◌∷◌, ◌==◌, if◌then◌else◌,
  length, length-set, set, arith,
}
use practice.Atop.Tstat.{Tstat}
use practice.Atop.Netatop.{Netatop}
use practice.Atop.Photoproc.Walk.{Walk, at}

pub get_or-set_other :
    (t : List Tstat) (i j : ℕ) (v : Tstat) → (i == j) ≡ false → at (set t i v) j ≡ at t j
get_or-set_other [] i j v h = refl
get_or-set_other (x ∷ t) zero zero v h = absurd (ground arith)
get_or-set_other (x ∷ t) zero (suc j) v h = refl
get_or-set_other (x ∷ t) (suc i) zero v h = refl
get_or-set_other (x ∷ t) (suc i) (suc j) v h = get_or-set_other t i j v (ground arith)

-- From s to s', not more tasks are counted than maxtask, and entries from maxtask on, and those below
-- lo, are as they were.
pub record IsWithin (maxtask lo : ℕ) (s s' : Walk) : Type 0 where
  pub tval_le : s'.tval ≤ maxtask
  pub tval_grows : s.tval ≤ s'.tval
  pub same_length : length s'.tasklist ≡ length s.tasklist
  pub same_behind : (j : ℕ) → maxtask ≤ j → at s'.tasklist j ≡ at s.tasklist j
  pub same_before : (j : ℕ) → j < lo → at s'.tasklist j ≡ at s.tasklist j

module _ (maxtask lo : ℕ) where
  pub IsWithin-refl : (s : Walk) → s.tval ≤ maxtask → IsWithin maxtask lo s s
  IsWithin-refl s h = record {
    tval_le = h;
    tval_grows = omega arith;
    same_length = refl;
    same_behind = λ j k. refl;
    same_before = λ j k. refl;
  }

  pub IsWithin-trans :
      (a b c : Walk) → IsWithin maxtask lo a b → IsWithin maxtask lo b c → IsWithin maxtask lo a c
  IsWithin-trans a b c h k = record {
    tval_le = k.tval_le;
    tval_grows = omega (arith, h.tval_grows, k.tval_grows);
    same_length = k.same_length ∙ h.same_length;
    same_behind = λ j l. k.same_behind j l ∙ h.same_behind j l;
    same_before = λ j l. k.same_before j l ∙ h.same_before j l;
  }

  pub IsWithin-if :
      (b : Bool) (s x y : Walk)
      → (b ≡ true → IsWithin maxtask lo s x)
      → (b ≡ false → IsWithin maxtask lo s y)
      → IsWithin maxtask lo s (if b then x else y)
  IsWithin-if true s x y h k = h refl
  IsWithin-if false s x y h k = k refl

  -- Writing an entry from lo on and below maxtask.
  pub IsWithin-set :
      (s : Walk) (i n d : ℕ) (v : Tstat) (a : Netatop)
      → lo ≤ i
      → i < maxtask
      → s.tval ≤ n
      → n ≤ maxtask
      → IsWithin maxtask lo s
          (record { tasklist = set s.tasklist i v; tval = n; dockstat = d; netatop = a })
  IsWithin-set s i n d v a l h k m = record {
    tval_le = m;
    tval_grows = k;
    same_length = length-set s.tasklist i v;
    same_behind = λ j b. get_or-set_other s.tasklist i j v (ground arith);
    same_before = λ j b. get_or-set_other s.tasklist i j v (ground arith);
  }
