-- ===== src/Atop/System/Count.antt =====
-- Sums of count_t, 64 bits of two's complement, and the structures of network counters, which
-- deviatsyst and totalsyst of Qt/FakeAtop/deviate.c subtract and add up member by member.
use practice.Base.{ℕ, zero, suc, ◌+◌, ◌-◌, ◌%◌, List, [], ◌∷◌}
use practice.Atop.Deviate.{count_mod}

-- `*ccur - *cpre`.
abbrev pub minus : ℕ → ℕ → ℕ
minus a b = (a + count_mod - b) % count_mod

-- `tot += new`.
abbrev pub plus : ℕ → ℕ → ℕ
plus tot new = (tot + new) % count_mod

-- `*cdev = *ccur - *cpre`, the first n members.
unfoldable pub table_deviation : ℕ → List ℕ → List ℕ → List ℕ
table_deviation zero cur pre = []
table_deviation (suc n) [] pre = []
table_deviation (suc n) (c ∷ cs) [] = []
table_deviation (suc n) (c ∷ cs) (p ∷ ps) = minus c p ∷ table_deviation n cs ps

-- `*ctot += *cnew`, the first n members.
unfoldable pub table_total : ℕ → List ℕ → List ℕ → List ℕ
table_total zero tot new = []
table_total (suc n) [] new = []
table_total (suc n) (t ∷ ts) [] = []
table_total (suc n) (t ∷ ts) (c ∷ cs) = plus t c ∷ table_total n ts cs
