-- ===== src/Atop/Parseable/Labels/Chosen.antt =====
-- The labels that parsedef of Qt/FakeAtop/parseable.c selects.
use practice.Base.{
  ℕ, suc, ◌≤◌, ◌<◌, ◌≡◌, refl, ap, ◌∙◌, Bool, true, false, ◌||◌, ◌==◌, some, List, [], ◌∷◌, ◌++◌,
  set, get_or, get_or-set, length, length-set, Bool-cases, Option-cases, inl, inr, arith,
}
use practice.Base.Text.{Bytes, same_text, same_text_eq}
use practice.Base.Decimal.{first}
use practice.Atop.Photoproc.Stat.Places.{IsWithout}
use practice.Atop.Parseable.Labels.{labels, segments, label_index, parse_labels, parsedef}

-- Labels with a comma between each two.
unfoldable pub joined_labels : List Bytes → Bytes
joined_labels [] = []
joined_labels (w ∷ []) = w
joined_labels (w ∷ v ∷ ws) = w ++ b',' ∷ joined_labels (v ∷ ws)

-- The numbers of labels of the table.
abbrev pub AreLabels : List Bytes → List ℕ → Type 0
AreLabels [] [] = Unit
AreLabels [] (i ∷ is) = ⊥
AreLabels (w ∷ ws) [] = ⊥
AreLabels (w ∷ ws) (i ∷ is) = (label_index w labels ≡ some i) × AreLabels ws is

unfoldable pub is_chosen : ℕ → List ℕ → Bool
is_chosen i [] = false
is_chosen i (j ∷ js) = j == i || is_chosen i js

-- A text of at least one character, with no comma and no dash at its front.
record IsPlain (w : Bytes) : Type 0 where
  no_comma : IsWithout b',' w
  some_char : 1 ≤ length w
  no_flag : (first w == b'-') ≡ false

abbrev ArePlain : List Bytes → Type 0
ArePlain [] = Unit
ArePlain (l ∷ ls) = IsPlain l × ArePlain ls

three : (a b c : ℕ) → 64 < a → 64 < b → 64 < c → IsPlain (a ∷ b ∷ c ∷ [])
three a b c h k l = record {
  no_comma = (ground arith, (ground arith, (ground arith, tt)));
  some_char = omega arith;
  no_flag = ground arith;
}

labels-ArePlain : ArePlain labels
labels-ArePlain = (
  three b'C' b'P' b'U' (omega arith) (omega arith) (omega arith),
  (
    three b'c' b'p' b'u' (omega arith) (omega arith) (omega arith),
    (
      three b'C' b'P' b'L' (omega arith) (omega arith) (omega arith),
      (
        three b'M' b'E' b'M' (omega arith) (omega arith) (omega arith),
        (
          three b'S' b'W' b'P' (omega arith) (omega arith) (omega arith),
          (
            three b'P' b'A' b'G' (omega arith) (omega arith) (omega arith),
            (
              three b'L' b'V' b'M' (omega arith) (omega arith) (omega arith),
              (
                three b'M' b'D' b'D' (omega arith) (omega arith) (omega arith),
                (
                  three b'D' b'S' b'K' (omega arith) (omega arith) (omega arith),
                  (
                    three b'N' b'F' b'M' (omega arith) (omega arith) (omega arith),
                    (
                      three b'N' b'F' b'C' (omega arith) (omega arith) (omega arith),
                      (
                        three b'N' b'F' b'S' (omega arith) (omega arith) (omega arith),
                        (
                          three b'N' b'E' b'T' (omega arith) (omega arith) (omega arith),
                          (
                            three b'P' b'R' b'G' (omega arith) (omega arith) (omega arith),
                            (
                              three b'P' b'R' b'C' (omega arith) (omega arith) (omega arith),
                              (
                                three b'P' b'R' b'M' (omega arith) (omega arith) (omega arith),
                                (
                                  three b'P' b'R' b'D' (omega arith) (omega arith) (omega arith),
                                  (
                                    three b'P' b'R' b'N' (omega arith) (omega arith) (omega arith),
                                    tt,
                                  ),
                                ),
                              ),
                            ),
                          ),
                        ),
                      ),
                    ),
                  ),
                ),
              ),
            ),
          ),
        ),
      ),
    ),
  ),
)

label_index-IsPlain :
    (w : Bytes) (ls : List Bytes) (i : ℕ)
    → ArePlain ls
    → label_index w ls ≡ some i
    → IsPlain w × (i < length ls)
unfolding label_index
label_index-IsPlain w [] i p h = absurd (ground arith)
label_index-IsPlain w (l ∷ ls) i p h = elim (Bool-cases (same_text l w)) [
  | inl e ↦ let q = same_text_eq l w e in let z : 0 ≡ i = ground arith in (rw⁻¹ q p.0, omega arith)
  | inr e ↦ elim (Option-cases (label_index w ls)) [
    | inl f ↦ absurd (ground arith)
    | inr x ↦
        let r = label_index-IsPlain w ls x.0 p.1 x.1 in
        let f = x.1 in let k : suc x.0 ≡ i = ground arith in (r.0, omega (arith, r.1))
  ]
]

segments-last : (w : Bytes) → IsWithout b',' w → 1 ≤ length w → segments w ≡ w ∷ []
unfolding segments
segments-last [] h l = absurd (omega arith)
segments-last (c ∷ []) h l =
    let e : (c == b',') ≡ false = (let a = h.0 in ground arith) in rw e refl
segments-last (c ∷ d ∷ w) h l =
    let e : (c == b',') ≡ false = (let a = h.0 in ground arith) in
    let ih = segments-last (d ∷ w) h.1 (omega arith) in rw (segments, e, ih) refl

segments-more : (w s : Bytes) → IsWithout b',' w → segments (w ++ b',' ∷ s) ≡ w ∷ segments s
unfolding segments
segments-more [] s h = refl
segments-more (c ∷ w) s h =
    let e : (c == b',') ≡ false = (let a = h.0 in ground arith) in
    rw (segments, e, segments-more w s h.1) refl

segments-joined_labels :
    (w : Bytes) (ws : List Bytes) (is : List ℕ)
    → AreLabels (w ∷ ws) is
    → segments (joined_labels (w ∷ ws)) ≡ w ∷ ws
unfolding joined_labels
segments-joined_labels w ws [] k = absurd k
segments-joined_labels w [] (i ∷ is) k =
    let p = (label_index-IsPlain w labels i labels-ArePlain k.0).0 in
    segments-last w p.no_comma p.some_char
segments-joined_labels w (v ∷ ws) (i ∷ is) k =
    let p = (label_index-IsPlain w labels i labels-ArePlain k.0).0 in
    segments-more w (joined_labels (v ∷ ws)) p.no_comma
    ∙ ap (λ r. w ∷ r) (segments-joined_labels v ws is k.1)

first-joined_labels :
    (w : Bytes) (ws : List Bytes) → 1 ≤ length w → first (joined_labels (w ∷ ws)) ≡ first w
unfolding joined_labels
first-joined_labels [] ws h = absurd (omega arith)
first-joined_labels (c ∷ w) [] h = refl
first-joined_labels (c ∷ w) (v ∷ ws) h = refl

-- The table behind a list of labels.
set_valid : List ℕ → List Bool → List Bool
set_valid [] v = v
set_valid (i ∷ is) v = set_valid is (set v i true)

parse_labels-set_valid :
    (ws : List Bytes) (is : List ℕ) (v : List Bool)
    → AreLabels ws is
    → parse_labels ws v ≡ (true, set_valid is v)
unfolding parse_labels set_valid
parse_labels-set_valid [] [] v k = refl
parse_labels-set_valid [] (i ∷ is) v k = absurd k
parse_labels-set_valid (w ∷ ws) [] v k = absurd k
parse_labels-set_valid (w ∷ ws) (i ∷ is) v k =
    let e = k.0 in rw (parse_labels, e) (parse_labels-set_valid ws is (set v i true) k.1)

get_or-set_valid :
    (ws : List Bytes) (is : List ℕ) (v : List Bool) (i : ℕ)
    → AreLabels ws is
    → length v ≡ length labels
    → get_or (set_valid is v) i false ≡ (is_chosen i is || get_or v i false)
unfolding set_valid is_chosen
get_or-set_valid [] [] v i k l = refl
get_or-set_valid [] (j ∷ is) v i k l = absurd k
get_or-set_valid (w ∷ ws) [] v i k l = absurd k
get_or-set_valid (w ∷ ws) (j ∷ is) v i k l =
    let b = (label_index-IsPlain w labels j labels-ArePlain k.0).1 in
    let ih = get_or-set_valid ws is (set v j true) i k.1 (length-set v j true ∙ l) in
    let s = get_or-set v j i true false (omega (arith, l)) in ground arith

-- A list of labels of the table with a comma between each two is accepted, and behind it the labels
-- of the list are valid, and besides them only those that were valid before.
pub parsedef-joined_labels :
    (w : Bytes) (ws : List Bytes) (is : List ℕ) (v : List Bool) (i : ℕ)
    → AreLabels (w ∷ ws) is
    → length v ≡ length labels
    → ((parsedef (joined_labels (w ∷ ws)) v).0 ≡ true)
      × (get_or (parsedef (joined_labels (w ∷ ws)) v).1 i false
          ≡ (is_chosen i is || get_or v i false))
unfolding parsedef
parsedef-joined_labels w ws [] v i k l = absurd k
parsedef-joined_labels w ws (j ∷ is) v i k l =
    let p = (label_index-IsPlain w labels j labels-ArePlain k.0).0 in
    let no_flag : (first (joined_labels (w ∷ ws)) == b'-') ≡ false =
      rw (first-joined_labels w ws p.some_char) p.no_flag in
    let o : parsedef (joined_labels (w ∷ ws)) v ≡ (true, set_valid (j ∷ is) v) =
      rw
        (
          parsedef,
          no_flag,
          segments-joined_labels w ws (j ∷ is) k,
          parse_labels-set_valid (w ∷ ws) (j ∷ is) v k,
        )
        refl in
    rw o (refl, get_or-set_valid (w ∷ ws) (j ∷ is) v i k l)
