-- ===== src/Tests/Parseable.antt =====
-- The selection of labels and the lines of Qt/FakeAtop/parseable.c at concrete inputs.
use practice.Base.{true, false, ◌||◌, ◌≡◌, refl, List, [], ◌∷◌, get_or, replicate}
use practice.Base.Text.{Bytes, codes, same_text}
use practice.Atop.Parseable.Labels.{parsedef, label_index}
use practice.Atop.Parseable.Labels.Chosen.{
  AreLabels, joined_labels, is_chosen, parsedef-joined_labels,
}

abbrev two_labels : List Bytes
two_labels = codes "MEM" ∷ codes "PRC" ∷ []

two_labels-AreLabels : AreLabels two_labels (3 ∷ 14 ∷ [])
unfolding label_index same_text
two_labels-AreLabels = (refl, (refl, tt))

parsedef-joined_labels_example :
    ((parsedef (joined_labels two_labels) (replicate 18 false)).0 ≡ true)
    × (get_or (parsedef (joined_labels two_labels) (replicate 18 false)).1 14 false
        ≡ (is_chosen 14 (3 ∷ 14 ∷ []) || get_or (replicate 18 false) 14 false))
parsedef-joined_labels_example =
    parsedef-joined_labels (codes "MEM") (codes "PRC" ∷ []) (3 ∷ 14 ∷ []) (replicate 18 false) 14
      two_labels-AreLabels refl
