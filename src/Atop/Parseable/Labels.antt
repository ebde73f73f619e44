-- ===== src/Atop/Parseable/Labels.antt =====
-- parsedef and parseout of Qt/FakeAtop/parseable.c: which labels are printed.
pub mod Chosen
use practice.Base.{
  ℕ, zero, suc, Bool, true, false, ◌&&◌, if◌then◌else◌, ◌==◌, Option, none, some, List, [], ◌∷◌,
  ◌++◌, set, take,
}
use practice.Base.Text.{Bytes, codes, same_text}
use practice.Base.Decimal.{first}
use practice.Atop.Parseable.{lld, int_text}

abbrev pub labels : List Bytes
labels =
    codes "CPU"
    ∷ codes "cpu"
    ∷ codes "CPL"
    ∷ codes "MEM"
    ∷ codes "SWP"
    ∷ codes "PAG"
    ∷ codes "LVM"
    ∷ codes "MDD"
    ∷ codes "DSK"
    ∷ codes "NFM"
    ∷ codes "NFC"
    ∷ codes "NFS"
    ∷ codes "NET"
    ∷ codes "PRG"
    ∷ codes "PRC"
    ∷ codes "PRM"
    ∷ codes "PRD"
    ∷ codes "PRN"
    ∷ []

-- The texts between the commas; behind a comma at the end there is none.
unfoldable pub segments : Bytes → List Bytes
segments [] = []
segments (c ∷ s) =
    if c == b','
    then [] ∷ segments s
    else elim (segments s) [ [] ↦ (c ∷ []) ∷ [] | ◌∷◌ w ws ↦ (c ∷ w) ∷ ws ]

unfoldable pub label_index : Bytes → List Bytes → Option ℕ
label_index pd [] = none
label_index pd (l ∷ ls) =
    let more = label_index pd ls in
    if same_text l pd then some 0 else elim more [ none ↦ none | some i ↦ some (suc i) ]

unfoldable pub all_valid : List Bool → List Bool
all_valid [] = []
all_valid (v ∷ vs) = true ∷ all_valid vs

-- The result, and the members valid of the table.
unfoldable pub parse_labels : List Bytes → List Bool → Bool × List Bool
parse_labels [] valid = (true, valid)
parse_labels (pd ∷ pds) valid = elim (label_index pd labels) [
  | some i ↦ parse_labels pds (set valid i true)
  | none ↦ if same_text (codes "ALL") pd then (true, all_valid valid) else (false, valid)
]

unfoldable pub parsedef : Bytes → List Bool → Bool × List Bool
parsedef pd valid = if first pd == b'-' then (false, valid) else parse_labels (segments pd) valid

-- The header of each line, in a buffer of 256 bytes; datestr and timestr are of convdate and convtime.
unfoldable pub header : Bytes → Bytes → ℕ → Bytes → Bytes → ℕ → Bytes
header label nodename curtime datestr timestr numsecs = take 255 (
    label
    ++ b' ' ∷ nodename
    ++ b' ' ∷ lld curtime
    ++ b' ' ∷ datestr
    ++ b' ' ∷ timestr
    ++ b' ' ∷ lld numsecs)

-- The output of the labels that are valid, in the order of the table; `print` prints one by its header.
unfoldable pub print_valid : (Bytes → Bytes) → List Bytes → List Bool → Bytes
print_valid print [] vs = []
print_valid print (l ∷ ls) [] = []
print_valid print (l ∷ ls) (v ∷ vs) =
    let more = print_valid print ls vs in if v then print l ++ more else more

unfoldable pub parseout : (Bytes → Bytes) → Bool → List Bool → Bytes
parseout print rrboot valid =
    (if rrboot then codes "RESET" ++ 10 ∷ [] else [])
    ++ print_valid print labels valid
    ++ codes "SEP"
    ++ 10 ∷ []
