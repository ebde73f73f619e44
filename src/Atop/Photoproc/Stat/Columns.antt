-- ===== src/Atop/Photoproc/Stat/Columns.antt =====
-- The numbers of the file stat that procstat of Qt/FakeAtop/photoproc.c stores.
use practice.Base.{
  ℕ, suc, ◌≤◌, ◌<◌, ◌^◌, ◌≡◌, refl, false, some, List, [], ◌∷◌, ◌++◌, length, get_or, get_or-drop,
  drop, drop-drop, arith,
}
use practice.Base.Text.{Bytes, isdigit}
use practice.Base.Decimal.{
  decimal, value_from, value-decimal, all_digits-decimal, length-decimal_pos, first,
}
use practice.Atop.Photosyst.Scan.{isspace, skip_space, read_lld}
use practice.Atop.Photosyst.Scan.Text.{counts_text, IsFitting, read_lld-digits}
use practice.Atop.Photoproc.Numbers.{as_id, id_or}
use practice.Atop.Photoproc.Stat.{Conversion, skipped, stored, scan_numbers}

-- The numbers from i on that a format stores.
unfoldable pub chosen : List Conversion → ℕ → List ℕ → List ℕ
chosen [] i vs = []
chosen (skipped ∷ f) i vs = chosen f (suc i) vs
chosen (stored ∷ f) i vs = get_or vs i 0 ∷ chosen f (suc i) vs

counts_text-stop :
    (vs : List ℕ) (tail : Bytes)
    → isdigit (first tail) ≡ false
    → isdigit (first (counts_text vs tail)) ≡ false
unfolding counts_text isdigit
counts_text-stop [] tail e = e
counts_text-stop (v ∷ vs) tail e = refl

read_lld-counts_text :
    (v : ℕ) (vs : List ℕ) (tail : Bytes)
    → v < 2 ^ 63
    → isdigit (first tail) ≡ false
    → read_lld (skip_space (counts_text (v ∷ vs) tail))
      ≡ some (record { value = v; rest = counts_text vs tail })
read_lld-counts_text v vs tail h e =
    let b : value_from 0 (decimal v) < 2 ^ 63 = rw (value-decimal v) h in
    let r =
      read_lld-digits (decimal v) (counts_text vs tail) (length-decimal_pos v)
        (all_digits-decimal v) (counts_text-stop vs tail e) b in
    let s : skip_space (counts_text (v ∷ vs) tail) ≡ skip_space (decimal v ++ counts_text vs tail) =
      unfold skip_space isspace counts_text in refl in
    rw (s, r, value-decimal v) refl

pub scan_numbers-chosen :
    (f : List Conversion) (i : ℕ) (vs ws : List ℕ) (tail : Bytes)
    → drop i vs ≡ ws
    → length f ≤ length ws
    → IsFitting ws
    → isdigit (first tail) ≡ false
    → scan_numbers f (counts_text ws tail) ≡ chosen f i vs
unfolding scan_numbers chosen
scan_numbers-chosen [] i vs ws tail d l b e = refl
scan_numbers-chosen (skipped ∷ f) i vs [] tail d l b e = absurd (omega arith)
scan_numbers-chosen (stored ∷ f) i vs [] tail d l b e = absurd (omega arith)
scan_numbers-chosen (skipped ∷ f) i vs (w ∷ ws) tail d l b e =
    let d' : drop (suc i) vs ≡ ws = rw (drop-drop i 1 (suc i) vs (omega arith), d) refl in
    rw (scan_numbers, read_lld-counts_text w ws tail b.0 e)
      (scan_numbers-chosen f (suc i) vs ws tail d' (omega arith) b.1 e)
scan_numbers-chosen (stored ∷ f) i vs (w ∷ ws) tail d l b e =
    let d' : drop (suc i) vs ≡ ws = rw (drop-drop i 1 (suc i) vs (omega arith), d) refl in
    let g : get_or vs i 0 ≡ w = rw (get_or-drop i 0 i vs 0 (omega arith), d) refl in
    rw
      (
        scan_numbers,
        read_lld-counts_text w ws tail b.0 e,
        g,
        scan_numbers-chosen f (suc i) vs ws tail d' (omega arith) b.1 e,
      )
      refl

-- The number at the front of a line.
pub id_or-decimal :
    (n old : ℕ) (tail : Bytes)
    → n < 2 ^ 32
    → isdigit (first tail) ≡ false
    → id_or (decimal n ++ tail) old ≡ n
unfolding id_or
id_or-decimal n old tail h e =
    let b : value_from 0 (decimal n) < 2 ^ 63 = rw (value-decimal n) (omega arith) in
    let r = read_lld-digits (decimal n) tail (length-decimal_pos n) (all_digits-decimal n) e b in
    let m : as_id n ≡ n = omega arith in rw (id_or, r, value-decimal n, m) refl
