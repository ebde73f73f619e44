-- ===== src/Atop/Parseable/Readback.antt =====
-- The counters in the lines of Qt/FakeAtop/parseable.c can be read back.
use practice.Base.{ℕ, suc, ◌^◌, ◌≡◌, refl, List, [], ◌∷◌, ◌++◌, lt→ltb, length, drop, arith}
use practice.Base.Text.{Bytes, isdigit}
use practice.Base.Decimal.{decimal}
use practice.Atop.Photosyst.Scan.{isspace, skip_space, read_lld, read_counts, scan_line}
use practice.Atop.Photosyst.Scan.Text.{
  counts_text, IsEnd, IsFitting, IsWord, read_counts-text, scan_line-line_text,
}
use practice.Atop.Photoproc.Stat.Places.{drop-past}
use practice.Atop.Parseable.{lld, columns, numbers, counter_line, named_line}

abbrev line_end : Bytes
line_end = 10 ∷ []

line_end-IsEnd : IsEnd line_end
line_end-IsEnd = record {
  no_digit = unfold isdigit in refl;
  no_number = unfold read_lld skip_space isspace in refl;
}

columns-numbers : (vs : List ℕ) → IsFitting vs → columns (numbers vs []) ≡ counts_text vs line_end
unfolding columns numbers counts_text lld
columns-numbers [] f = refl
columns-numbers (v ∷ vs) f =
    let d : lld v ≡ decimal v = (let e = lt→ltb v (2 ^ 63) f.0 in rw (lld, e) refl) in
    rw (d, columns-numbers vs f.1) refl

-- A line of counters below 2^63: behind the header, the counters are read back in their order.
pub read_counts-counter_line :
    (hp : Bytes) (vs : List ℕ)
    → IsFitting vs
    → read_counts (length vs) (drop (length hp) (counter_line hp vs)) ≡ vs
unfolding counter_line
read_counts-counter_line hp vs f =
    let d : drop (length hp) (hp ++ columns (numbers vs [])) ≡ columns (numbers vs []) =
      drop-past hp (columns (numbers vs [])) 0 (length hp) (omega arith) in
    rw (d, columns-numbers vs f)
      (read_counts-text (length vs) vs line_end (omega arith) f line_end-IsEnd)

-- A line of a name without white space and of counters below 2^63: behind the header, the name and the
-- counters are read back by one sscanf.
pub scan_line-named_line :
    (hp : Bytes) (c : ℕ) (nam : Bytes) (v : ℕ) (vs : List ℕ)
    → IsWord (c ∷ nam)
    → IsFitting (v ∷ vs)
    → scan_line (length (v ∷ vs)) (drop (length hp) (named_line hp (c ∷ nam) (v ∷ vs))) [] []
      ≡ record {
        nr = suc (length (v ∷ vs));
        nam = c ∷ nam;
        cnts = (v ∷ vs) ++ drop (length (v ∷ vs)) [];
      }
unfolding named_line columns
scan_line-named_line hp c nam v vs w f =
    let text : Bytes = c ∷ nam ++ columns (numbers (v ∷ vs) []) in
    let d : drop (length hp) (hp ++ b' ' ∷ text) ≡ b' ' ∷ text =
      drop-past hp (b' ' ∷ text) 0 (length hp) (omega arith) in
    let s : scan_line (length (v ∷ vs)) (b' ' ∷ text) [] []
        ≡ scan_line (length (v ∷ vs)) text [] [] =
      unfold scan_line skip_space isspace in refl in
    rw (d, s, columns-numbers (v ∷ vs) f)
      (scan_line-line_text (length (v ∷ vs)) c nam v vs line_end [] [] w (omega arith) f
        line_end-IsEnd)
