-- ===== src/Atop/Netatop/Records/Encoded.antt =====
-- The file of exited tasks as netatop_exitstore of Qt/FakeAtop/netatopif.c reads it back.
use practice.Base.{
  ℕ, zero, suc, ◌+◌, ◌<◌, ◌≡◌, refl, ap, true, false, some, List, [], ◌∷◌, ◌++◌, ltb, ◌==◌, length,
  length-append, get_or, min, ◌%◌, take, drop, arith,
}
use practice.Base.Text.{Bytes}
use practice.Atop.Netatop.Records.{Npt, Exitstore, entry, store_exit, read_records, read_exits}

-- Records, each behind its size, and what stands behind them.
unfoldable pub encoded : List Bytes → Bytes → Bytes
encoded [] tail = tail
encoded (r ∷ rs) tail = length r ∷ r ++ encoded rs tail

take-append : (r s : Bytes) → take (length r) (r ++ s) ≡ r
take-append [] s = refl
take-append (c ∷ r) s = ap (λ t. c ∷ t) (take-append r s)

drop-append : (r s : Bytes) → drop (length r) (r ++ s) ≡ s
drop-append [] s = refl
drop-append (c ∷ r) s = drop-append r s

get_or-append : (r s : Bytes) (c : ℕ) → get_or (r ++ c ∷ s) (length r) 0 ≡ c
get_or-append [] s c = refl
get_or-append (d ∷ r) s c = get_or-append r s c

drop-append_suc : (r s : Bytes) (c : ℕ) → drop (suc (length r)) (r ++ c ∷ s) ≡ s
drop-append_suc [] s c = refl
drop-append_suc (d ∷ r) s c = drop-append_suc r s c

-- The size fits in its byte, and the record with the next size in readbuf.
abbrev pub IsRecord : ℕ → Bytes → Type 0
IsRecord ntplen r = (length r < 256) × (length r < ntplen + 100)

abbrev pub AllRecords : ℕ → List Bytes → Type 0
AllRecords ntplen [] = Unit
AllRecords ntplen (r ∷ rs) = IsRecord ntplen r × AllRecords ntplen rs

module _ (uncompress : Bytes → Npt) (ntplen : ℕ) where
  abbrev pub uncompressed : List Bytes → List Exitstore
  uncompressed [] = []
  uncompressed (r ∷ rs) = entry uncompress ntplen r ∷ uncompressed rs

  room :
      (r s : Bytes)
      → IsRecord ntplen r
      → ltb (ntplen + 100) (min (suc (length r)) (length s)) ≡ false
  room r s (h, k) = ground arith

  read_records-last :
      (f nr : ℕ) (r tail : Bytes)
      → IsRecord ntplen r
      → read_records uncompress ntplen (suc f) (suc nr) nr (length r) (r ++ tail)
        ≡ some (record { exitall = entry uncompress ntplen r ∷ []; file = tail })
  unfolding read_records
  read_records-last f nr r tail fits =
      let n = length-append r tail in
      let a : ltb (length (r ++ tail)) (length r) ≡ false = ground arith in
      let b : (suc nr == suc nr) ≡ true = ground arith in
      rw (room r (r ++ tail) fits, a, b, take-append r tail, drop-append r tail) refl

  read_records-encoded :
      (f nr n : ℕ) (r : Bytes) (rs : List Bytes) (tail : Bytes)
      → AllRecords ntplen (r ∷ rs)
      → length (r ++ encoded rs tail) < f
      → n ≡ nr + suc (length rs)
      → read_records uncompress ntplen f n nr (length r) (r ++ encoded rs tail)
        ≡ some (record { exitall = uncompressed (r ∷ rs); file = tail })
  unfolding read_records encoded store_exit
  read_records-encoded zero nr n r rs tail ok h e = absurd (omega arith)
  read_records-encoded (suc f) nr n r [] tail ok h e =
      let e' : n ≡ suc nr = omega arith in rw e' (read_records-last f nr r tail ok.0)
  read_records-encoded (suc f) nr n r (r2 ∷ rs) tail ok h e =
      let s = r2 ++ encoded rs tail in
      let m = length-append r (length r2 ∷ s) in
      let a : ltb (length (r ++ length r2 ∷ s)) (length r) ≡ false = ground arith in
      let b : (suc nr == n) ≡ false = ground arith in
      let c : ltb (length r) (length (r ++ length r2 ∷ s)) ≡ true = ground arith in
      let size : length r2 % 256 ≡ length r2 = omega (arith, ok.1.0.0) in
      let ih = read_records-encoded f (suc nr) n r2 rs tail ok.1 (omega arith) (omega arith) in
      rw
        (
          room r (r ++ length r2 ∷ s) ok.0,
          a,
          b,
          c,
          get_or-append r s (length r2),
          size,
          drop-append_suc r s (length r2),
          take-append r (length r2 ∷ s),
          ih,
        )
        refl

  -- A file of the records of new exited tasks, each behind its size, which fits in a byte and in the
  -- buffer of 100 bytes more than a task's counters, is read whole and without a write behind the
  -- buffer when the sequence numbers say that there are as many: each record is uncompressed and
  -- stored in its order, and the next read goes on behind them.
  pub read_exits-encoded :
      (r : Bytes) (rs : List Bytes) (tail : Bytes)
      → AllRecords ntplen (r ∷ rs)
      → read_exits uncompress ntplen (suc (length rs)) (encoded (r ∷ rs) tail)
        ≡ some (record { exitall = uncompressed (r ∷ rs); file = tail })
  unfolding read_exits encoded
  read_exits-encoded r rs tail ok =
      let size : length r % 256 ≡ length r = omega (arith, ok.0.0) in
      rw size (
        read_records-encoded (suc (length (r ++ encoded rs tail))) 0 (suc (length rs)) r rs tail ok
          (omega arith) (omega arith))
