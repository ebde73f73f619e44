-- ===== src/Sockets/Inode.antt =====
-- extract_type_1_socket_inode and extract_type_2_socket_inode of
-- Qt/ZMonitor/SocketMornitoring/zsocket.c: the inode number in the target of a link in /proc/<pid>/fd.
-- some n is the return value 0 with *inode_p = n, none the return value -1.
use practice.Base.{
  ℕ, suc, inl, inr, ltb→lt, le→ltb, Bool-cases, ◌+◌, ◌-◌, ◌≤◌, ◌<◌, ◌≡◌, refl, ap, false, not, ◌||◌,
  Option, none, some, List, [], ◌∷◌, ◌++◌, arith, ltb, ◌==◌, if◌then◌else◌, length, take, drop,
  length-append, get_or,
}
use practice.Base.Text.{Bytes, codes, same_text}
use practice.Base.Decimal.{decimal, length-decimal, length-decimal_pos}
use practice.Base.Strtoul.{ulong_max, Parsed, strtoul, strtoul-decimal}

abbrev pub prg_socket_pfx : Bytes
prg_socket_pfx = codes "socket:["

abbrev pub prg_socket_pfx2 : Bytes
prg_socket_pfx2 = codes "[0000]:"

-- `*serr || *inode_p == ~0`
accept : Parsed → Option ℕ
accept p = elim p.rest [ [] ↦ (if p.value == ulong_max then none else some p.value) | c ∷ s ↦ none ]

-- The inode text without the prefix and the last character.
inode_str : Bytes → Bytes
inode_str lname = take (length lname - 8 - 1) (drop 8 lname)

unfoldable pub extract_type_1_socket_inode : Bytes → Option ℕ
unfolding accept inode_str same_text
extract_type_1_socket_inode lname =
    if ltb (length lname) (8 + 3)
    then none
    else if not (same_text (take 8 lname) prg_socket_pfx)
    then none
    else if not (get_or lname (length lname - 1) 0 == b']')
    then none
    else accept (strtoul (inode_str lname))

unfoldable pub extract_type_2_socket_inode : Bytes → Option ℕ
unfolding accept same_text
extract_type_2_socket_inode lname =
    if ltb (length lname) (7 + 1)
    then none
    else if not (same_text (take 7 lname) prg_socket_pfx2)
    then none
    else accept (strtoul (drop 7 lname))

accept-decimal : (n : ℕ) → 0 < n → n < ulong_max → accept (strtoul (decimal n)) ≡ some n
unfolding accept
accept-decimal n p b = rw (strtoul-decimal n p (omega arith)) (ground arith)

module _ {ℓ} {A : Type ℓ} where
  take-append : (xs ys : List A) → take (length xs) (xs ++ ys) ≡ xs
  take-append [] ys = refl
  take-append (x ∷ xs) ys = ap (λ r. x ∷ r) (take-append xs ys)

  get_or-last : (xs : List A) (y d : A) → get_or (xs ++ y ∷ []) (length xs) d ≡ y
  get_or-last [] y d = refl
  get_or-last (x ∷ xs) y d = get_or-last xs y d

-- The link text of a socket, as the kernel writes it.
abbrev pub socket_link : ℕ → Bytes
socket_link n = prg_socket_pfx ++ (decimal n ++ b']' ∷ [])

module _ (n : ℕ) where
  length-link : length (socket_link n) ≡ 9 + length (decimal n)
  length-link = omega (arith, length-append (decimal n) (b']' ∷ []))

  inode_str-link : inode_str (socket_link n) ≡ decimal n
  unfolding inode_str
  inode_str-link =
      let e : length (socket_link n) - 8 - 1 ≡ length (decimal n) = omega (arith, length-link) in
      rw e (take-append (decimal n) (b']' ∷ []))

  last-link : get_or (socket_link n) (length (socket_link n) - 1) 0 ≡ b']'
  last-link =
      let d = length (decimal n) in
      let e : length (socket_link n) - 1 ≡ suc (suc (suc (suc (suc (suc (suc (suc d))))))) =
        omega (arith, length-link) in
      rw e (get_or-last (decimal n) b']' 0)

  short_link : n < 10 → extract_type_1_socket_inode (socket_link n) ≡ none
  unfolding extract_type_1_socket_inode
  short_link s =
      let e : length (socket_link n) ≡ 10 = omega (arith, length-link, (length-decimal n).0 s) in
      rw e

  long_link : 10 ≤ n → extract_type_1_socket_inode (socket_link n) ≡ accept (strtoul (decimal n))
  unfolding extract_type_1_socket_inode
  long_link s =
      let e : ltb (length (socket_link n)) (8 + 3) ≡ false =
        le→ltb _ 11 (omega (arith, length-link, (length-decimal n).1 s)) in
      rw (e, last-link, inode_str-link)

  -- The link of a socket with inode number n, in the range of unsigned long, gives back n, except
  -- that a number of one digit and ULONG_MAX are refused.
  pub extract_type_1-link :
      n ≤ ulong_max
      → extract_type_1_socket_inode (socket_link n)
        ≡ (if ltb n 10 || n == ulong_max then none else some n)
  unfolding accept
  extract_type_1-link fits = elim (Bool-cases (ltb n 10)) [
    | inl e ↦ rw e (short_link (ltb→lt n 10 e))
    | inr e ↦
        let ge : 10 ≤ n = ground arith in
        rw (long_link ge, strtoul-decimal n (omega arith) fits) (ground arith)
  ]

abbrev pub socket_link2 : ℕ → Bytes
socket_link2 n = prg_socket_pfx2 ++ decimal n

-- The older form [0000]:n of such a link gives n, for every n from 1 up to ULONG_MAX - 1.
pub extract_type_2-link :
    (n : ℕ) → 0 < n → n < ulong_max → extract_type_2_socket_inode (socket_link2 n) ≡ some n
unfolding extract_type_2_socket_inode
extract_type_2-link n p fits =
    let e : ltb (length (socket_link2 n)) (7 + 1) ≡ false =
      le→ltb _ 8 (omega (arith, length-decimal_pos n)) in
    rw e (accept-decimal n p fits)
