-- ===== src/Sockets/Load/Processes/Reading.antt =====
-- What prg_cache_load reads of a process: its number, its program and the inodes of its sockets.
use practice.Base.{
  ℕ, zero, suc, ◌≤◌, ◌≡◌, refl, true, false, ◌||◌, Option, none, some, [], ◌∷◌, ◌++◌, ltb, ◌==◌,
  if◌then◌else◌, length, length-append, take, arith, ◌∙◌, ap, inl, inr,
}
use practice.Base.Text.{Bytes, isdigit, all_digits, same_text}
use practice.Base.Decimal.{
  decimal, first, all_digits-decimal, length-decimal_pos, length-decimal_below,
}
use practice.Base.Strtoul.{ulong_max}
use practice.Sockets.Inode.{
  socket_link, extract_type_1_socket_inode, extract_type_2_socket_inode, extract_type_1-link,
}
use practice.Sockets.Load.{
  fd_path_length, until_zero, behind_slash, program_name, socket_inode, skip_fd, fd_inode,
  skip_proc,
}
use practice.Sockets.Load.Processes.{
  Command, Target, Descriptor, path, command_line, link_text, fd_entry, Without, IsPlaced,
  IsCommand, IsTarget, socket, other,
}

-- The name of the program in a command line.
behind_slash-Without : (best s : Bytes) → Without b'/' s → behind_slash best s ≡ best
unfolding behind_slash
behind_slash-Without best [] h = refl
behind_slash-Without best (c ∷ s) h = ground (arith, behind_slash-Without best s h.1, h.0)

behind_slash-path : (best d p : Bytes) → Without b'/' p → behind_slash best (d ++ b'/' ∷ p) ≡ p
unfolding behind_slash
behind_slash-path best [] p h = behind_slash-Without p p h
behind_slash-path best (c ∷ d) p h =
    behind_slash-path (if c == b'/' then d ++ b'/' ∷ p else best) d p h

until_zero-take :
    (n : ℕ) (p r : Bytes) → Without 0 p → length p ≤ n → until_zero (take n (p ++ 0 ∷ r)) ≡ p
unfolding until_zero
until_zero-take zero [] r h k = refl
until_zero-take (suc n) [] r h k = refl
until_zero-take zero (c ∷ p) r h k = absurd (omega arith)
until_zero-take (suc n) (c ∷ p) r h k = ground (arith, h.0, until_zero-take n p r h.1 (omega arith))

pub program_name-command : (c : Command) → IsCommand c → program_name (command_line c) ≡ c.program
unfolding program_name
program_name-command c h =
    rw (until_zero-take 511 (path c) c.arguments h.no_zero h.path_fits)
      (placed c.directory h.placed)
  where
    placed :
        (d : Option Bytes)
        → IsPlaced d c.program
        → (let s : Bytes = elim d [ none ↦ c.program | some e ↦ e ++ b'/' ∷ c.program ] in
            (if first s == b'/' then behind_slash s s else s) ≡ c.program)
    placed none h = ground arith
    placed (some []) h = behind_slash-path (b'/' ∷ c.program) [] c.program h.1
    placed (some (e ∷ d)) (inl z, h) = ground arith
    placed (some (e ∷ d)) (inr z, h) =
        rw z (behind_slash-path (b'/' ∷ d ++ b'/' ∷ c.program) (b'/' ∷ d) c.program h)

-- Reading what the kernel shows.
module _ (n : ℕ) (fits : n ≤ ulong_max) where
  pub length-number : length (decimal n) ≤ 20
  length-number = length-decimal_below 19 n (omega (arith, fits))

  isdigit-first : isdigit (first (decimal n)) ≡ true
  isdigit-first = go (decimal n) (all_digits-decimal n) (length-decimal_pos n)
    where
      go : (s : Bytes) → all_digits s ≡ true → 1 ≤ length s → isdigit (first s) ≡ true
      go [] h k = absurd (omega arith)
      go (c ∷ s) h k = unfold all_digits in ground arith

  pub skip_proc-number : skip_proc (decimal n) ≡ false
  unfolding skip_proc fd_path_length
  skip_proc-number = rw (all_digits-decimal n) (ground (arith, length-number))

pub take_twice : (n : ℕ) (s : Bytes) → take n (take n s) ≡ take n s
take_twice zero [] = refl
take_twice zero (c ∷ s) = refl
take_twice (suc n) [] = refl
take_twice (suc n) (c ∷ s) = ap (λ r. c ∷ r) (take_twice n s)

take-whole : (n : ℕ) (s : Bytes) → length s ≤ n → take n s ≡ s
take-whole zero [] h = refl
take-whole (suc n) [] h = refl
take-whole zero (c ∷ s) h = absurd (omega arith)
take-whole (suc n) (c ∷ s) h = ap (λ r. c ∷ r) (take-whole n s (omega arith))

length-link_text : (n : ℕ) → n ≤ ulong_max → length (socket_link n) ≤ 29
length-link_text n h = omega (arith, length-number n h, length-append (decimal n) (b']' ∷ []))

no_type_2 : (n : ℕ) → extract_type_2_socket_inode (socket_link n) ≡ none
unfolding extract_type_2_socket_inode same_text
no_type_2 n = ground arith

socket_inode-whole :
    (l : Bytes)
    → length l ≤ 29
    → extract_type_2_socket_inode l ≡ none
    → socket_inode l ≡ extract_type_1_socket_inode l
unfolding socket_inode
socket_inode-whole l h k = ap stored (take-whole 29 l h) ∙ go (extract_type_1_socket_inode l)
  where
    stored : Bytes → Option ℕ
    stored lname = elim (extract_type_1_socket_inode lname) [
      | some inode ↦ some inode
      | none ↦ extract_type_2_socket_inode lname
    ]

    go :
        (o : Option ℕ)
        → (elim o [ some inode ↦ some inode | none ↦ extract_type_2_socket_inode l ]) ≡ o
    go none = k
    go (some n) = refl

socket_inode-link :
    (n : ℕ)
    → n ≤ ulong_max
    → socket_inode (socket_link n) ≡ (if ltb n 10 || n == ulong_max then none else some n)
socket_inode-link n h =
    socket_inode-whole (socket_link n) (length-link_text n h) (no_type_2 n)
    ∙ extract_type_1-link n h

socket_inode-other : (s : Bytes) → IsTarget (other s) → socket_inode s ≡ none
unfolding socket_inode extract_type_1_socket_inode extract_type_2_socket_inode same_text
socket_inode-other [] h = refl
socket_inode-other (c ∷ s) h =
    let a : (c == b's') ≡ false = ground (arith, h.0) in
    let b : (c == b'[') ≡ false = ground (arith, h.1) in ground arith

skip_fd-number :
    (n : ℕ) (c : Command) (d : Descriptor)
    → n ≤ ulong_max
    → d.fd ≤ ulong_max
    → skip_fd (decimal n) (fd_entry c d) ≡ false
unfolding skip_fd fd_path_length
skip_fd-number n c d h k =
    rw (isdigit-first d.fd k) (ground (arith, length-number n h, length-number d.fd k))

-- The inode of a descriptor, as far as the code can read it.
abbrev pub readable_inode : Target → Option ℕ
readable_inode (socket n) = if ltb n 10 || n == ulong_max then none else some n
readable_inode (other s) = none

pub fd_inode-entry :
    (n : ℕ) (c : Command) (d : Descriptor)
    → n ≤ ulong_max
    → d.fd ≤ ulong_max
    → IsTarget d.target
    → fd_inode (decimal n) (fd_entry c d) ≡ readable_inode d.target
unfolding fd_inode
fd_inode-entry n c d h k t = rw (skip_fd-number n c d h k) (go d.target t)
  where
    go : (t : Target) → IsTarget t → socket_inode (link_text t) ≡ readable_inode t
    go (socket i) h = socket_inode-link i h
    go (other s) h = socket_inode-other s h
