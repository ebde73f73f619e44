-- ===== src/Sockets/Load/Processes/Holders.antt =====
-- Which process prg_cache_load names for an inode.
use practice.Base.{
  ℕ, ◌≤◌, ◌<◌, ◌≡◌, ◌≢◌, refl, Bool, true, false, ◌&&◌, ◌||◌, Option, none, some, List, [], ◌∷◌,
  ◌++◌, ◌==◌, if◌then◌else◌, take, arith, ◌∙◌, ap, sym, inl, inr, ◌⊎◌,
}
use mathlib.Core.List.{map}
use mathlib.Core.Bool.{true≢false}
use practice.Base.Text.{Bytes, isdigit, all_digits}
use practice.Base.Decimal.{decimal, first, value_from, value-decimal}
use practice.Base.Strtoul.{ulong_max}
use practice.Sockets.Load.{
  contents, denied, opened, fd_path_length, program_name, skip_proc, finbuf_text, prg_cache_load,
}
use practice.Sockets.Cache.{safe_strncpy, prg_cache_get, empty_cache}
use practice.Sockets.Cache.History.{Entry, first_owner}
use practice.Sockets.Load.Owners.{
  owner, fd_owners, dir_owners, owners, IsSteady, IsSteadyDir, AllSteady, get-load,
}
use practice.Sockets.Load.Processes.{
  Command, Target, Descriptor, Item, command_line, fd_entry, proc_entry, IsCommand, AreDescriptors,
  IsItem, AreItems, holds, first_holder, socket, other, process, file,
}
use practice.Sockets.Load.Processes.Reading.{
  program_name-command, length-number, skip_proc-number, fd_inode-entry, take_twice, readable_inode,
}

-- The entries that a process adds, in front of others.
module _ (command : ℕ → Command) (j : ℕ) (two_digits : 10 ≤ j) (below_max : j < ulong_max) where
  -- The command line of the process with the number.
  abbrev argv : Bytes → Bytes
  argv pid = command_line (command (value_from 0 pid))

  abbrev named : ℕ → Bytes
  named n = take 19 (decimal n ++ b'/' ∷ (command n).program)

  first_owner-fds :
      (n : ℕ) (fds : List Descriptor) (ys : List Entry)
      → n ≤ ulong_max
      → IsCommand (command n)
      → AreDescriptors fds
      → first_owner j (fd_owners argv (decimal n) (map (fd_entry (command n)) fds) ++ ys)
        ≡ (if holds j fds then named n else first_owner j ys)
  unfolding fd_owners holds
  first_owner-fds n [] ys h c ds = refl
  first_owner-fds n (d ∷ rest) ys h c (k, t, ds) =
      let ih = first_owner-fds n rest ys h c ds in
      ap (λ o. first_owner j (added o ++ ys)) (fd_inode-entry n (command n) d h k t)
      ∙ go d.target ih
    where
      more : List Entry
      more = fd_owners argv (decimal n) (map (fd_entry (command n)) rest)

      added : Option ℕ → List Entry
      added none = more
      added (some inode) = owner argv (decimal n) inode ∷ more

      name_same :
          safe_strncpy (finbuf_text (decimal n) (program_name (argv (decimal n)))) 20 ≡ named n
      name_same =
          unfold safe_strncpy finbuf_text in
          rw (value-decimal n, program_name-command (command n) c) (take_twice 19 _)

      go :
          (t : Target)
          → first_owner j (more ++ ys) ≡ (if holds j rest then named n else first_owner j ys)
          → first_owner j (added (readable_inode t) ++ ys) ≡ (
              if (elim t [ socket i ↦ i == j || holds j rest | other s ↦ holds j rest ])
              then named n
              else first_owner j ys)
      go (other s) ih = ih
      go (socket i) ih = unfold first_owner in ground (arith, ih, name_same)

  process_owners : ℕ → Bool → List Descriptor → List Entry
  process_owners n readable fds =
      dir_owners argv (decimal n)
        (if readable then opened (map (fd_entry (command n)) fds) else denied)

  first_owner-process :
      (n : ℕ) (readable : Bool) (fds : List Descriptor) (ys : List Entry)
      → IsItem command (process n readable fds)
      → first_owner j (process_owners n readable fds ++ ys)
        ≡ (if readable && holds j fds then named n else first_owner j ys)
  unfolding process_owners dir_owners
  first_owner-process n false fds ys h = refl
  first_owner-process n true fds ys (h, c, ds) = first_owner-fds n fds ys h c ds

  skip_proc-file :
      (name : Bytes) → name ≢ [] → (first name < b'0') ⊎ (b'9' < first name) → skip_proc name ≡ true
  unfolding skip_proc all_digits isdigit
  skip_proc-file [] ne h = absurd (ne refl)
  skip_proc-file (c ∷ s) ne (inl h) = ground arith
  skip_proc-file (c ∷ s) ne (inr h) = ground arith

  first_owner-items :
      (items : List Item)
      → AreItems command items
      → first_owner j (owners argv (map (proc_entry command) items)) ≡ first_holder command j items
  unfolding owners first_holder dir_owners process_owners
  first_owner-items [] h = unfold first_owner in refl
  first_owner-items (process n readable fds ∷ rest) (h, hs) =
      rw (skip_proc-number n h.0)
        (first_owner-process n readable fds (owners argv (map (proc_entry command) rest)) h)
      ∙ ap (λ r. if readable && holds j fds then named n else r) (first_owner-items rest hs)
  first_owner-items (file name dir ∷ rest) (h, hs) =
      rw (skip_proc-file name h.0 h.1) (first_owner-items rest hs)

  steady :
      (n : ℕ) (fds : List Descriptor) → IsSteady argv (decimal n) (map (fd_entry (command n)) fds)
  steady n [] = tt
  steady n (d ∷ rest) = (
    ap (λ m. contents false (some (command_line (command m)))) (sym (value-decimal n)),
    refl,
    steady n rest,
  )

  steady_dir :
      (n : ℕ) (readable : Bool) (fds : List Descriptor)
      → n ≤ ulong_max
      → IsSteadyDir argv
          (decimal n)
          (if readable then opened (map (fd_entry (command n)) fds) else denied)
  unfolding fd_path_length
  steady_dir n false fds h = tt
  steady_dir n true fds h = (omega (arith, length-number n h), steady n fds)

  all_steady :
      (items : List Item) → AreItems command items → AllSteady argv (map (proc_entry command) items)
  all_steady [] h = tt
  all_steady (process n readable fds ∷ rest) (h, hs) =
      (λ e. steady_dir n readable fds h.0, all_steady rest hs)
  all_steady (file name dir ∷ rest) (h, hs) =
      (λ e. absurd (true≢false (sym (skip_proc-file name h.0 h.1) ∙ e)), all_steady rest hs)

  -- Where the command lines can be read, name their program in the first 511 characters, and malloc
  -- succeeds: after a load of the empty cache from any /proc of processes and other files, with
  -- numbers and inodes in 64 bits, the answer for an inode of two digits or more, ULONG_MAX excepted,
  -- is number/program, cut to 19 characters, of the first process in the order of /proc that has it
  -- open and whose descriptors may be read, and "-" where there is none.
  pub get-proc_entries :
      (items : List Item)
      → AreItems command items
      → prg_cache_get j (prg_cache_load (some (map (proc_entry command) items)) empty_cache).0
        ≡ first_holder command j items
  get-proc_entries items h =
      get-load argv (map (proc_entry command) items) j (all_steady items h)
      ∙ first_owner-items items h
