-- ===== src/Sockets/Load/Owners.antt =====
-- The entries that prg_cache_load adds to the cache.
use practice.Base.{
  ℕ, ◌+◌, ◌-◌, ◌<◌, ◌≡◌, refl, true, false, Option, none, some, List, [], ◌∷◌, ◌++◌, if◌then◌else◌,
  arith, ◌∙◌, ap, sym, inl, inr, ◌⊎◌, Option-cases, Bool-cases,
}
use practice.Base.Text.{Bytes, codes}
use practice.Sockets.Cache.{prg_cache_add, prg_cache_get, empty_cache}
use practice.Sockets.Cache.History.{
  Entry, add_all, first_owner, get-add_all_loaded, add_all-nil, add_all-cons, add_all-append,
}
use practice.Sockets.Load.{
  line_max, contents, FdEntry, FdDir, denied, failed, opened, ProcEntry, fd_path_length,
  program_name, finbuf_text, FdState, add_owner, fd_inode, known_or_read, load_fd, load_fds,
  LoadState, skip_proc, load_dir, load_proc, load_procs, prg_cache_load,
}

module _ (argv : Bytes → Bytes) where
  -- The command line of the process can be read each time, and is argv of its number; malloc succeeds.
  abbrev pub IsSteady : Bytes → List FdEntry → Type 0
  IsSteady pid [] = Unit
  IsSteady pid (f ∷ rest) =
      (f.cmdline ≡ contents false (some (argv pid))) × (f.memory ≡ true) × IsSteady pid rest

  abbrev pub IsSteadyDir : Bytes → FdDir → Type 0
  IsSteadyDir pid denied = Unit
  IsSteadyDir pid failed = Unit
  IsSteadyDir pid (opened fds) = (fd_path_length pid + 5 < line_max - 5) × IsSteady pid fds

  abbrev pub AllSteady : List ProcEntry → Type 0
  AllSteady [] = Unit
  AllSteady (p ∷ rest) =
      (skip_proc p.d_name ≡ false → IsSteadyDir p.d_name p.fd_dir) × AllSteady rest

  abbrev pub owner : Bytes → ℕ → Entry
  owner pid inode = record {
    memory = true;
    inode = inode;
    name = finbuf_text pid (program_name (argv pid));
    scon = codes "-";
  }

  -- The sockets of a process, each with the name pid/program, as the code reads them.
  unfoldable pub fd_owners : Bytes → List FdEntry → List Entry
  fd_owners pid [] = []
  fd_owners pid (f ∷ rest) = elim (fd_inode pid f) [
    | none ↦ fd_owners pid rest
    | some inode ↦ owner pid inode ∷ fd_owners pid rest
  ]

  unfoldable pub dir_owners : Bytes → FdDir → List Entry
  dir_owners pid denied = []
  dir_owners pid failed = []
  dir_owners pid (opened fds) = fd_owners pid fds

  unfoldable pub owners : List ProcEntry → List Entry
  owners [] = []
  owners (p ∷ rest) =
      (if skip_proc p.d_name then [] else dir_owners p.d_name p.fd_dir) ++ owners rest

  -- Before the first socket of a process cmdlp is null, afterwards it is the program's name.
  abbrev Cached : Bytes → Option Bytes → Type 0
  Cached pid o = (o ≡ none) ⊎ (o ≡ some (program_name (argv pid)))

  name_read :
      (pid : Bytes) (f : FdEntry) (o : Option Bytes)
      → fd_path_length pid + 5 < line_max - 5
      → f.cmdline ≡ contents false (some (argv pid))
      → Cached pid o
      → known_or_read pid f.cmdline o ≡ some (program_name (argv pid))
  unfolding known_or_read fd_path_length
  name_read pid f o short e c = ground arith

  load_fd-none :
      (pid : Bytes) (f : FdEntry) (s : FdState) → fd_inode pid f ≡ none → load_fd pid f s ≡ s
  unfolding load_fd
  load_fd-none pid f s h = ground arith

  load_fd-some :
      (pid : Bytes) (f : FdEntry) (s : FdState) (inode : ℕ)
      → fd_path_length pid + 5 < line_max - 5
      → f.cmdline ≡ contents false (some (argv pid))
      → f.memory ≡ true
      → Cached pid s.cmdlp
      → fd_inode pid f ≡ some inode
      → load_fd pid f s ≡ record {
        cmdlp = some (program_name (argv pid));
        cache =
            prg_cache_add true inode
              (finbuf_text pid (program_name (argv pid)))
              (codes "-")
              s.cache;
      }
  unfolding load_fd add_owner
  load_fd-some pid f s inode short e m c h = ground (arith, name_read pid f s.cmdlp short e c)

  fd_owners-none :
      (pid : Bytes) (f : FdEntry) (rest : List FdEntry)
      → fd_inode pid f ≡ none
      → fd_owners pid (f ∷ rest) ≡ fd_owners pid rest
  unfolding fd_owners
  fd_owners-none pid f rest h = ground arith

  fd_owners-some :
      (pid : Bytes) (f : FdEntry) (rest : List FdEntry) (inode : ℕ)
      → fd_inode pid f ≡ some inode
      → fd_owners pid (f ∷ rest) ≡ owner pid inode ∷ fd_owners pid rest
  unfolding fd_owners
  fd_owners-some pid f rest inode h = ground arith

  load_fds-owners :
      (pid : Bytes) (fds : List FdEntry) (s : FdState)
      → fd_path_length pid + 5 < line_max - 5
      → IsSteady pid fds
      → Cached pid s.cmdlp
      → (load_fds pid fds s).cache ≡ add_all (fd_owners pid fds) s.cache
  unfolding load_fds
  load_fds-owners pid [] s short st c = unfold fd_owners in add_all-nil s.cache
  load_fds-owners pid (f ∷ rest) s short (e, m, st) c = elim (Option-cases (fd_inode pid f)) [
    | inl h ↦
        ap (λ t. (load_fds pid rest t).cache) (load_fd-none pid f s h)
        ∙ load_fds-owners pid rest s short st c
        ∙ ap (λ es. add_all es s.cache) (sym (fd_owners-none pid f rest h))
    | inr (inode, h) ↦
        ap (λ t. (load_fds pid rest t).cache) (load_fd-some pid f s inode short e m c h)
        ∙ load_fds-owners pid rest _ short st (inr refl)
        ∙ sym (add_all-cons _ (fd_owners pid rest) s.cache)
        ∙ ap (λ es. add_all es s.cache) (sym (fd_owners-some pid f rest inode h))
  ]

  load_dir-owners :
      (pid : Bytes) (d : FdDir) (s : LoadState)
      → IsSteadyDir pid d
      → (load_dir pid d s).cache ≡ add_all (dir_owners pid d) s.cache
  unfolding load_dir dir_owners
  load_dir-owners pid denied s st = add_all-nil s.cache
  load_dir-owners pid failed s st = add_all-nil s.cache
  load_dir-owners pid (opened fds) s (short, st) = load_fds-owners pid fds _ short st (inl refl)

  load_proc-owners :
      (p : ProcEntry) (s : LoadState)
      → (skip_proc p.d_name ≡ false → IsSteadyDir p.d_name p.fd_dir)
      → (load_proc p s).cache
        ≡ add_all (if skip_proc p.d_name then [] else dir_owners p.d_name p.fd_dir) s.cache
  unfolding load_proc
  load_proc-owners p s st = elim (Bool-cases (skip_proc p.d_name)) [
    | inl e ↦ rw e (add_all-nil s.cache)
    | inr e ↦ rw e (load_dir-owners p.d_name p.fd_dir s (st e))
  ]

  load_procs-owners :
      (procs : List ProcEntry) (s : LoadState)
      → AllSteady procs
      → (load_procs procs s).cache ≡ add_all (owners procs) s.cache
  unfolding load_procs owners
  load_procs-owners [] s st = add_all-nil s.cache
  load_procs-owners (p ∷ rest) s (st, sts) =
      load_procs-owners rest (load_proc p s) sts
      ∙ ap (add_all (owners rest)) (load_proc-owners p s st)
      ∙ sym (add_all-append _ (owners rest) s.cache)

  -- A load of the empty cache, where the command line of each process that has sockets can be read
  -- and malloc succeeds, makes the cache answer with the first of these entries.
  pub get-load :
      (procs : List ProcEntry) (j : ℕ)
      → AllSteady procs
      → prg_cache_get j (prg_cache_load (some procs) empty_cache).0 ≡ first_owner j (owners procs)
  unfolding prg_cache_load
  get-load procs j st =
      ap (prg_cache_get j) (load_procs-owners procs _ st) ∙ get-add_all_loaded (owners procs) j
