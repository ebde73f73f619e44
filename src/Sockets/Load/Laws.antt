-- ===== src/Sockets/Load/Laws.antt =====
-- What prg_cache_load leaves in the cache.
use practice.Base.{
  ℕ, ◌≡◌, ◌≢◌, Bool, false, Option, none, some, List, [], ◌∷◌, ◌==◌, arith, inl, inr, Option-cases,
  Bool-cases,
}
use practice.Base.Text.{Bytes}
use practice.Sockets.Cache.{PrgCache, prg_cache_add}
use practice.Sockets.Cache.Laws.{IsCache, add-IsCache}
use practice.Sockets.Load.{
  FdEntry, FdDir, denied, failed, opened, ProcEntry, Message, quiet, no_info, FdState, add_owner,
  fd_inode, load_fd, load_fds, LoadState, skip_proc, load_dir, load_proc, load_procs, load_message,
  prg_cache_load,
}

-- What every addition keeps, and what holds of the flag.
abbrev Keeps : PrgCache → Type 0
Keeps c = IsCache c × (c.loaded ≢ 0)

add-Keeps :
    (memory : Bool) (inode : ℕ) (name scon : Bytes) (c : PrgCache)
    → Keeps c
    → Keeps (prg_cache_add memory inode name scon c)
unfolding prg_cache_add
add-Keeps memory inode name scon c k = (add-IsCache memory inode name scon c k.0, omega arith)

add_owner-Keeps :
    (pid : Bytes) (memory : Bool) (inode : ℕ) (cmdlp : Option Bytes) (s : FdState)
    → Keeps s.cache
    → Keeps (add_owner pid memory inode cmdlp s).cache
unfolding add_owner
add_owner-Keeps pid memory inode none s k = k
add_owner-Keeps pid memory inode (some c) s k = add-Keeps memory inode _ _ s.cache k

load_fd-Keeps :
    (pid : Bytes) (f : FdEntry) (s : FdState) → Keeps s.cache → Keeps (load_fd pid f s).cache
unfolding load_fd
load_fd-Keeps pid f s k = elim (Option-cases (fd_inode pid f)) [
  | inl e ↦ rw (e, load_fd) k
  | inr (inode, e) ↦ rw (e, load_fd) (add_owner-Keeps pid f.memory inode _ s k)
]

load_fds-Keeps :
    (pid : Bytes) (fds : List FdEntry) (s : FdState)
    → Keeps s.cache
    → Keeps (load_fds pid fds s).cache
unfolding load_fds
load_fds-Keeps pid [] s k = k
load_fds-Keeps pid (f ∷ rest) s k =
    load_fds-Keeps pid rest (load_fd pid f s) (load_fd-Keeps pid f s k)

load_dir-Keeps :
    (pid : Bytes) (d : FdDir) (s : LoadState) → Keeps s.cache → Keeps (load_dir pid d s).cache
unfolding load_dir
load_dir-Keeps pid denied s k = k
load_dir-Keeps pid failed s k = k
load_dir-Keeps pid (opened fds) s k = load_fds-Keeps pid fds _ k

load_proc-Keeps : (p : ProcEntry) (s : LoadState) → Keeps s.cache → Keeps (load_proc p s).cache
unfolding load_proc
load_proc-Keeps p s k = elim (Bool-cases (skip_proc p.d_name)) [
  | inl e ↦ rw e k
  | inr e ↦ rw e (load_dir-Keeps p.d_name p.fd_dir s k)
]

load_procs-Keeps :
    (procs : List ProcEntry) (s : LoadState) → Keeps s.cache → Keeps (load_procs procs s).cache
unfolding load_procs
load_procs-Keeps [] s k = k
load_procs-Keeps (p ∷ rest) s k = load_procs-Keeps rest (load_proc p s) (load_proc-Keeps p s k)

mark-Keeps : (c : PrgCache) → IsCache c → Keeps (record c { loaded = 1 })
mark-Keeps c v = (record { size = v.size; unique = v.unique; placed = v.placed }, omega arith)

-- Whatever /proc shows, a load keeps the table well formed, and marks the cache as loaded.
pub load-IsCache :
    (env : Option (List ProcEntry)) (c : PrgCache)
    → IsCache c
    → IsCache (prg_cache_load env c).0 × ((prg_cache_load env c).0.loaded ≢ 0)
unfolding prg_cache_load
load-IsCache env c v = elim (Bool-cases (c.loaded == 0)) [
  | inr e ↦ rw e (v, ground arith)
  | inl e ↦ rw e (fresh env)
]
  where
    fresh :
        (env : Option (List ProcEntry))
        → Keeps
            (elim env as (λ _. PrgCache × Message) [
              | none ↦ (record c { loaded = 1 }, no_info)
              | some procs ↦
                  let s =
                    load_procs procs (record { cache = record c { loaded = 1 }; eacces = false }) in
                  (s.cache, load_message s)
            ]).0
    fresh none = mark-Keeps c v
    fresh (some procs) = load_procs-Keeps procs _ (mark-Keeps c v)

load_again :
    (env : Option (List ProcEntry)) (c : PrgCache)
    → c.loaded ≢ 0
    → prg_cache_load env c ≡ (c, quiet)
unfolding prg_cache_load
load_again env c h = ground arith

-- A second load, whatever /proc shows then, changes nothing and says nothing.
pub load-load :
    (env later : Option (List ProcEntry)) (c : PrgCache)
    → IsCache c
    → prg_cache_load later (prg_cache_load env c).0 ≡ ((prg_cache_load env c).0, quiet)
load-load env later c v = load_again later (prg_cache_load env c).0 (load-IsCache env c v).1
