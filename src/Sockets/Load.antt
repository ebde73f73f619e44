-- ===== src/Sockets/Load.antt =====
-- prg_cache_load of Qt/ZMonitor/SocketMornitoring/zsocket.c over what the system calls return: the
-- entries of /proc, for each the listing of its fd directory, and for each descriptor the link
-- target, the command line file as it is at that moment, and whether malloc gives a node.
pub mod Laws
pub mod Owners
pub mod Processes
use practice.Base.{
  ℕ, ◌+◌, ◌-◌, Bool, true, false, not, ◌||◌, Option, none, some, List, [], ◌∷◌, ◌++◌, ltb, leb,
  ◌==◌, if◌then◌else◌, length, take,
}
use practice.Base.Text.{Bytes, codes, isdigit, all_digits}
use practice.Base.Decimal.{first}
use practice.Sockets.Inode.{extract_type_1_socket_inode, extract_type_2_socket_inode}
use practice.Sockets.Cache.{PrgCache, prg_cache_add, progname_width}

abbrev pub line_max : ℕ
line_max = 2048

-- The command line file of a process: open fails; or it is read, and close and read may fail.
pub data CmdFile : Type 0 where
  unreadable : CmdFile
  contents : Bool → Option Bytes → CmdFile

pub record FdEntry : Type 0 where
  pub d_name : Bytes
  pub link : Option Bytes
  pub cmdline : CmdFile
  pub memory : Bool

pub data FdDir : Type 0 where
  denied failed : FdDir
  opened : List FdEntry → FdDir

pub record ProcEntry : Type 0 where
  pub d_name : Bytes
  pub fd_dir : FdDir

pub data Message : Type 0 where
  quiet no_info not_all : Message

-- strlen of "/proc/<name>/fd".
unfoldable pub fd_path_length : Bytes → ℕ
fd_path_length name = 6 + length name + 3

-- The C string at the front of a buffer.
pub until_zero : Bytes → Bytes
until_zero [] = []
until_zero (c ∷ s) = if c == 0 then [] else c ∷ until_zero s

-- strrchr (s, '/') + 1, or `best` where s has no slash.
pub behind_slash : Bytes → Bytes → Bytes
behind_slash best [] = best
behind_slash best (c ∷ s) = behind_slash (if c == b'/' then s else best) s

-- cmdlp: the first argument, without its directory where it is an absolute path.
pub program_name : Bytes → Bytes
unfolding until_zero behind_slash
program_name text =
    let cmdl = until_zero (take 511 text) in
    if first cmdl == b'/' then behind_slash cmdl cmdl else cmdl

pub read_cmdline : ℕ → CmdFile → Option Bytes
unfolding program_name
read_cmdline procfdlen unreadable = none
read_cmdline procfdlen (contents close_fails none) = none
read_cmdline procfdlen (contents close_fails (some text)) =
    if leb (line_max - 5) (procfdlen - 2 + 7) || close_fails then none else some (program_name text)

-- readlink stores at most 29 characters.
pub socket_inode : Bytes → Option ℕ
socket_inode link =
    let lname = take 29 link in
    elim (extract_type_1_socket_inode lname) [
      | some inode ↦ some inode
      | none ↦ extract_type_2_socket_inode lname
    ]

-- snprintf (finbuf, sizeof (finbuf), "%s/%s", ...)
pub finbuf_text : Bytes → Bytes → Bytes
finbuf_text pid cmdlp = take (progname_width - 1) (pid ++ b'/' ∷ cmdlp)

-- cmdlp, which is kept for all the descriptors of a process, and the cache.
pub record FdState : Type 0 where
  pub cmdlp : Option Bytes
  pub cache : PrgCache

pub add_owner : Bytes → Bool → ℕ → Option Bytes → FdState → FdState
unfolding finbuf_text
add_owner pid memory inode none s = s
add_owner pid memory inode (some cmdlp) s = record {
  cmdlp = some cmdlp;
  cache = prg_cache_add memory inode (finbuf_text pid cmdlp) (codes "-") s.cache;
}

pub skip_fd : Bytes → FdEntry → Bool
unfolding isdigit fd_path_length
skip_fd pid f =
    not (isdigit (first f.d_name)) || ltb line_max (fd_path_length pid + 1 + length f.d_name + 1)

pub fd_inode : Bytes → FdEntry → Option ℕ
unfolding skip_fd socket_inode
fd_inode pid f =
    if skip_fd pid f then none else elim f.link [ none ↦ none | some link ↦ socket_inode link ]

pub known_or_read : Bytes → CmdFile → Option Bytes → Option Bytes
unfolding read_cmdline fd_path_length
known_or_read pid file (some cmdlp) = some cmdlp
known_or_read pid file none = read_cmdline (fd_path_length pid) file

-- One round of the inner loop.
pub load_fd : Bytes → FdEntry → FdState → FdState
unfolding fd_inode known_or_read add_owner
load_fd pid f s = elim (fd_inode pid f) [
  | none ↦ s
  | some inode ↦ add_owner pid f.memory inode (known_or_read pid f.cmdline s.cmdlp) s
]

pub load_fds : Bytes → List FdEntry → FdState → FdState
unfolding load_fd
load_fds pid [] s = s
load_fds pid (f ∷ rest) s = load_fds pid rest (load_fd pid f s)

pub record LoadState : Type 0 where
  pub cache : PrgCache
  pub eacces : Bool

pub skip_proc : Bytes → Bool
unfolding all_digits fd_path_length
skip_proc name = not (all_digits name) || leb (line_max - 5) (fd_path_length name)

pub load_dir : Bytes → FdDir → LoadState → LoadState
unfolding load_fds
load_dir pid denied s = record s { eacces = true }
load_dir pid failed s = s
load_dir pid (opened fds) s = record s {
  cache = (load_fds pid fds (record { cmdlp = none; cache = s.cache })).cache;
}

-- One round of the outer loop.
pub load_proc : ProcEntry → LoadState → LoadState
unfolding load_dir skip_proc
load_proc p s = if skip_proc p.d_name then s else load_dir p.d_name p.fd_dir s

pub load_procs : List ProcEntry → LoadState → LoadState
unfolding load_proc
load_procs [] s = s
load_procs (p ∷ rest) s = load_procs rest (load_proc p s)

pub load_message : LoadState → Message
load_message s = if not s.eacces then quiet else if s.cache.loaded == 1 then no_info else not_all

-- none: /proc cannot be opened.
unfoldable pub prg_cache_load : Option (List ProcEntry) → PrgCache → PrgCache × Message
unfolding load_procs load_message
prg_cache_load env c = if not (c.loaded == 0) then (c, quiet) else elim env [
  | none ↦ (record c { loaded = 1 }, no_info)
  | some procs ↦
      let s = load_procs procs (record { cache = record c { loaded = 1 }; eacces = false }) in
      (s.cache, load_message s)
]
