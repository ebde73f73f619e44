-- ===== src/Sockets/Load/Processes.antt =====
-- A /proc that is described apart from the code of prg_cache_load: by the numbers of the processes,
-- their commands, and what their descriptors refer to; and which process holds an inode.
pub mod Reading
pub mod Holders
use practice.Base.{
  ℕ, zero, suc, ◌+◌, ◌≤◌, ◌<◌, ◌≡◌, ◌≢◌, refl, Bool, true, false, ◌&&◌, ◌||◌, Option, none, some,
  List, [], ◌∷◌, ◌++◌, ltb, ◌==◌, if◌then◌else◌, length, length-append, take, arith, ◌∙◌, ap, sym,
  inl, inr, ◌⊎◌,
}
use mathlib.Core.List.{map}
use mathlib.Core.Bool.{true≢false}
use practice.Base.Text.{Bytes, codes, isdigit, all_digits, same_text}
use practice.Base.Decimal.{
  decimal, first, value_from, value-decimal, all_digits-decimal, length-decimal_pos, IsBelow,
  length-decimal_below,
}
use practice.Base.Strtoul.{ulong_max}
use practice.Sockets.Inode.{
  socket_link, extract_type_1_socket_inode, extract_type_2_socket_inode, extract_type_1-link,
}
use practice.Sockets.Load.{
  contents, FdEntry, FdDir, denied, opened, ProcEntry, fd_path_length, until_zero, behind_slash,
  program_name, socket_inode, skip_fd, fd_inode, skip_proc, finbuf_text, prg_cache_load,
}
use practice.Sockets.Cache.{safe_strncpy, prg_cache_get, empty_cache}
use practice.Sockets.Cache.History.{Entry, first_owner}
use practice.Sockets.Load.Owners.{
  owner, fd_owners, dir_owners, owners, IsSteady, IsSteadyDir, AllSteady, get-load,
}

-- The program, and where it is called by an absolute path the directory without its last slash.
pub record Command : Type 0 where
  pub directory : Option Bytes
  pub program : Bytes
  pub arguments : Bytes

-- What a descriptor refers to: a socket by its inode, or anything else by the target of its link.
pub data Target : Type 0 where
  socket : ℕ → Target
  other : Bytes → Target

pub record Descriptor : Type 0 where
  pub fd : ℕ
  pub target : Target

-- An entry of /proc: a process, whose descriptors may be read or not, or another file or directory.
pub data Item : Type 0 where
  process : ℕ → Bool → List Descriptor → Item
  file : Bytes → FdDir → Item

abbrev pub path : Command → Bytes
path c = elim c.directory [ none ↦ c.program | some d ↦ d ++ b'/' ∷ c.program ]

abbrev pub command_line : Command → Bytes
command_line c = path c ++ 0 ∷ c.arguments

abbrev pub link_text : Target → Bytes
link_text (socket n) = socket_link n
link_text (other s) = s

abbrev pub fd_entry : Command → Descriptor → FdEntry
fd_entry c d = record {
  d_name = decimal d.fd;
  link = some (link_text d.target);
  cmdline = contents false (some (command_line c));
  memory = true;
}

abbrev pub proc_entry : (ℕ → Command) → Item → ProcEntry
proc_entry command (process n readable fds) = record {
  d_name = decimal n;
  fd_dir = (if readable then opened (map (fd_entry (command n)) fds) else denied);
}
proc_entry command (file name dir) = record { d_name = name; fd_dir = dir }

-- No character of the text is c.
abbrev pub Without : ℕ → Bytes → Type 0
Without c [] = Unit
Without c (d ∷ s) = (d ≢ c) × Without c s

-- The path fits in what is read of the command line; only an absolute one begins with a slash.
abbrev pub IsPlaced : Option Bytes → Bytes → Type 0
IsPlaced none p = first p ≢ b'/'
IsPlaced (some d) p = ((d ≡ []) ⊎ (first d ≡ b'/')) × Without b'/' p

pub record IsCommand (c : Command) : Type 0 where
  pub placed : IsPlaced c.directory c.program
  pub no_zero : Without 0 (path c)
  pub path_fits : length (path c) ≤ 511

-- Numbers in 64 bits. The link of what is no socket begins with another letter, or a slash.
abbrev pub IsTarget : Target → Type 0
IsTarget (socket n) = n ≤ ulong_max
IsTarget (other s) = (first s ≢ b's') × (first s ≢ b'[')

abbrev pub AreDescriptors : List Descriptor → Type 0
AreDescriptors [] = Unit
AreDescriptors (d ∷ rest) = (d.fd ≤ ulong_max) × IsTarget d.target × AreDescriptors rest

-- The name of what is no process begins with a character that is not a digit.
abbrev pub IsItem : (ℕ → Command) → Item → Type 0
IsItem command (process n readable fds) =
    (n ≤ ulong_max) × IsCommand (command n) × AreDescriptors fds
IsItem command (file name dir) = (name ≢ []) × ((first name < b'0') ⊎ (b'9' < first name))

abbrev pub AreItems : (ℕ → Command) → List Item → Type 0
AreItems command [] = Unit
AreItems command (i ∷ rest) = IsItem command i × AreItems command rest

-- A descriptor of the socket with the inode.
unfoldable pub holds : ℕ → List Descriptor → Bool
holds j [] = false
holds j (d ∷ rest) = elim d.target [ socket n ↦ n == j || holds j rest | other s ↦ holds j rest ]

-- The first process that has the inode open and whose descriptors may be read.
unfoldable pub first_holder : (ℕ → Command) → ℕ → List Item → Bytes
unfolding holds
first_holder command j [] = codes "-"
first_holder command j (process n readable fds ∷ rest) =
    if readable && holds j fds
    then take 19 (decimal n ++ b'/' ∷ (command n).program)
    else first_holder command j rest
first_holder command j (file name dir ∷ rest) = first_holder command j rest
