-- ===== src/Tests/Sockets.antt =====
-- A small /proc, a cache that is filled from it, and the address routines at 127.0.0.1.
use mathlib.Core.List.{map}
use practice.Base.{
  ◌≤◌, ℕ, ◌≡◌, refl, true, false, ◌||◌, none, some, List, [], ◌∷◌, arith, ltb, ◌==◌, if◌then◌else◌,
  inr,
}
use practice.Base.Text.{Bytes, codes}
use practice.Base.Decimal.{decimal}
use practice.Base.Strtoul.{ulong_max}
use practice.Capture.Table.{Flow, add_bandwidth}
use practice.Sockets.Inode.{socket_link, extract_type_1_socket_inode, extract_type_1-link}
use practice.Sockets.Cache.{safe_strncpy, PrgCache, empty_cache, prg_cache_add, prg_cache_get}
use practice.Sockets.Cache.History.{Entry, add_all, first_owner, get-add_all}
use practice.Sockets.Load.{opened, prg_cache_load}
use practice.Sockets.Load.Processes.{
  Command, socket, other, Descriptor, process, file, Item, proc_entry, IsCommand, AreDescriptors,
  IsItem, AreItems, holds, first_holder,
}
use practice.Sockets.Load.Processes.Holders.{get-proc_entries}
use practice.Sockets.Address.{address_parser, find_bandwidth}
use practice.Sockets.Address.Hex.{hex_word}
use practice.Sockets.Address.Dotted.{three_digits, buffer, address_parser-hex_word}
use practice.Sockets.Address.Lookup.{find_bandwidth-add}

link_inode : extract_type_1_socket_inode (codes "socket:[12345]") ≡ some 12345
unfolding decimal
link_inode = extract_type_1-link 12345 (omega arith)

extract_type_1-link_example :
    extract_type_1_socket_inode (socket_link 5)
    ≡ (if ltb 5 10 || 5 == ulong_max then none else some 5)
extract_type_1-link_example = extract_type_1-link 5 (omega arith)

abbrev sshd : Bytes
sshd = codes "12/sshd"

abbrev one_entry : PrgCache
one_entry = prg_cache_add true 345 sshd (codes "-") empty_cache

one_loaded : one_entry.loaded ≡ 2
unfolding prg_cache_add
one_loaded = refl

abbrev entries : List Entry
entries =
    (record { memory = false; inode = 345; name = codes "11/sh"; scon = codes "-" })
    ∷ (record { memory = true; inode = 345; name = sshd; scon = codes "-" })
    ∷ (record { memory = true; inode = 345; name = codes "13/sh"; scon = codes "sh" })
    ∷ []

entries_owner : first_owner 345 entries ≡ sshd
unfolding first_owner safe_strncpy
entries_owner = refl

get-add_all_example : prg_cache_get 345 (add_all entries empty_cache) ≡ first_owner 345 entries
get-add_all_example = get-add_all entries 345

-- Every process is called as /usr/bin/sshd -D.
abbrev command : ℕ → Command
command n = record {
  directory = some (codes "/usr/bin");
  program = codes "sshd";
  arguments = codes "-D";
}

abbrev fds : List Descriptor
fds =
    (record { fd = 0; target = other (codes "/dev/null") })
    ∷ (record { fd = 13; target = socket 345 })
    ∷ []

-- The first process may not be read, and self is no process.
abbrev items : List Item
items =
    file (codes "self") (opened [])
    ∷ process 7 false fds
    ∷ process 12 true fds
    ∷ process 1300 true fds
    ∷ []

command-IsCommand : IsCommand (command 12)
command-IsCommand = record {
  placed = (inr refl, ground arith);
  no_zero = ground arith;
  path_fits = omega arith;
}

items_holder : first_holder command 345 items ≡ codes "12/sshd"
unfolding first_holder holds decimal
items_holder = refl

fds-AreDescriptors : AreDescriptors fds
fds-AreDescriptors = (omega arith, (ground arith, ground arith), (omega arith, omega arith, tt))

items-AreItems : AreItems command items
items-AreItems =
    let p : (n : ℕ) → n ≤ ulong_max → IsItem command (process n true fds) =
      λ n h. (h, command-IsCommand, fds-AreDescriptors) in
    (
      (ground arith, inr (omega arith)),
      (p 7 (omega arith), (p 12 (omega arith), (p 1300 (omega arith), tt))),
    )

get-proc_entries_example :
    prg_cache_get 345 (prg_cache_load (some (map (proc_entry command) items)) empty_cache).0
    ≡ first_holder command 345 items
get-proc_entries_example =
    get-proc_entries command 345 (omega arith) (omega arith) items items-AreItems

-- 127.0.0.1, as a little-endian machine prints it: 0100007F.
abbrev localhost : ℕ
localhost = 0x0100_007f

abbrev garbage : ℕ → ℕ
garbage i = 200

address_parser-hex_word_example :
    address_parser (hex_word localhost) (buffer garbage (77 ∷ []))
    ≡ three_digits 127
        (b'.' ∷ three_digits 0 (b'.' ∷ three_digits 0 (b'.' ∷ three_digits 1 (77 ∷ []))))
address_parser-hex_word_example = address_parser-hex_word localhost garbage (77 ∷ []) (omega arith)

abbrev local_flow : Flow
local_flow = record { source = localhost; dest = 0x0500_a8c0; sport = 80; dport = 40000 }

find_bandwidth-add_example :
    find_bandwidth
      (hex_word 0x0500_a8c0)
      (hex_word localhost)
      40000
      80
      (add_bandwidth local_flow 1500 none)
    ≡ 0
find_bandwidth-add_example =
    find_bandwidth-add local_flow 1500 (omega arith) (omega arith) (omega arith)
