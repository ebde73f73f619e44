-- ===== src/Atop/Accumulate.antt =====
-- procsuppress, accumulate, cumusers, cumprogs and cumconts of Qt/FakeAtop/showgeneric.c: the sums of
-- the tasks of a user, a program or a container. The sort by qsort is an argument, as is regexec.
-- The sums of a count_t are in 64 bits, those of an int in 32.
pub mod Sum
pub mod Totals
pub mod Strict
pub mod Groups
pub mod Cumulations
use practice.Base.{
  ℕ, zero, suc, ◌+◌, ◌-◌, ◌%◌, ◌^◌, Bool, true, false, not, ◌&&◌, ◌||◌, Option, none, some, List,
  [], ◌∷◌, ◌++◌, ltb, ◌==◌, if◌then◌else◌, take, length,
}
use practice.Base.Int.{ℤ, pos, negsuc, sub_ℕ}
use practice.Base.Text.{Bytes, same_text}
use practice.Atop.Photoproc.Numbers.{as_signed}
use practice.Atop.System.Count.{plus}
use practice.Atop.Tstat.{Tstat, Gen, Cpu, Dsk, Mem, Net, zero_tstat}

-- struct pselection: the selected users and pids up to the end mark, and what regexec says of a text.
pub record Pselection : Type 0 where
  pub userid : List ℕ
  pub pid : List ℕ
  pub progname : Option (Bytes → Bool)
  pub argname : Option (Bytes → Bool)
  pub container : Bytes

pub listed : ℕ → List ℕ → Bool
listed x [] = false
listed x (y ∷ rest) = y == x || listed x rest

-- The selection is not empty, and the number is neither listed nor the mark behind its end.
pub not_selected : ℕ → ℕ → List ℕ → Bool
unfolding listed
not_selected end x [] = false
not_selected end x (y ∷ rest) = not (listed x (y ∷ rest) || x == end)

abbrev pub userstub : ℕ
userstub = 9999999

pub no_match : Option (Bytes → Bool) → Bytes → Bool
no_match none s = false
no_match (some matches) s = not (matches s)

arg_text : Gen → Bytes
arg_text g = elim g.cmdline [ [] ↦ g.name | c ∷ s ↦ g.cmdline ]

pub other_container : Bytes → Bytes → Bool
other_container [] own = false
other_container (c ∷ s) own =
    if c == b'H'
    then (elim own [ [] ↦ false | d ∷ t ↦ true ])
    else not (same_text (take 12 (c ∷ s)) (take 12 own))

unfoldable pub procsuppress : Tstat → Pselection → Bool
unfolding not_selected no_match arg_text other_container
procsuppress t sel =
    not_selected userstub t.gen.ruid sel.userid
    || not_selected 0 t.gen.pid sel.pid
    || no_match sel.progname t.gen.name
    || no_match sel.argname (arg_text t.gen)
    || other_container sel.container t.gen.container

add_int : ℤ → ℤ → ℤ
add_int (pos m) (pos n) = pos (m + n)
add_int (pos m) (negsuc n) = sub_ℕ m (suc n)
add_int (negsuc m) (pos n) = sub_ℕ n (suc m)
add_int (negsuc m) (negsuc n) = negsuc (m + n + 1)

-- A sum of two counters of 64 bits that may be negative.
wrap64 : ℤ → ℤ
wrap64 (pos n) = as_signed 64 n
wrap64 (negsuc n) = as_signed 64 (2 ^ 64 - 1 - n % 2 ^ 64)

add_count : ℤ → ℤ → ℤ
unfolding wrap64 add_int
add_count a b = wrap64 (add_int a b)

-- -1 stands for an error, and stays.
add_pmem : ℤ → ℤ → ℤ
unfolding add_count
add_pmem (negsuc zero) b = negsuc zero
add_pmem a (negsuc zero) = negsuc zero
add_pmem a b = add_count a b

unfoldable pub add_gen : Gen → Gen → Gen
add_gen cur sum = record sum {
  pid = (sum.pid + 1) % 2 ^ 32;
  isproc = true;
  nthr = (sum.nthr + cur.nthr) % 2 ^ 32;
}

unfoldable pub add_cpu : Cpu → Cpu → Cpu
add_cpu cur sum = record sum { utime = plus sum.utime cur.utime; stime = plus sum.stime cur.stime }

unfoldable pub nett_wsz : Dsk → ℕ
nett_wsz d = if ltb d.cwsz d.wsz then d.wsz - d.cwsz else 0

unfoldable pub add_dsk : Dsk → Dsk → Dsk
unfolding nett_wsz
add_dsk cur sum =
    let rio = plus sum.rio cur.rsz in
    let wio = plus sum.wio (nett_wsz cur) in
    record sum { rio = rio; wio = wio; rsz = rio; wsz = wio }

unfoldable pub add_net : Net → Net → Net
add_net cur sum = record {
  tcpsnd = plus sum.tcpsnd cur.tcpsnd;
  tcpssz = plus sum.tcpssz cur.tcpssz;
  tcprcv = plus sum.tcprcv cur.tcprcv;
  tcprsz = plus sum.tcprsz cur.tcprsz;
  udpsnd = plus sum.udpsnd cur.udpsnd;
  udpssz = plus sum.udpssz cur.udpssz;
  udprcv = plus sum.udprcv cur.udprcv;
  udprsz = plus sum.udprsz cur.udprsz;
}

unfoldable pub add_mem : Mem → Mem → Mem
unfolding add_pmem add_count
add_mem cur sum = record sum {
  pmem = add_pmem sum.pmem cur.pmem;
  vmem = plus sum.vmem cur.vmem;
  rmem = plus sum.rmem cur.rmem;
  vlibs = plus sum.vlibs cur.vlibs;
  vdata = plus sum.vdata cur.vdata;
  vstack = plus sum.vstack cur.vstack;
  vswap = plus sum.vswap cur.vswap;
  rgrow = add_count sum.rgrow cur.rgrow;
  vgrow = add_count sum.vgrow cur.vgrow;
}

unfoldable pub accumulate : Tstat → Tstat → Tstat
unfolding add_gen add_cpu add_dsk add_mem add_net
accumulate cur sum = record {
  gen = add_gen cur.gen sum.gen;
  cpu = add_cpu cur.cpu sum.cpu;
  dsk = add_dsk cur.dsk sum.dsk;
  mem = (if cur.gen.state == b'E' then sum.mem else add_mem cur.mem sum.mem);
  net = add_net cur.net sum.net;
}

-- What the three functions differ in: the comparison of a task with the sum, and the copy of the key.
pub record Key : Type 0 where
  pub same : Tstat → Tstat → Bool
  pub copy : Tstat → Tstat → Tstat

abbrev pub user_key : Key
user_key = record {
  same = λ sum cur. sum.gen.ruid == cur.gen.ruid;
  copy = λ cur sum. let g = sum.gen in record sum { gen = record g { ruid = cur.gen.ruid } };
}

abbrev pub prog_key : Key
prog_key = record {
  same = λ sum cur. same_text sum.gen.name cur.gen.name;
  copy = λ cur sum. let g = sum.gen in record sum { gen = record g { name = cur.gen.name } };
}

abbrev pub cont_key : Key
cont_key = record {
  same = λ sum cur. same_text sum.gen.container cur.gen.container;
  copy =
      λ cur sum. let g = sum.gen in record sum { gen = record g { container = cur.gen.container } };
}

-- The list that is written, behind which the entries are zero, and the entry in work.
pub record Cumulated : Type 0 where
  pub finished : List Tstat
  pub current : Tstat

-- The next entry, or the one in work while no task was added to it.
unfoldable pub next_entry : Tstat → Key → Cumulated → Cumulated
next_entry cur k s =
    if k.same s.current cur
    then s
    else if s.current.gen.pid == 0
    then record s { current = k.copy cur s.current }
    else record { finished = s.finished ++ s.current ∷ []; current = k.copy cur zero_tstat }

unfoldable pub skipped : Pselection → Bool → Tstat → Bool
unfolding procsuppress
skipped sel suppressexit t = procsuppress t sel || (t.gen.state == b'E' && suppressexit)

unfoldable pub cumulate_one : Pselection → Bool → Key → Tstat → Cumulated → Cumulated
cumulate_one sel suppressexit k cur s =
    if skipped sel suppressexit cur
    then s
    else (let s' = next_entry cur k s in record s' { current = accumulate cur s'.current })

unfoldable pub cumulate : Pselection → Bool → Key → List Tstat → Cumulated → Cumulated
cumulate sel suppressexit k [] s = s
cumulate sel suppressexit k (t ∷ rest) s =
    cumulate sel suppressexit k rest (cumulate_one sel suppressexit k t s)

-- The entries that the returned number counts.
unfoldable pub entries : Cumulated → List Tstat
entries s = if s.current.gen.pid == 0 then s.finished else s.finished ++ s.current ∷ []

module _ (qsort : Key → List Tstat → List Tstat) (sel : Pselection) (suppressexit : Bool) where
  unfoldable pub cum : Key → List Tstat → List Tstat
  unfolding entries
  cum k procs =
      entries (
        cumulate sel suppressexit k (qsort k procs)
          (record { finished = []; current = zero_tstat }))

  unfoldable pub cumusers : List Tstat → List Tstat
  unfolding cum
  cumusers procs = cum user_key procs

  unfoldable pub cumprogs : List Tstat → List Tstat
  unfolding cum
  cumprogs procs = cum prog_key procs

  unfoldable pub cumconts : List Tstat → List Tstat
  unfolding cum
  cumconts procs = cum cont_key procs
