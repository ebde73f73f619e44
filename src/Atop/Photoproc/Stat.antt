-- ===== src/Atop/Photoproc/Stat.antt =====
-- procstat of Qt/FakeAtop/photoproc.c: the name of a task and its counters from its file stat.
pub mod Places
pub mod Columns
pub mod Text
use practice.Base.{
  ℕ, zero, suc, ◌+◌, ◌-◌, ◌*◌, ◌/◌, ◌%◌, ◌^◌, Bool, true, false, ◌||◌, Option, none, some, List, [],
  ◌∷◌, ltb, ◌==◌, if◌then◌else◌, length, get_or, take, drop, min,
}
use practice.Base.Int.{ℤ, pos, negsuc}
use practice.Base.Text.{Bytes}
use practice.Atop.Tstat.{Tstat, Gen, Cpu, Mem}
use practice.Atop.Photosyst.Scan.{skip_space, read_lld}
use practice.Atop.Photoproc.Numbers.{as_signed, as_id, div_count, id_or}

abbrev pub pnamlen : ℕ
pnamlen = 15

-- The places that strchr and strrchr find.
unfoldable pub strchr : ℕ → Bytes → Option ℕ
strchr c [] = none
strchr c (d ∷ s) =
    let more = strchr c s in
    if c == d then some 0 else elim more [ none ↦ none | some i ↦ some (suc i) ]

unfoldable pub strrchr : ℕ → Bytes → Option ℕ
strrchr c [] = none
strrchr c (d ∷ s) = elim (strrchr c s) [
  | none ↦ if c == d then some 0 else none
  | some i ↦ some (suc i)
]

-- Each newline becomes a question mark.
unfoldable pub no_newline : Bytes → Bytes
no_newline [] = []
no_newline (c ∷ s) = (if c == 10 then b'?' else c) ∷ no_newline s

unfoldable pub task_name : Bytes → ℕ → ℕ → Bytes
task_name line head tail = no_newline (take (min (tail - head - 1) pnamlen) (drop (head + 1) line))

-- A conversion of SCANSTAT behind the state: %*d, and the others, which all read the number that
-- strtoll reads.
pub data Conversion : Type 0 where
  skipped : Conversion
  stored : Conversion

abbrev pub stat_format : List Conversion
stat_format =
    stored ∷ skipped ∷ skipped ∷ skipped ∷ skipped ∷ skipped ∷ stored ∷ skipped ∷ stored ∷ skipped
    ∷ stored ∷ stored ∷ skipped ∷ skipped ∷ stored ∷ stored ∷ skipped ∷ skipped ∷ stored ∷ stored
    ∷ stored ∷ skipped ∷ skipped ∷ skipped ∷ skipped ∷ skipped ∷ skipped ∷ skipped ∷ skipped
    ∷ skipped ∷ skipped ∷ skipped ∷ skipped ∷ skipped ∷ skipped ∷ stored ∷ stored ∷ stored ∷ []

-- The numbers that sscanf stores, up to the first conversion that fails.
unfoldable pub scan_numbers : List Conversion → Bytes → List ℕ
scan_numbers [] s = []
scan_numbers (skipped ∷ f) s = elim (read_lld (skip_space s)) [
  | none ↦ []
  | some r ↦ scan_numbers f r.rest
]
scan_numbers (stored ∷ f) s = elim (read_lld (skip_space s)) [
  | none ↦ []
  | some r ↦ r.value ∷ scan_numbers f r.rest
]

-- %c takes any character; then the numbers.
unfoldable pub scan_stat : Bytes → List ℕ
scan_stat [] = []
scan_stat (c ∷ s) = c ∷ scan_numbers stat_format s

-- What is stored is at most the first fields; the others keep their values.
unfoldable pub count_at : List ℕ → ℕ → ℕ → ℕ
count_at [] i old = old
count_at (v ∷ vs) zero old = v
count_at (v ∷ vs) (suc i) old = count_at vs i old

unfoldable pub id_at : List ℕ → ℕ → ℕ → ℕ
id_at [] i old = old
id_at (v ∷ vs) zero old = as_id v
id_at (v ∷ vs) (suc i) old = id_at vs i old

unfoldable pub int_at : List ℕ → ℕ → ℤ → ℤ
int_at [] i old = old
int_at (v ∷ vs) zero old = as_signed 32 v
int_at (v ∷ vs) (suc i) old = int_at vs i old

-- The assignments of sscanf, behind those of the constants.
unfoldable pub store_stat : List ℕ → Bool → Bytes → Bytes → Tstat → Tstat
store_stat vs isproc nam line t = record t {
  gen = record t.gen {
    name = nam;
    isproc = isproc;
    excode = 0;
    pid = id_or line t.gen.pid;
    state = count_at vs 0 t.gen.state;
    ppid = id_at vs 1 t.gen.ppid;
    btime = count_at vs 8 t.gen.btime;
  };
  mem = record t.mem {
    minflt = count_at vs 2 t.mem.minflt;
    majflt = count_at vs 3 t.mem.majflt;
    vmem = count_at vs 9 t.mem.vmem;
    rmem = count_at vs 10 t.mem.rmem;
  };
  cpu = record t.cpu {
    utime = count_at vs 4 t.cpu.utime;
    stime = count_at vs 5 t.cpu.stime;
    prio = int_at vs 6 t.cpu.prio;
    nice = int_at vs 7 t.cpu.nice;
    curcpu = int_at vs 11 t.cpu.curcpu;
    rtprio = int_at vs 12 (pos 0);
    policy = int_at vs 13 (pos 0);
  };
}

-- prio += 100 on an int.
abbrev pub add_100 : ℤ → ℤ
add_100 (pos n) = as_signed 32 (n + 100)
add_100 (negsuc n) = as_signed 32 (2 ^ 32 - 1 - n + 100)

module _ (hertz pagesize : ℕ) where
  unfoldable pub normalize_stat : ℕ → Tstat → Tstat
  normalize_stat bootepoch t = record t {
    gen = record t.gen { btime = (t.gen.btime + bootepoch) % 2 ^ 64 / hertz };
    cpu = record t.cpu { prio = add_100 t.cpu.prio };
    mem = record t.mem {
      vmem = div_count t.mem.vmem 1024;
      rmem = t.mem.rmem * (pagesize / 1024) % 2 ^ 64;
    };
  }

-- A task of one thread, which is counted by its state; the other counts are not cleared.
unfoldable pub count_state : Tstat → Tstat
count_state t = record t {
  gen = record t.gen {
    nthrrun = (if t.gen.state == b'R' then 1 else t.gen.nthrrun);
    nthrslpi = (if t.gen.state == b'S' then 1 else t.gen.nthrslpi);
    nthrslpu = (if t.gen.state == b'D' then 1 else t.gen.nthrslpu);
  };
}

-- The result and the entry behind a call; the entry changes also where the result is false.
pub record Filled : Type 0 where
  pub ok : Bool
  pub task : Tstat

module _ (hertz pagesize : ℕ) where
  unfoldable pub parse_stat : ℕ → Bool → Bytes → ℕ → ℕ → Tstat → Filled
  parse_stat bootepoch isproc line head tail t =
      let vs = scan_stat (drop (tail + 2) line) in
      let filled = store_stat vs isproc (task_name line head tail) line t in
      if ltb (length vs) 12
      then record { ok = false; task = filled }
      else record { ok = true; task = count_state (normalize_stat hertz pagesize bootepoch filled) }

  unfoldable pub named_stat : ℕ → Bool → Bytes → Tstat → Filled
  named_stat bootepoch isproc line t = elim (strchr b'(' line) [
    | none ↦ record { ok = false; task = t }
    | some head ↦ elim (strrchr b')' line) [
      | none ↦ record { ok = false; task = t }
      | some tail ↦
          if ltb tail head
          then record { ok = false; task = t }
          else parse_stat bootepoch isproc line head tail t
    ]
  ]

  -- fread returns at most 4095 bytes; a file of none fails as one that cannot be opened.
  unfoldable pub procstat : ℕ → Bool → Option Bytes → Tstat → Filled
  procstat bootepoch isproc none t = record { ok = false; task = t }
  procstat bootepoch isproc (some []) t = record { ok = false; task = t }
  procstat bootepoch isproc (some (c ∷ s)) t = named_stat bootepoch isproc (take 4095 (c ∷ s)) t
