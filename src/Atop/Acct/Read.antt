-- ===== src/Atop/Acct/Read.antt =====
-- acctphotoproc of Qt/FakeAtop/acctproc.c: the exited processes since the previous sample.
use practice.Base.{
  ℕ, zero, suc, ◌+◌, ◌*◌, ◌/◌, ◌%◌, ◌^◌, Bool, true, ◌&&◌, ◌||◌, not, Option, none, some, List, [],
  ◌∷◌, ltb, leb, ◌==◌, if◌then◌else◌, length, get_elem?,
}
use practice.Atop.Tstat.{Tstat, Gen}
use practice.Atop.Acct.{Acctrec, Acct, records, switchshadow}

unfoldable pub shifted : ℕ → ℕ → ℕ
shifted zero val = val
shifted (suc exp) val = shifted exp (val * 2 ^ 3)

-- 3 bits of an exponent to the base 8, and 13 bits.
unfoldable pub acctexp : ℕ → ℕ
acctexp ct = shifted (ct / 2 ^ 13 % 8) (ct % 2 ^ 13)

unfoldable pub expand_counts : Acctrec → Tstat → Tstat
expand_counts r t = record t {
  cpu = record t.cpu { stime = acctexp r.ac_stime; utime = acctexp r.ac_utime };
  mem = record t.mem { minflt = acctexp r.ac_minflt; majflt = acctexp r.ac_majflt };
  dsk = record t.dsk { rio = acctexp r.ac_rw };
}

unfoldable pub acct_gen : ℕ → ℕ → ℕ → ℕ → Acctrec → Gen → Gen
acct_gen id parent uid gid r g = record g {
  state = b'E';
  nthr = 1;
  isproc = true;
  pid = id;
  tgid = id;
  ppid = parent;
  excode = r.ac_exitcode;
  ruid = uid;
  rgid = gid;
  btime = r.ac_btime;
  elaps = r.ac_etime;
  name = r.ac_comm;
}

-- A record of version 2, which has no pids, and one of version 3.
unfoldable pub acct_task : ℕ → Acctrec → Tstat → Tstat
acct_task version r t =
    let u = expand_counts r t in
    if version == 2
    then record u { gen = acct_gen 0 0 r.ac_uid16 r.ac_gid16 r t.gen }
    else record u { gen = acct_gen r.ac_pid r.ac_ppid r.ac_uid r.ac_gid r t.gen }

-- The state, with the size of the open file that fstat returned last, and the task of one round.
pub record AcctRound : Type 0 where
  pub acct : Acct
  pub size : ℕ
  pub task : Tstat

unfoldable pub read_next : Option Acctrec → Acct → Tstat → Acct × Tstat
read_next none s t = (s, t)
read_next (some r) s t = (record s { offset = suc s.offset }, acct_task s.acctversion r t)

module _ (files : ℕ → Option (List Acctrec)) where
  unfoldable pub acct_file : Acct → List Acctrec
  acct_file s = elim s.acctfd [ none ↦ [] | some fd ↦ records files fd ]

  unfoldable pub open_size : Acct → ℕ
  open_size s = length (acct_file s) * s.acctrecsz

  -- A read behind the end of the file leaves the task as it is; of another version nothing is read.
  unfoldable pub read_acct : Acct → Tstat → Acct × Tstat
  read_acct s t =
      if s.acctversion == 2 || s.acctversion == 3
      then read_next (get_elem? (acct_file s) s.offset) s t
      else (s, t)

  -- The next shadow file at the end of the current one.
  unfoldable pub at_end : ℕ → Acct → Acct
  at_end size s =
      if not (s.maxshadowrec == 0) && leb size s.acctsize
      then record (switchshadow files s) { acctsize = 0 }
      else s

  unfoldable pub next_size : ℕ → Acct → ℕ
  next_size size s =
      if not (s.maxshadowrec == 0) && leb size s.acctsize
      then open_size (switchshadow files s)
      else size

  unfoldable pub acct_round : ℕ → Acct → Tstat → AcctRound
  acct_round size s t =
      let r = read_acct (at_end size s) t in
      record {
        acct = record r.0 { acctsize = r.0.acctsize + r.0.acctrecsz };
        size = next_size size s;
        task = r.1;
      }

  -- The entries of accproc in turn.
  unfoldable pub acct_rounds : ℕ → Acct → List Tstat → Acct × List Tstat
  acct_rounds size s [] = (s, [])
  acct_rounds size s (t ∷ ts) =
      let r = acct_round size s t in
      let rest = acct_rounds r.size r.acct ts in (rest.0, r.task ∷ rest.1)

-- acctmaxfilesz is ACCTMAXFILESZ, 200 MiB.
abbrev pub acctmaxfilesz : ℕ
acctmaxfilesz = 200 * 1024 * 1024

module _ (files : ℕ → Option (List Acctrec)) where
  -- A private file of which all has been read, and that no other atop reads, is truncated: `users` is
  -- the value of the semaphore, `truncated` whether truncate is successful.
  unfoldable pub acctrestarttrial : ℕ → Bool → Acct → Acct
  acctrestarttrial users truncated s =
      if s.acctatop && s.acctsize == open_size files s && leb 99 users
      then record s { offset = (if truncated then 0 else s.offset); acctsize = 0 }
      else s

  unfoldable pub too_large : ℕ → Bool → Acct → Acct
  too_large users truncated s =
      if ltb acctmaxfilesz s.acctsize && s.maxshadowrec == 0
      then acctrestarttrial users truncated s
      else s

  -- The number of exited processes, the entries and the state; nrprocs is the length of accproc.
  unfoldable pub photo_of : Option ℕ → ℕ → Bool → List Tstat → Acct → ℕ × List Tstat × Acct
  photo_of none users truncated accproc s = (0, accproc, s)
  photo_of (some fd) users truncated accproc s =
      let r = acct_rounds files (open_size files s) s accproc in
      (length accproc, r.1, too_large users truncated r.0)

  unfoldable pub acctphotoproc : ℕ → Bool → List Tstat → Acct → ℕ × List Tstat × Acct
  acctphotoproc users truncated accproc s = photo_of s.acctfd users truncated accproc s
