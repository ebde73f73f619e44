-- ===== src/Atop/Acct.antt =====
-- Qt/FakeAtop/acctproc.c: the records of exited processes, in one accounting file or in the numbered
-- shadow files of atopacctd. A file is the list of its records, which are written whole; `files` is
-- what can be opened and locked, `current` the number that the file "current" holds.
pub mod Read
pub mod Stream
use practice.Base.{
  ℕ, zero, suc, ◌+◌, ◌-◌, ◌*◌, ◌/◌, ◌%◌, ◌^◌, Bool, true, false, ◌&&◌, not, Option, none, some,
  List, [], ◌∷◌, ltb, leb, ◌==◌, if◌then◌else◌, length,
}
use practice.Base.Text.{Bytes}

-- The members of struct acct and struct acct_v3 that are read; ac_etime is the whole part of the float.
pub record Acctrec : Type 0 where
  pub ac_exitcode : ℕ
  pub ac_uid16 : ℕ
  pub ac_gid16 : ℕ
  pub ac_uid : ℕ
  pub ac_gid : ℕ
  pub ac_pid : ℕ
  pub ac_ppid : ℕ
  pub ac_btime : ℕ
  pub ac_etime : ℕ
  pub ac_utime : ℕ
  pub ac_stime : ℕ
  pub ac_rw : ℕ
  pub ac_minflt : ℕ
  pub ac_majflt : ℕ
  pub ac_comm : Bytes

-- The variables of the file; acctfd is the number of the file that is open, with the place of the next
-- read in records.
pub record Acct : Type 0 where
  pub acctatop : Bool
  pub acctfd : Option ℕ
  pub offset : ℕ
  pub acctsize : ℕ
  pub acctrecsz : ℕ
  pub acctversion : ℕ
  pub curshadowseq : ℕ
  pub maxshadowrec : ℕ

-- The number of whole records between two sizes, in an unsigned long.
abbrev pub records_between : ℕ → ℕ → ℕ → ℕ
records_between st acctsize recsz =
    if leb acctsize st then (st - acctsize) / recsz else (2 ^ 64 - (acctsize - st) / recsz) % 2 ^ 64

module _ (files : ℕ → Option (List Acctrec)) where
  unfoldable pub records : ℕ → List Acctrec
  records fd = elim (files fd) [ none ↦ [] | some r ↦ r ]

  unfoldable pub st_size : ℕ → ℕ → ℕ
  st_size fd recsz = length (records fd) * recsz

  -- stat leaves the size as it was where the file cannot be found.
  unfoldable pub stat_size : ℕ → ℕ → ℕ → ℕ
  stat_size seq recsz old = elim (files seq) [ none ↦ old | some r ↦ length r * recsz ]

  -- The records of the current shadow file, and of the ones behind it where it is full.
  unfoldable pub shadow_count : Option ℕ → ℕ → ℕ → ℕ → Acct → ℕ
  shadow_count none numrecs size fd s = numrecs
  shadow_count (some newseq) numrecs size fd s =
      if newseq == s.curshadowseq
      then numrecs
      else (numrecs
          + (newseq + 2 ^ 64 - s.curshadowseq - 1) % 2 ^ 64 * s.maxshadowrec
          + stat_size newseq s.acctrecsz size / s.acctrecsz)
        % 2 ^ 64

  unfoldable pub shadow_records : Option ℕ → ℕ → Acct → ℕ
  shadow_records current fd s =
      let size = st_size fd s.acctrecsz in
      let numrecs = records_between size s.acctsize s.acctrecsz in
      if ltb (size / s.acctrecsz) s.maxshadowrec
      then numrecs
      else shadow_count current numrecs size fd s

  -- The result and the state behind a call; a file that is shorter than before is read from its start.
  unfoldable pub file_records : ℕ → Acct → ℕ × Acct
  file_records fd s =
      let size = st_size fd s.acctrecsz in
      if ltb size s.acctsize
      then (size / s.acctrecsz, record s { offset = 0; acctsize = 0 })
      else ((size - s.acctsize) / s.acctrecsz, s)

  unfoldable pub open_records : Option ℕ → ℕ → Acct → ℕ × Acct
  open_records current fd s =
      if s.maxshadowrec == 0 then file_records fd s else (shadow_records current fd s, s)

  unfoldable pub acctprocnt : Option ℕ → Acct → ℕ × Acct
  acctprocnt current s = elim s.acctfd [ none ↦ (0, s) | some fd ↦ open_records current fd s ]

  -- The next shadow file; the one that is open is kept where it cannot be opened or locked.
  unfoldable pub switchshadow : Acct → Acct
  switchshadow s = elim (files (suc s.curshadowseq)) [
    | none ↦ record s { curshadowseq = suc s.curshadowseq }
    | some r ↦ record s {
      curshadowseq = suc s.curshadowseq;
      acctfd = some (suc s.curshadowseq);
      offset = 0;
    }
  ]

  unfoldable pub switch_times : ℕ → Acct → Acct
  switch_times zero s = s
  switch_times (suc n) s = switch_times n (switchshadow s)

  -- noverflow * acctrecsz is an unsigned int; lseek takes a whole number of records.
  unfoldable pub skip_records : ℕ → Acct → Acct
  skip_records noverflow s =
      let bytes = noverflow * s.acctrecsz % 2 ^ 32 in
      let virtoffset = s.acctsize + bytes in
      let maxshadowsz = s.maxshadowrec * s.acctrecsz in
      if s.maxshadowrec == 0
      then record s { offset = s.offset + bytes / s.acctrecsz; acctsize = virtoffset }
      else (let t =
            switch_times (virtoffset / maxshadowsz)
              (record s { acctsize = virtoffset % maxshadowsz }) in
          record t { offset = t.acctsize / t.acctrecsz })

  unfoldable pub acctrepos : ℕ → Acct → Acct
  acctrepos noverflow s = elim s.acctfd [ none ↦ s | some fd ↦ skip_records noverflow s ]
