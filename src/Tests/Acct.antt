-- ===== src/Tests/Acct.antt =====
-- The shadow files of Qt/FakeAtop/acctproc.c with two records each, at concrete records.
use practice.Base.{
  ℕ, false, if◌then◌else◌, ◌≡◌, refl, Option, none, some, List, [], ◌∷◌, length, ◌+◌, ◌==◌,
  replicate, arith,
}
use practice.Base.Text.{codes}
use practice.Atop.Tstat.{zero_tstat}
use practice.Atop.Acct.{Acctrec, Acct, records, acctprocnt}
use practice.Atop.Acct.Read.{acctphotoproc}
use practice.Atop.Acct.Stream.{IsAt, rest, stream, later}
use practice.Atop.Acct.Stream.Count.{acctprocnt-rest, IsPhoto, acctphotoproc-rest}

abbrev record_of : ℕ → Acctrec
record_of n = record {
  ac_exitcode = 0;
  ac_uid16 = 0;
  ac_gid16 = 0;
  ac_uid = 1000;
  ac_gid = 1000;
  ac_pid = n;
  ac_ppid = 1;
  ac_btime = 50;
  ac_etime = 3;
  ac_utime = 8200;
  ac_stime = 7;
  ac_rw = 0;
  ac_minflt = 12;
  ac_majflt = 0;
  ac_comm = codes "ls";
}

abbrev shadow_files : ℕ → Option (List Acctrec)
shadow_files n =
    if n == 4
    then some (record_of 10 ∷ record_of 11 ∷ [])
    else if n == 5
    then some (record_of 12 ∷ record_of 13 ∷ [])
    else if n == 6
    then some (record_of 14 ∷ [])
    else none

abbrev one_read : Acct
one_read = record {
  acctatop = false;
  acctfd = some 4;
  offset = 1;
  acctsize = 64;
  acctrecsz = 64;
  acctversion = 3;
  curshadowseq = 4;
  maxshadowrec = 2;
}

one_read-IsAt : IsAt shadow_files 2 one_read
unfolding records
one_read-IsAt = record {
  fd_is = refl;
  version_known = refl;
  size_is = refl;
  recsz_pos = omega arith;
  max_pos = omega arith;
  inside = omega arith;
  full = (refl, refl, (refl, refl, tt));
}

acctprocnt-rest_example :
    (acctprocnt shadow_files (some (4 + 2)) one_read).0 ≡ length (rest shadow_files 2 one_read)
acctprocnt-rest_example =
    acctprocnt-rest shadow_files 2 one_read one_read-IsAt (omega arith)
      (unfold stream later records in omega arith)

acctphotoproc-rest_example :
    IsPhoto shadow_files 2
      (replicate 3 zero_tstat)
      one_read
      (acctphotoproc shadow_files 1 false (replicate 3 zero_tstat) one_read)
acctphotoproc-rest_example =
    acctphotoproc-rest shadow_files 2 1 false (replicate 3 zero_tstat) one_read one_read-IsAt
      (unfold stream later records in omega arith)
