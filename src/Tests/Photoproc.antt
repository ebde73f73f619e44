-- ===== src/Tests/Photoproc.antt =====
-- The walk through /proc of Qt/FakeAtop/photoproc.c at concrete files.
use practice.Base.{
  ℕ, Bool, true, false, ◌≡◌, refl, Option, none, some, List, [], ◌∷◌, ◌++◌, length, replicate, take,
  arith,
}
use practice.Base.Text.{Bytes, codes, isdigit}
use practice.Atop.Tstat.{Tstat, zero_tstat}
use practice.Atop.Netatop.{Netatop, Answer}
use practice.Atop.Photosyst.Scan.Text.{counts_text}
use practice.Atop.Photoproc.Stat.{procstat}
use practice.Atop.Photoproc.Stat.Text.{stat_text, IsRead, procstat-stat_text}
use practice.Atop.Photoproc.Cmd.{proccmd}
use practice.Atop.Photoproc.Cmd.Laws.{cmd_file, joined, proccmd-joined}
use practice.Atop.Photoproc.Walk.{Files, ProcEntry, Setting, photoproc}
use practice.Atop.Photoproc.Walk.Within.{IsWithin}
use practice.Atop.Photoproc.Walk.Bounds.{photoproc-IsWithin}
use practice.Atop.Photoproc.Walk.Layout.{IsLayout, photoproc-IsLayout}

abbrev columns : List ℕ
columns = 1 ∷ replicate 9 2 ++ 700 ∷ 30 ∷ 0 ∷ 0 ∷ 20 ∷ 0 ∷ 2 ∷ 0 ∷ 5000 ∷ 4096 ∷ 3 ∷ replicate 17 0

abbrev odd_name : Bytes
odd_name = codes "a b) (c"

procstat-stat_text_example :
    IsRead 100 4096 1000 42 odd_name b'R' columns
      (procstat 100 4096 1000 true (some (stat_text 42 odd_name b'R' columns [])) zero_tstat)
unfolding practice.Base.Decimal.decimal
procstat-stat_text_example =
    procstat-stat_text 100 4096 1000 true 42 odd_name b'R' columns [] zero_tstat (omega arith) refl
      tt (unfold isdigit in refl) (omega arith) (ground arith)
      (unfold stat_text counts_text in omega arith)

proccmd-joined_example :
    (proccmd (some (cmd_file (codes "ls" ∷ codes "-l" ∷ []))) zero_tstat).gen.cmdline
    ≡ joined (codes "ls" ∷ codes "-l" ∷ [])
proccmd-joined_example =
    proccmd-joined (codes "ls" ∷ codes "-l" ∷ []) zero_tstat (unfold cmd_file in omega arith)

abbrev files_of : ℕ → ℕ → Bytes → Files
files_of id st nthr = record {
  stat = some (stat_text id odd_name st columns []);
  status =
      some (codes "Tgid: 7" ∷ (codes "Threads: " ++ nthr) ∷ codes "SigQ: 1" ∷ codes "Pid: 3" ∷ []);
  io = none;
  cmdline = some (codes "ls");
  cpuset = some (codes "/docker/0123456789abcdef");
  smaps = none;
}

abbrev proc_dir : List ProcEntry
proc_dir =
    record {
      d_name = codes "self";
      entered = true;
      files = files_of 9 b'R' (codes "1");
      task = none;
    }
    ∷ record {
      d_name = codes "7";
      entered = true;
      files = files_of 7 b'S' (codes "2");
      task = some (
          record { d_name = codes "."; entered = true; files = files_of 7 b'S' (codes "2") }
          ∷ record { d_name = codes "7"; entered = true; files = files_of 7 b'S' (codes "2") }
          ∷ record { d_name = codes "8"; entered = true; files = files_of 8 b'R' (codes "2") }
          ∷ []);
    }
    ∷ record {
      d_name = codes "9";
      entered = true;
      files = files_of 9 b'D' (codes "1");
      task = none;
    }
    ∷ []

abbrev setting : Setting
setting = record {
  hertz = 100;
  pagesize = 4096;
  bootepoch = 1000;
  iostat = true;
  calcpss = true;
  pssval = 0;
  ask = λ id group. Answer.failed;
}

abbrev inactive : Netatop
inactive = record {
  netsock = false;
  semid = false;
  netexitfd = false;
  nahp = false;
  lastseq = 0;
  netatop = false;
  netatopd = false;
}

abbrev cleared : List Tstat
cleared = replicate 4 zero_tstat

photoproc-IsWithin_example :
    IsWithin 4 0
      (record { tasklist = cleared; tval = 0; dockstat = 0; netatop = inactive })
      (photoproc setting proc_dir cleared 4 inactive)
photoproc-IsWithin_example = photoproc-IsWithin setting proc_dir cleared 4 inactive

photoproc-IsLayout_example :
    IsLayout
      (photoproc setting proc_dir cleared 4 inactive).tasklist
      (photoproc setting proc_dir cleared 4 inactive).tval
photoproc-IsLayout_example = photoproc-IsLayout setting proc_dir cleared 4 inactive (omega arith)
