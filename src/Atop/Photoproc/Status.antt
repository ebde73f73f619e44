-- ===== src/Atop/Photoproc/Status.antt =====
-- procstatus of Qt/FakeAtop/photoproc.c: the identities and the sizes of a task from its file status.
use practice.Base.{ℕ, true, false, Option, none, some, List, [], ◌∷◌, if◌then◌else◌, drop}
use practice.Base.Int.{pos}
use practice.Base.Text.{Bytes, codes}
use practice.Atop.Tstat.{Tstat, Gen}
use practice.Atop.Photosyst.Scan.{skip_space, read_lld}
use practice.Atop.Photosyst.Lines.{has_prefix}
use practice.Atop.Photoproc.Numbers.{as_id, id_or, int_or, lld_or}
use practice.Atop.Photoproc.Stat.{Filled}

-- Four numbers by %d, up to the first that fails.
unfoldable pub four_ids : Bytes → ℕ → ℕ → ℕ → ℕ → ℕ × ℕ × ℕ × ℕ
four_ids s a b c d = elim (read_lld (skip_space s)) [
  | none ↦ (a, b, c, d)
  | some r ↦ elim (read_lld (skip_space r.rest)) [
    | none ↦ (as_id r.value, b, c, d)
    | some r2 ↦ elim (read_lld (skip_space r2.rest)) [
      | none ↦ (as_id r.value, as_id r2.value, c, d)
      | some r3 ↦ (as_id r.value, as_id r2.value, as_id r3.value, id_or r3.rest d)
    ]
  ]
]

unfoldable pub uid_line : Bytes → Gen → Gen
uid_line s g =
    let ids = four_ids s g.ruid g.euid g.suid g.fsuid in
    record g { ruid = ids.0; euid = ids.1; suid = ids.2; fsuid = ids.3 }

unfoldable pub gid_line : Bytes → Gen → Gen
gid_line s g =
    let ids = four_ids s g.rgid g.egid g.sgid g.fsgid in
    record g { rgid = ids.0; egid = ids.1; sgid = ids.2; fsgid = ids.3 }

-- What one line changes. The line SigQ, which ends the loop, is not among them.
unfoldable pub status_line : Bytes → Tstat → Tstat
status_line line t =
    if has_prefix (codes "Tgid:") line
    then record t { gen = record t.gen { tgid = id_or (drop 5 line) t.gen.tgid } }
    else if has_prefix (codes "Pid:") line
    then record t { gen = record t.gen { pid = id_or (drop 4 line) t.gen.pid } }
    else if has_prefix (codes "SleepAVG:") line
    then record t { cpu = record t.cpu { sleepavg = int_or (drop 9 line) t.cpu.sleepavg } }
    else if has_prefix (codes "Uid:") line
    then record t { gen = uid_line (drop 4 line) t.gen }
    else if has_prefix (codes "Gid:") line
    then record t { gen = gid_line (drop 4 line) t.gen }
    else if has_prefix (codes "envID:") line
    then record t { gen = record t.gen { ctid = id_or (drop 6 line) t.gen.ctid } }
    else if has_prefix (codes "VPid:") line
    then record t { gen = record t.gen { vpid = id_or (drop 5 line) t.gen.vpid } }
    else if has_prefix (codes "Threads:") line
    then record t { gen = record t.gen { nthr = id_or (drop 8 line) t.gen.nthr } }
    else if has_prefix (codes "VmData:") line
    then record t { mem = record t.mem { vdata = lld_or (drop 7 line) t.mem.vdata } }
    else if has_prefix (codes "VmStk:") line
    then record t { mem = record t.mem { vstack = lld_or (drop 6 line) t.mem.vstack } }
    else if has_prefix (codes "VmExe:") line
    then record t { mem = record t.mem { vexec = lld_or (drop 6 line) t.mem.vexec } }
    else if has_prefix (codes "VmLib:") line
    then record t { mem = record t.mem { vlibs = lld_or (drop 6 line) t.mem.vlibs } }
    else if has_prefix (codes "VmSwap:") line
    then record t { mem = record t.mem { vswap = lld_or (drop 7 line) t.mem.vswap } }
    else t

unfoldable pub status_lines : List Bytes → Tstat → Tstat
status_lines [] t = t
status_lines (line ∷ lines) t =
    let rest = status_lines lines (status_line line t) in
    if has_prefix (codes "SigQ:") line then t else rest

unfoldable pub start_status : Tstat → Tstat
start_status t = record t {
  gen = record t.gen { nthr = 1 };
  cpu = record t.cpu { sleepavg = pos 0 };
  mem = record t.mem { vgrow = pos 0; rgrow = pos 0 };
}

unfoldable pub procstatus : Option (List Bytes) → Tstat → Filled
procstatus none t = record { ok = false; task = t }
procstatus (some lines) t = record { ok = true; task = status_lines lines (start_status t) }
