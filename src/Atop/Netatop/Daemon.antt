-- ===== src/Atop/Netatop/Daemon.antt =====
-- netatop_probe of Qt/FakeAtop/netatopif.c: whether the module and its daemon are active.
pub mod Mapped
use practice.Base.{ℕ, Bool, true, false, ◌==◌, if◌then◌else◌}
use practice.Atop.Netatop.{Netatop}

-- Whether the raw socket can be opened.
unfoldable pub netatop_ipopen : Bool → Netatop → Netatop
netatop_ipopen opened s = record s { netsock = opened }

-- What the calls of the system answer during one probe: getsockopt with NETATOP_PROBE, semget, semop,
-- semctl, fstat with a link that is left, open, mmap, and the sequence number of the mapped record.
pub record System : Type 0 where
  pub active : Bool
  pub semget : Bool
  pub semop : Bool
  pub getval : ℕ
  pub linked : Bool
  pub opened : Bool
  pub mapped : Bool
  pub curseq : ℕ

unfoldable pub no_daemon : Netatop → Netatop
no_daemon s = record s { netatopd = false }

-- The first record of the file that is open, and the flag.
unfoldable pub map_record : System → Netatop → Netatop
map_record y s =
    if y.mapped
    then record s { nahp = true; lastseq = y.curseq; netatopd = true }
    else record s { netexitfd = false; nahp = false; netatopd = false }

unfoldable pub open_file : System → Netatop → Netatop
open_file y s = if y.opened then map_record y (record s { netexitfd = true }) else no_daemon s

-- A file that is open still and not removed is kept.
unfoldable pub exit_file : System → Netatop → Netatop
exit_file y s =
    if s.netexitfd
    then (if y.linked
        then record s { netatopd = true }
        else open_file y (record s { netexitfd = false; nahp = false }))
    else open_file y s

unfoldable pub daemon_value : System → Netatop → Netatop
daemon_value y s = if y.getval == 1 then exit_file y s else no_daemon s

-- The semaphore is decremented when it is asked for first; it stays known where that fails.
unfoldable pub daemon : System → Netatop → Netatop
daemon y s =
    if s.semid
    then daemon_value y s
    else if y.semget
    then (if y.semop
        then daemon_value y (record s { semid = true })
        else no_daemon (record s { semid = true }))
    else no_daemon s

unfoldable pub netatop_probe : System → Netatop → Netatop
netatop_probe y s =
    if s.netsock
    then (if y.active
        then daemon y (record s { netatop = true })
        else record s { netatop = false; netatopd = false })
    else s
