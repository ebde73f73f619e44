-- ===== src/Atop/Netatop/Records.antt =====
-- netatop_exitstore of Qt/FakeAtop/netatopif.c: the counters of the exited tasks, which the daemon writes
-- to a file as compressed records, each behind a byte with its size.
pub mod Encoded
use practice.Base.{
  ℕ, zero, suc, ◌+◌, ◌-◌, ◌%◌, ◌^◌, Bool, true, false, Option, none, some, List, [], ◌∷◌, ◌++◌, ltb,
  ◌==◌, if◌then◌else◌, length, get_or, take, drop, min, ◌>>=◌,
}
use practice.Base.Text.{Bytes}
use practice.Atop.Netatop.{Netatop, Taskcount, give_up}

-- struct netpertask, with the command up to its terminating zero.
pub record Npt : Type 0 where
  pub id : ℕ
  pub btime : ℕ
  pub command : Bytes
  pub tc : Taskcount

-- struct exitstore, without the link of its bucket.
pub record Exitstore : Type 0 where
  pub isused : Bool
  pub npt : Npt

-- What was stored, which is counted by nr, and the file behind the place of the next read.
pub record Stored : Type 0 where
  pub exitall : List Exitstore
  pub file : Bytes

-- A record in front of those behind it; none is a write behind the end of readbuf.
unfoldable pub store_exit : Exitstore → Option Stored → Option Stored
store_exit esp none = none
store_exit esp (some s) = some (record s { exitall = esp ∷ s.exitall })

-- ntplen is the size of the struct that the module uncompresses to.
module _ (uncompress : Bytes → Npt) (ntplen : ℕ) where
  abbrev pub entry : Bytes → Exitstore
  entry s = record { isused = false; npt = uncompress s }

  -- The loop: one more byte than the record has is asked for, the size of the next, an unsigned
  -- char. `nr` records are stored already. Fuel: every round but the last takes a byte at least.
  unfoldable pub read_records : ℕ → ℕ → ℕ → ℕ → Bytes → Option Stored
  unfolding store_exit
  read_records zero nexitnet nr nextsize file = some (record { exitall = []; file = file })
  read_records (suc f) nexitnet nr nextsize file =
      let more =
        read_records f nexitnet (suc nr) (get_or file nextsize 0 % 256)
          (drop (suc nextsize) file) in
      let esp = entry (take nextsize file) in
      if ltb (ntplen + 100) (min (suc nextsize) (length file))
      then none
      else if ltb (length file) nextsize
      then some (record { exitall = []; file = [] })
      else if suc nr == nexitnet
      then some (record { exitall = esp ∷ []; file = drop nextsize file })
      else if ltb nextsize (length file)
      then store_exit esp more
      else some (record { exitall = esp ∷ []; file = [] })

  -- The first byte; without one nothing is stored.
  unfoldable pub read_exits : ℕ → Bytes → Option Stored
  read_exits nexitnet [] = some (record { exitall = []; file = [] })
  read_exits nexitnet (size ∷ file) = read_records (suc (length file)) nexitnet 0 (size % 256) file

-- Whether getsockopt was successful, or failed with ENOPROTOOPT or EPERM, or otherwise.
pub data Reply : Type 0 where
  done : Reply
  unsupported : Reply
  failed : Reply

-- The state and the stored tasks behind a call; their number is the result.
pub record Fetched : Type 0 where
  pub state : Netatop
  pub stored : Stored

module _ (uncompress : Bytes → Npt) (ntplen : ℕ) where
  -- The numbers are in 32 bits.
  unfoldable pub new_exits : ℕ → Netatop → Bytes → Option Fetched
  new_exits curseq s file = do
    stored ← read_exits uncompress ntplen ((curseq + 2 ^ 32 - s.lastseq % 2 ^ 32) % 2 ^ 32) file
    some (record { state = record s { lastseq = curseq }; stored = stored })

  abbrev no_exits : Netatop → Bytes → Option Fetched
  no_exits s file = some (record { state = s; stored = record { exitall = []; file = file } })

  -- The replies are those to NETATOP_FORCE_GC and to NETATOP_EMPTY_EXIT.
  unfoldable pub netatop_exitstore : Reply → Reply → ℕ → Netatop → Bytes → Option Fetched
  netatop_exitstore done done curseq s file = new_exits curseq s file
  netatop_exitstore done unsupported curseq s file = no_exits (give_up s) file
  netatop_exitstore done failed curseq s file = no_exits s file
  netatop_exitstore unsupported r curseq s file = no_exits (give_up s) file
  netatop_exitstore failed r curseq s file = no_exits s file
