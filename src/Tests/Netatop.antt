-- ===== src/Tests/Netatop.antt =====
-- The exited tasks and the daemon of Qt/FakeAtop/netatopif.c at concrete inputs.
use practice.Base.{ℕ, true, false, some, ◌≡◌, arith, List, [], ◌∷◌, length}
use practice.Base.Text.{Bytes}
use practice.Base.Decimal.{first}
use practice.Atop.Tstat.{zero_tstat}
use practice.Atop.Netatop.{Netatop, Answer, Taskcount}
use practice.Atop.Netatop.Records.{Npt, read_exits}
use practice.Atop.Netatop.Records.Encoded.{encoded, uncompressed, read_exits-encoded}
use practice.Atop.Netatop.Daemon.{System}
use practice.Atop.Netatop.Daemon.Mapped.{Event, IsMapped, run, IsMapped-run}
use practice.Atop.Netatop.Exits.{by_pid, netatop_exithash, netatop_exitfind, no_buckets}
use practice.Atop.Netatop.Exits.First.{first_exit, with_exit, netatop_exitfind-first}

abbrev counts_of : ℕ → Taskcount
counts_of n = record {
  tcpsndpacks = n;
  tcpsndbytes = n;
  tcprcvpacks = n;
  tcprcvbytes = n;
  udpsndpacks = n;
  udpsndbytes = n;
  udprcvpacks = n;
  udprcvbytes = n;
}

-- A record is a pid and the length of the record.
abbrev plain : Bytes → Npt
plain s = record { id = first s; btime = 0; command = []; tc = counts_of (length s) }

abbrev exits_read : List Bytes
exits_read = (7 ∷ 1 ∷ []) ∷ (9 ∷ []) ∷ (7 ∷ 2 ∷ 3 ∷ []) ∷ []

read_exits-encoded_example :
    read_exits plain 80 3 (encoded exits_read (5 ∷ []))
    ≡ some (record { exitall = uncompressed plain 80 exits_read; file = 5 ∷ [] })
read_exits-encoded_example =
    read_exits-encoded plain 80 (7 ∷ 1 ∷ []) ((9 ∷ []) ∷ (7 ∷ 2 ∷ 3 ∷ []) ∷ []) (5 ∷ [])
      ((omega arith, omega arith), ((omega arith, omega arith), ((omega arith, omega arith), tt)))

netatop_exitfind-first_example :
    netatop_exitfind 7 zero_tstat zero_tstat (
      netatop_exithash by_pid (record {
        exitall = uncompressed plain 80 exits_read;
        exithash = by_pid;
        esbucket = no_buckets;
      }))
    ≡ record {
      all = uncompressed plain 80 exits_read;
      dev = with_exit (first_exit 7 (uncompressed plain 80 exits_read)) zero_tstat zero_tstat;
    }
netatop_exitfind-first_example =
    netatop_exitfind-first (uncompressed plain 80 exits_read) 7 zero_tstat zero_tstat

abbrev fresh : Netatop
fresh = record {
  netsock = true;
  semid = false;
  netexitfd = false;
  nahp = false;
  lastseq = 0;
  netatop = false;
  netatopd = false;
}

abbrev all_active : System
all_active = record {
  active = true;
  semget = true;
  semop = true;
  getval = 1;
  linked = true;
  opened = true;
  mapped = true;
  curseq = 12;
}

abbrev events : List Event
events =
    Event.probe all_active
    ∷ Event.gettask (λ id group. Answer.unsupported) 7 true zero_tstat
    ∷ Event.probe all_active
    ∷ []

IsMapped-run_example : IsMapped (run events fresh)
IsMapped-run_example =
    IsMapped-run events fresh
      (record { file_mapped = λ h. h; daemon_open = λ h. h; daemon_module = λ h. h })
