-- ===== src/Atop/Netatop/Exits.antt =====
-- The hash of the exited tasks in Qt/FakeAtop/netatopif.c: netatop_exithash, netatop_exitfind and
-- netatop_exiterase. The stored tasks are numbered; a bucket lists numbers, the task added last first.
pub mod First
use practice.Base.{
  ℕ, zero, suc, ◌+◌, ◌-◌, ◌%◌, ◌^◌, Bool, true, false, ◌&&◌, not, List, [], ◌∷◌, ltb, leb, ◌==◌,
  if◌then◌else◌, length, get_or, set,
}
use practice.Base.Text.{Bytes, same_text}
use practice.Atop.Tstat.{Tstat, Net}
use practice.Atop.Netatop.{Taskcount}
use practice.Atop.Netatop.Records.{Npt, Exitstore}

-- exithash holds 'p', by pid, or 'b', by begintime.
pub data Hashtype : Type 0 where
  by_pid : Hashtype
  by_btime : Hashtype

pub record Exits : Type 0 where
  pub exitall : List Exitstore
  pub exithash : Hashtype
  pub esbucket : ℕ → List ℕ

abbrev pub nhash : ℕ
nhash = 1024

abbrev pub hashcalc : ℕ → ℕ
hashcalc x = x % nhash

unfoldable pub hash_key : Hashtype → Exitstore → ℕ
hash_key by_pid esp = esp.npt.id
hash_key by_btime esp = esp.npt.btime

-- A task at the front of its bucket.
unfoldable pub push_bucket : ℕ → ℕ → (ℕ → List ℕ) → ℕ → List ℕ
push_bucket h i b k = if k == h then i ∷ b k else b k

-- The loop over the stored tasks, from the number i on.
unfoldable pub hash_from : Hashtype → ℕ → List Exitstore → (ℕ → List ℕ) → ℕ → List ℕ
hash_from t i [] b = b
hash_from t i (esp ∷ esps) b =
    hash_from t (suc i) esps (push_bucket (hashcalc (hash_key t esp)) i b)

unfoldable pub netatop_exithash : Hashtype → Exits → Exits
netatop_exithash t s = record s { exithash = t; esbucket = hash_from t 0 s.exitall s.esbucket }

abbrev pub no_buckets : ℕ → List ℕ
no_buckets h = []

unfoldable pub netatop_exiterase : Exits → Exits
netatop_exiterase s = record s { exitall = []; esbucket = no_buckets }

-- The difference of unsigned long longs.
abbrev pub sub_count : ℕ → ℕ → ℕ
sub_count a b = (a + 2 ^ 64 - b % 2 ^ 64) % 2 ^ 64

unfoldable pub fill_networkcnt : Tstat → Tstat → Exitstore → Tstat
fill_networkcnt dev pre esp =
    let tc = esp.npt.tc in
    record dev {
      net = record {
        tcpsnd = sub_count tc.tcpsndpacks pre.net.tcpsnd;
        tcpssz = sub_count tc.tcpsndbytes pre.net.tcpssz;
        tcprcv = sub_count tc.tcprcvpacks pre.net.tcprcv;
        tcprsz = sub_count tc.tcprcvbytes pre.net.tcprsz;
        udpsnd = sub_count tc.udpsndpacks pre.net.udpsnd;
        udpssz = sub_count tc.udpsndbytes pre.net.udpssz;
        udprcv = sub_count tc.udprcvpacks pre.net.udprcv;
        udprsz = sub_count tc.udprcvbytes pre.net.udprsz;
      };
    }

-- No counter of the exited task is smaller than before.
unfoldable pub not_behind : Taskcount → Net → Bool
not_behind tc n =
    leb n.tcpsnd tc.tcpsndpacks
    && leb n.tcpssz tc.tcpsndbytes
    && leb n.tcprcv tc.tcprcvpacks
    && leb n.tcprsz tc.tcprcvbytes
    && leb n.udpsnd tc.udpsndpacks
    && leb n.udpssz tc.udpsndbytes
    && leb n.udprcv tc.udprcvpacks
    && leb n.udprsz tc.udprcvbytes

-- Whether a task of the bucket is taken.
unfoldable pub is_exit : Hashtype → ℕ → Tstat → Exitstore → Bool
is_exit by_pid key pre esp = key == esp.npt.id
is_exit by_btime key pre esp =
    not esp.isused
    && key == esp.npt.btime
    && same_text esp.npt.command pre.gen.name
    && not_behind esp.npt.tc pre.net

unfoldable pub mark_used : Hashtype → Exitstore → Exitstore
mark_used by_pid esp = esp
mark_used by_btime esp = record esp { isused = true }

-- The stored tasks and the deviation behind a search.
pub record Found : Type 0 where
  pub all : List Exitstore
  pub dev : Tstat

abbrev pub no_exit : Exitstore
no_exit = record {
  isused = false;
  npt = record {
    id = 0;
    btime = 0;
    command = [];
    tc = record {
      tcpsndpacks = 0;
      tcpsndbytes = 0;
      tcprcvpacks = 0;
      tcprcvbytes = 0;
      udpsndpacks = 0;
      udpsndbytes = 0;
      udprcvpacks = 0;
      udprcvbytes = 0;
    };
  };
}

unfoldable pub find_step : Hashtype → ℕ → Tstat → ℕ → Found → Found
find_step t key pre i s =
    let esp = get_or s.all i no_exit in
    if is_exit t key pre esp
    then record { all = set s.all i (mark_used t esp); dev = fill_networkcnt s.dev pre esp }
    else s

-- The search goes on behind a task that was found: the break of the code leaves its switch only.
unfoldable pub find_from : Hashtype → ℕ → Tstat → List ℕ → Found → Found
find_from t key pre [] s = s
find_from t key pre (i ∷ bucket) s = find_from t key pre bucket (find_step t key pre i s)

unfoldable pub netatop_exitfind : ℕ → Tstat → Tstat → Exits → Found
netatop_exitfind key dev pre s =
    find_from s.exithash key pre (s.esbucket (hashcalc key)) (record { all = s.exitall; dev = dev })
