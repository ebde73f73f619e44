-- ===== src/Atop/Parseable/Task.antt =====
-- The lines of Qt/FakeAtop/parseable.c on tasks.
use practice.Base.{ℕ, zero, suc, Bool, true, false, List, [], ◌∷◌, ◌++◌}
use practice.Base.Int.{ℤ, pos, negsuc}
use practice.Base.Text.{Bytes, codes}
use practice.Base.Decimal.{decimal}
use practice.Atop.Tstat.{Tstat}
use practice.Atop.Parseable.{lld, int_text, id_text, columns, numbers, each_text}

abbrev pub in_parentheses : Bytes → Bytes
in_parentheses s = b'(' ∷ s ++ b')' ∷ []

abbrev pub yes_no : Bool → Bytes
yes_no true = b'y' ∷ []
yes_no false = b'n' ∷ []

-- The pid, the name and the state, which all lines of tasks begin with.
unfoldable pub task_columns : Tstat → List Bytes → List Bytes
task_columns t fs = id_text t.gen.pid ∷ in_parentheses t.gen.name ∷ (t.gen.state ∷ []) ∷ fs

unfoldable pub container_text : Bytes → Bytes
container_text [] = b'-' ∷ []
container_text (c ∷ s) = c ∷ s

unfoldable pub prg_line : Bytes → Tstat → Bytes
prg_line hp t =
    hp
    ++ columns (
        task_columns t (
          id_text t.gen.ruid
          ∷ id_text t.gen.rgid
          ∷ id_text t.gen.tgid
          ∷ id_text t.gen.nthr
          ∷ id_text t.gen.excode
          ∷ lld t.gen.btime
          ∷ in_parentheses t.gen.cmdline
          ∷ id_text t.gen.ppid
          ∷ id_text t.gen.nthrrun
          ∷ id_text t.gen.nthrslpi
          ∷ id_text t.gen.nthrslpu
          ∷ id_text t.gen.euid
          ∷ id_text t.gen.egid
          ∷ id_text t.gen.suid
          ∷ id_text t.gen.sgid
          ∷ id_text t.gen.fsuid
          ∷ id_text t.gen.fsgid
          ∷ lld t.gen.elaps
          ∷ yes_no t.gen.isproc
          ∷ id_text t.gen.vpid
          ∷ id_text t.gen.ctid
          ∷ container_text t.gen.container
          ∷ []))

unfoldable pub prc_line : Bytes → ℕ → Tstat → Bytes
prc_line hp hertz t =
    hp
    ++ columns (
        task_columns t (
          decimal hertz
          ∷ lld t.cpu.utime
          ∷ lld t.cpu.stime
          ∷ int_text t.cpu.nice
          ∷ int_text t.cpu.prio
          ∷ int_text t.cpu.rtprio
          ∷ int_text t.cpu.policy
          ∷ int_text t.cpu.curcpu
          ∷ int_text t.cpu.sleepavg
          ∷ id_text t.gen.tgid
          ∷ yes_no t.gen.isproc
          ∷ []))

-- A proportional size that is not known is printed as 0.
unfoldable pub pmem_text : ℤ → Bytes
pmem_text (pos n) = decimal n
pmem_text (negsuc zero) = decimal 0
pmem_text (negsuc (suc n)) = int_text (negsuc (suc n))

unfoldable pub prm_line : Bytes → ℕ → Tstat → Bytes
prm_line hp pagesize t =
    hp
    ++ columns (
        task_columns t (
          decimal pagesize
          ∷ lld t.mem.vmem
          ∷ lld t.mem.rmem
          ∷ lld t.mem.vexec
          ∷ int_text t.mem.vgrow
          ∷ int_text t.mem.rgrow
          ∷ lld t.mem.minflt
          ∷ lld t.mem.majflt
          ∷ lld t.mem.vlibs
          ∷ lld t.mem.vdata
          ∷ lld t.mem.vstack
          ∷ lld t.mem.vswap
          ∷ id_text t.gen.tgid
          ∷ yes_no t.gen.isproc
          ∷ pmem_text t.mem.pmem
          ∷ []))

unfoldable pub prd_line : Bytes → Bool → Tstat → Bytes
prd_line hp iostat t =
    hp
    ++ columns (
        task_columns t (
          codes "n"
          ∷ yes_no iostat
          ∷ numbers (t.dsk.rio ∷ t.dsk.rsz ∷ t.dsk.wio ∷ t.dsk.wsz ∷ t.dsk.cwsz ∷ [])
              (id_text t.gen.tgid ∷ codes "n" ∷ yes_no t.gen.isproc ∷ [])))

unfoldable pub prn_line : Bytes → Bool → Tstat → Bytes
prn_line hp netatop t =
    hp
    ++ columns (
        task_columns t (
          yes_no netatop
          ∷ numbers
              (t.net.tcpsnd ∷ t.net.tcpssz ∷ t.net.tcprcv ∷ t.net.tcprsz ∷ t.net.udpsnd
                ∷ t.net.udpssz ∷ t.net.udprcv ∷ t.net.udprsz ∷ [])
              (codes "0" ∷ codes "0" ∷ id_text t.gen.tgid ∷ yes_no t.gen.isproc ∷ [])))

-- One line for each of the first nact tasks.
unfoldable pub print_tasks : ℕ → (Tstat → Bytes) → List Tstat → Bytes
print_tasks nact line ps = each_text nact line ps
