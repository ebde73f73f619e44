-- ===== src/Atop/Photosyst/Stat.antt =====
-- /proc/stat in photosyst of Qt/FakeAtop/photosyst.c.
use practice.Base.{ℕ, zero, suc, ◌+◌, ltb, leb, ◌==◌, if◌then◌else◌, List, ◌∷◌, get_or, drop}
use practice.Base.Text.{Bytes, codes, same_text}
use practice.Atop.Sstat.{Percpu, Cpustat, Sstat}
use practice.Atop.System.Cpu.{first_percpu, next_percpus}
use practice.Atop.Photosyst.Scan.{Scanned, more_digits}
use practice.Atop.Photosyst.Lines.{Vars, each_lines, has_prefix}

abbrev pub maxcpu : ℕ
maxcpu = 2048

-- The ticks of one line; nr tells how many of the numbers the kernel has.
unfoldable pub read_ticks : Scanned → Percpu → Percpu
read_ticks s c =
    let new_kernel = ltb 5 s.nr in
    record c {
      utime = get_or s.cnts 0 0;
      ntime = get_or s.cnts 1 0;
      stime = get_or s.cnts 2 0;
      itime = get_or s.cnts 3 0;
      wtime = (if new_kernel then get_or s.cnts 4 0 else c.wtime);
      irq = (if new_kernel then get_or s.cnts 5 0 else c.irq);
      softirq = (if new_kernel then get_or s.cnts 6 0 else c.softirq);
      steal = (if ltb 8 s.nr then get_or s.cnts 7 0 else c.steal);
      guest = (if ltb 9 s.nr then get_or s.cnts 8 0 else c.guest);
    }

-- A change of si->cpu.cpu[i].
unfoldable pub change_cpu : (Percpu → Percpu) → ℕ → List Percpu → List Percpu
change_cpu f zero l = f (first_percpu l) ∷ next_percpus l
change_cpu f (suc i) l = first_percpu l ∷ change_cpu f i (next_percpus l)

-- A line cpu0, cpu1, ...; one whose number is too large is passed over.
unfoldable pub read_cpu : Scanned → Cpustat → Cpustat
read_cpu s c =
    let number = more_digits 0 (drop 3 s.nam) in
    let i = number.value in
    let numbered =
      λ (p : Percpu). let t = read_ticks s p in let q : Percpu = record t { cpunr = i } in q in
    if leb maxcpu i then c else record c { cpu = change_cpu numbered i c.cpu; nrcpu = c.nrcpu + 1 }

unfoldable pub stat_line : Scanned → Sstat → Sstat
stat_line s si =
    let cpu = si.cpu in
    let mem = si.mem in
    if same_text (codes "cpu") s.nam
    then record si { cpu = record cpu { all = read_ticks s cpu.all } }
    else if has_prefix (codes "cpu") s.nam
    then record si { cpu = read_cpu s cpu }
    else if same_text (codes "ctxt") s.nam
    then record si { cpu = record cpu { csw = get_or s.cnts 0 0 } }
    else if same_text (codes "intr") s.nam
    then record si { cpu = record cpu { devint = get_or s.cnts 0 0 } }
    else if same_text (codes "processes") s.nam
    then record si { cpu = record cpu { nprocs = get_or s.cnts 0 0 } }
    else if same_text (codes "swap") s.nam
    then record si { mem = record mem { swins = get_or s.cnts 0 0; swouts = get_or s.cnts 1 0 } }
    else si

-- The file, where it can be opened.
unfoldable pub read_stat : List Bytes → Vars Sstat → Vars Sstat
read_stat lines v =
    let r = each_lines 15 stat_line lines v in
    let si = r.si in
    let cpu = si.cpu in
    record r { si = (if cpu.nrcpu == 0 then record si { cpu = record cpu { nrcpu = 1 } } else si) }
