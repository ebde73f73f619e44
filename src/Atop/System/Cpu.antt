-- ===== src/Atop/System/Cpu.antt =====
-- The CPU counters in deviatsyst and totalsyst of Qt/FakeAtop/deviate.c.
use practice.Base.{ℕ, zero, suc, not, ◌==◌, if◌then◌else◌, List, [], ◌∷◌}
use practice.Atop.Sstat.{Freqcnt, Percpu, Cpustat}
use practice.Atop.Deviate.{subcount}
use practice.Atop.System.Count.{plus}

abbrev pub no_freqcnt : Freqcnt
no_freqcnt = record { maxfreq = 0; cnt = 0; ticks = 0 }

abbrev pub no_percpu : Percpu
no_percpu = record {
  cpunr = 0;
  stime = 0;
  utime = 0;
  ntime = 0;
  itime = 0;
  wtime = 0;
  irq = 0;
  softirq = 0;
  steal = 0;
  guest = 0;
  freqcnt = no_freqcnt;
  instr = 0;
  cycle = 0;
}

abbrev pub first_percpu : List Percpu → Percpu
first_percpu [] = no_percpu
first_percpu (c ∷ cs) = c

abbrev pub next_percpus : List Percpu → List Percpu
next_percpus [] = []
next_percpus (c ∷ cs) = cs

-- dev->cpu.all, whose cpunr and freqcnt stay what they were.
unfoldable pub all_deviation : Percpu → Percpu → Percpu → Percpu
all_deviation cur pre dev = record dev {
  stime = subcount cur.stime pre.stime;
  utime = subcount cur.utime pre.utime;
  ntime = subcount cur.ntime pre.ntime;
  itime = subcount cur.itime pre.itime;
  wtime = subcount cur.wtime pre.wtime;
  irq = subcount cur.irq pre.irq;
  softirq = subcount cur.softirq pre.softirq;
  steal = subcount cur.steal pre.steal;
  guest = subcount cur.guest pre.guest;
  instr = subcount cur.instr pre.instr;
  cycle = subcount cur.cycle pre.cycle;
}

unfoldable pub freq_deviation : Freqcnt → Freqcnt → Freqcnt
freq_deviation cur pre =
    let ticks = not (cur.ticks == 0) in
    record {
      maxfreq = cur.maxfreq;
      cnt = (if ticks then subcount cur.cnt pre.cnt else cur.cnt);
      ticks = (if ticks then subcount cur.ticks pre.ticks else cur.ticks);
    }

unfoldable pub percpu_deviation : Percpu → Percpu → Percpu
percpu_deviation cur pre = record {
  cpunr = cur.cpunr;
  stime = subcount cur.stime pre.stime;
  utime = subcount cur.utime pre.utime;
  ntime = subcount cur.ntime pre.ntime;
  itime = subcount cur.itime pre.itime;
  wtime = subcount cur.wtime pre.wtime;
  irq = subcount cur.irq pre.irq;
  softirq = subcount cur.softirq pre.softirq;
  steal = subcount cur.steal pre.steal;
  guest = subcount cur.guest pre.guest;
  freqcnt = freq_deviation cur.freqcnt pre.freqcnt;
  instr = subcount cur.instr pre.instr;
  cycle = subcount cur.cycle pre.cycle;
}

-- The loop over dev->cpu.nrcpu entries.
unfoldable pub percpu_deviations : ℕ → List Percpu → List Percpu → List Percpu
percpu_deviations zero cur pre = []
percpu_deviations (suc n) cur pre =
    percpu_deviation (first_percpu cur) (first_percpu pre)
    ∷ percpu_deviations n (next_percpus cur) (next_percpus pre)

unfoldable pub cpu_deviation : Cpustat → Cpustat → Cpustat → Cpustat
cpu_deviation cur pre dev = record dev {
  nrcpu = cur.nrcpu;
  devint = subcount cur.devint pre.devint;
  csw = subcount cur.csw pre.csw;
  nprocs = subcount cur.nprocs pre.nprocs;
  all = all_deviation cur.all pre.all dev.all;
  cpu = percpu_deviations cur.nrcpu cur.cpu pre.cpu;
  lavg1 = cur.lavg1;
  lavg5 = cur.lavg5;
  lavg15 = cur.lavg15;
}

-- The ticks of a CPU, or of all CPUs, added to those of tot.
unfoldable pub ticks_total : Percpu → Percpu → Percpu
ticks_total new tot = record tot {
  stime = plus tot.stime new.stime;
  utime = plus tot.utime new.utime;
  ntime = plus tot.ntime new.ntime;
  itime = plus tot.itime new.itime;
  wtime = plus tot.wtime new.wtime;
  irq = plus tot.irq new.irq;
  softirq = plus tot.softirq new.softirq;
  steal = plus tot.steal new.steal;
  guest = plus tot.guest new.guest;
}

unfoldable pub percpu_total : Percpu → Percpu → Percpu
percpu_total new tot = let added = ticks_total new tot in record added { cpunr = new.cpunr }

unfoldable pub percpu_totals : ℕ → List Percpu → List Percpu → List Percpu
percpu_totals zero new tot = tot
percpu_totals (suc n) new tot =
    percpu_total (first_percpu new) (first_percpu tot)
    ∷ percpu_totals n (next_percpus new) (next_percpus tot)

-- totalsyst ('c', new, tot)
unfoldable pub cpu_total : Cpustat → Cpustat → Cpustat
cpu_total new tot =
    let all = ticks_total new.all tot.all in
    record tot {
      nrcpu = new.nrcpu;
      devint = plus tot.devint new.devint;
      csw = plus tot.csw new.csw;
      nprocs = plus tot.nprocs new.nprocs;
      all = all;
      cpu =
          (if new.nrcpu == 1
            then all ∷ next_percpus tot.cpu
            else percpu_totals new.nrcpu new.cpu tot.cpu);
      lavg1 = new.lavg1;
      lavg5 = new.lavg5;
      lavg15 = new.lavg15;
    }
