-- ===== src/Atop/Accumulate/Sum.antt =====
-- The sums that an entry of cumusers, cumprogs and cumconts holds, and what a task gives to them.
use practice.Base.{ℕ, ◌+◌, ◌-◌, ◌≡◌, refl, Bool, List, [], ◌∷◌, ◌++◌, arith, ◌==◌, if◌then◌else◌}
use practice.Atop.Tstat.{Gen, Tstat, zero_tstat}
use practice.Atop.Accumulate.{Pselection, skipped}

-- The numbers that an entry adds up: the tasks, which the pid counts, and counters of them.
pub data Sum : Type 0 where
  tasks : Sum
  user_ticks : Sum
  system_ticks : Sum
  read_sectors : Sum
  written_sectors : Sum
  virtual : Sum
  resident : Sum
  tcp_sent : Sum
  tcp_sent_bytes : Sum
  tcp_received : Sum
  tcp_received_bytes : Sum
  udp_sent : Sum
  udp_sent_bytes : Sum
  udp_received : Sum
  udp_received_bytes : Sum

-- Where the number stands in an entry.
abbrev pub held : Sum → Tstat → ℕ
held tasks t = t.gen.pid
held user_ticks t = t.cpu.utime
held system_ticks t = t.cpu.stime
held read_sectors t = t.dsk.rio
held written_sectors t = t.dsk.wio
held virtual t = t.mem.vmem
held resident t = t.mem.rmem
held tcp_sent t = t.net.tcpsnd
held tcp_sent_bytes t = t.net.tcpssz
held tcp_received t = t.net.tcprcv
held tcp_received_bytes t = t.net.tcprsz
held udp_sent t = t.net.udpsnd
held udp_sent_bytes t = t.net.udpssz
held udp_received t = t.net.udprcv
held udp_received_bytes t = t.net.udprsz

-- What a task gives: no memory where it has exited, and no writes that were cancelled.
abbrev pub given : Sum → Tstat → ℕ
given tasks t = 1
given user_ticks t = t.cpu.utime
given system_ticks t = t.cpu.stime
given read_sectors t = t.dsk.rsz
given written_sectors t = t.dsk.wsz - t.dsk.cwsz
given virtual t = if t.gen.state == b'E' then 0 else t.mem.vmem
given resident t = if t.gen.state == b'E' then 0 else t.mem.rmem
given tcp_sent t = t.net.tcpsnd
given tcp_sent_bytes t = t.net.tcpssz
given tcp_received t = t.net.tcprcv
given tcp_received_bytes t = t.net.tcprsz
given udp_sent t = t.net.udpsnd
given udp_sent_bytes t = t.net.udpssz
given udp_received t = t.net.udprcv
given udp_received_bytes t = t.net.udprsz

-- The sum of a number over a list of tasks.
unfoldable pub total : (Tstat → ℕ) → List Tstat → ℕ
total f [] = 0
total f (t ∷ rest) = f t + total f rest

pub total-append :
    (f : Tstat → ℕ) (l : List Tstat) (t : Tstat) → total f (l ++ t ∷ []) ≡ total f l + f t
unfolding total
total-append f [] t = omega arith
total-append f (u ∷ rest) t = omega (arith, total-append f rest t)

-- The tasks that are not passed over, and a number of each of them.
abbrev pub shown : Pselection → Bool → (Tstat → ℕ) → Tstat → ℕ
shown sel suppressexit g t = if skipped sel suppressexit t then 0 else g t

-- A number of the tasks of the group only.
abbrev pub within : (Tstat → Bool) → (Tstat → ℕ) → Tstat → ℕ
within group f t = if group t then f t else 0

pub held-zero : (m : Sum) → held m zero_tstat ≡ 0
held-zero tasks = refl
held-zero user_ticks = refl
held-zero system_ticks = refl
held-zero read_sectors = refl
held-zero written_sectors = refl
held-zero virtual = refl
held-zero resident = refl
held-zero tcp_sent = refl
held-zero tcp_sent_bytes = refl
held-zero tcp_received = refl
held-zero tcp_received_bytes = refl
held-zero udp_sent = refl
held-zero udp_sent_bytes = refl
held-zero udp_received = refl
held-zero udp_received_bytes = refl

-- The names of an entry are not among its sums.
pub held-gen :
    (m : Sum) (t : Tstat) (g : Gen) → g.pid ≡ t.gen.pid → held m (record t { gen = g }) ≡ held m t
held-gen tasks t g e = e
held-gen user_ticks t g e = refl
held-gen system_ticks t g e = refl
held-gen read_sectors t g e = refl
held-gen written_sectors t g e = refl
held-gen virtual t g e = refl
held-gen resident t g e = refl
held-gen tcp_sent t g e = refl
held-gen tcp_sent_bytes t g e = refl
held-gen tcp_received t g e = refl
held-gen tcp_received_bytes t g e = refl
held-gen udp_sent t g e = refl
held-gen udp_sent_bytes t g e = refl
held-gen udp_received t g e = refl
held-gen udp_received_bytes t g e = refl
