-- ===== src/Atop/Netatop/Daemon/Mapped.antt =====
-- The exit file of Qt/FakeAtop/netatopif.c is mapped whenever the daemon counts as active, as
-- netatop_exitstore relies on.
use practice.Base.{ℕ, Bool, true, false, ◌≡◌, List, [], ◌∷◌, if◌then◌else◌, arith}
use practice.Atop.Tstat.{Tstat, no_net}
use practice.Atop.Netatop.{Netatop, Answer, Gathered, netatop_gettask, answered, give_up}
use practice.Atop.Netatop.Daemon.{
  System, no_daemon, map_record, open_file, exit_file, daemon_value, daemon, netatop_probe,
  netatop_ipopen,
}

pub record IsMapped (s : Netatop) : Type 0 where
  pub file_mapped : s.netexitfd ≡ true → s.nahp ≡ true
  pub daemon_open : s.netatopd ≡ true → s.netexitfd ≡ true
  pub daemon_module : s.netatopd ≡ true → s.netatop ≡ true

-- What happens to the state: the opening of the socket, a probe, and the counters of a task.
pub data Event : Type 0 where
  ipopen : Bool → Event
  probe : System → Event
  gettask : (ℕ → Bool → Answer) → ℕ → Bool → Tstat → Event

unfoldable pub step : Event → Netatop → Netatop
step (ipopen opened) s = netatop_ipopen opened s
step (probe y) s = netatop_probe y s
step (gettask ask id group tp) s = (netatop_gettask ask id group s tp).state

unfoldable pub run : List Event → Netatop → Netatop
run [] s = s
run (e ∷ es) s = run es (step e s)

IsMapped-netatop_probe : (y : System) (s : Netatop) → IsMapped s → IsMapped (netatop_probe y s)
unfolding netatop_probe daemon daemon_value exit_file open_file map_record no_daemon
IsMapped-netatop_probe y s h = record {
  file_mapped = ground (arith, h.file_mapped);
  daemon_open = ground (arith, h.daemon_open);
  daemon_module = ground (arith, h.daemon_module);
}

IsMapped-answered :
    (a : Answer) (s : Netatop) (tp : Tstat) → IsMapped s → IsMapped (answered a s tp).state
unfolding answered give_up
IsMapped-answered (Answer.counted tc) s tp h = h
IsMapped-answered Answer.unsupported s tp h = record {
  file_mapped = h.file_mapped;
  daemon_open = λ e. absurd (ground arith);
  daemon_module = λ e. absurd (ground arith);
}
IsMapped-answered Answer.failed s tp h = h

IsMapped-if :
    (b : Bool) (x y : Gathered)
    → IsMapped x.state
    → IsMapped y.state
    → IsMapped (if b then x else y).state
IsMapped-if true x y h k = h
IsMapped-if false x y h k = k

IsMapped-step : (e : Event) (s : Netatop) → IsMapped s → IsMapped (step e s)
unfolding step netatop_gettask netatop_ipopen
IsMapped-step (ipopen opened) s h = record {
  file_mapped = h.file_mapped;
  daemon_open = h.daemon_open;
  daemon_module = h.daemon_module;
}
IsMapped-step (probe y) s h = IsMapped-netatop_probe y s h
IsMapped-step (gettask ask id group tp) s h =
    IsMapped-if s.netatop (answered (ask id group) s tp)
      (record { state = s; task = record tp { net = no_net } })
      (IsMapped-answered (ask id group) s tp h) h

-- Over any sequence of openings of the socket, probes and requests for tasks: where the exit file is
-- mapped whenever it is open, and open and the module active whenever the daemon counts as active,
-- this stays so.
pub IsMapped-run : (es : List Event) (s : Netatop) → IsMapped s → IsMapped (run es s)
unfolding run
IsMapped-run [] s h = h
IsMapped-run (e ∷ es) s h = IsMapped-run es (step e s) (IsMapped-step e s h)
