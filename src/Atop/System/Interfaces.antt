-- ===== src/Atop/System/Interfaces.antt =====
-- The network interfaces in deviatsyst and totalsyst of Qt/FakeAtop/deviate.c.
pub mod Resync
use practice.Base.{
  ℕ, zero, suc, Bool, true, false, not, if◌then◌else◌, List, [], ◌∷◌, get_or, length,
}
use practice.Base.Text.{Bytes, same_text}
use practice.Atop.Sstat.{Perintf, Intfstat}
use practice.Atop.Deviate.{subcount}
use practice.Atop.System.Count.{plus}
use practice.Atop.System.Properties.{Ifprop, getifprop}
use practice.Atop.System.Names.{named, seek}

abbrev pub no_perintf : Perintf
no_perintf = record {
  name = [];
  rbyte = 0;
  rpack = 0;
  rerrs = 0;
  rdrop = 0;
  rfifo = 0;
  rframe = 0;
  rcompr = 0;
  rmultic = 0;
  sbyte = 0;
  spack = 0;
  serrs = 0;
  sdrop = 0;
  sfifo = 0;
  scollis = 0;
  scarrier = 0;
  scompr = 0;
  type = 0;
  speed = 0;
  speedp = 0;
  duplex = 0;
}

abbrev pub intf_name : Perintf → Bytes
intf_name c = c.name

abbrev pub first_intf : List Perintf → Perintf
first_intf [] = no_perintf
first_intf (c ∷ cs) = c

abbrev pub next_intfs : List Perintf → List Perintf
next_intfs [] = []
next_intfs (c ∷ cs) = cs

unfoldable pub with_ifprop : List Ifprop → Perintf → Perintf
with_ifprop ifprops c =
    let p = getifprop ifprops c.name in
    record c { type = p.type; speed = p.speed; speedp = p.speed; duplex = p.fullduplex }

unfoldable pub with_ifprops : List Ifprop → List Perintf → List Perintf
with_ifprops ifprops [] = []
with_ifprops ifprops (c ∷ cs) =
    let rest = with_ifprops ifprops cs in
    if named c.name then with_ifprop ifprops c ∷ rest else c ∷ cs

-- The names and properties of cur in the entries of pre.
unfoldable pub first_names : List Perintf → List Perintf → List Perintf
first_names [] pre = pre
first_names (c ∷ cs) pre =
    let rest = first_names cs (next_intfs pre) in
    let p = first_intf pre in
    if named c.name
    then (record p {
      name = c.name;
      type = c.type;
      speed = c.speed;
      speedp = c.speedp;
      duplex = c.duplex;
    })
      ∷ rest
    else pre

-- `first sample?`
unfoldable pub named_pre : List Perintf → List Perintf → List Perintf
named_pre cur pre = if named (intf_name (first_intf pre)) then pre else first_names cur pre

unfoldable pub intf_deviation : Perintf → Perintf → Perintf
intf_deviation cur pre = record {
  name = cur.name;
  rbyte = subcount cur.rbyte pre.rbyte;
  rpack = subcount cur.rpack pre.rpack;
  rerrs = subcount cur.rerrs pre.rerrs;
  rdrop = subcount cur.rdrop pre.rdrop;
  rfifo = subcount cur.rfifo pre.rfifo;
  rframe = subcount cur.rframe pre.rframe;
  rcompr = subcount cur.rcompr pre.rcompr;
  rmultic = subcount cur.rmultic pre.rmultic;
  sbyte = subcount cur.sbyte pre.sbyte;
  spack = subcount cur.spack pre.spack;
  serrs = subcount cur.serrs pre.serrs;
  sdrop = subcount cur.sdrop pre.sdrop;
  sfifo = subcount cur.sfifo pre.sfifo;
  scollis = subcount cur.scollis pre.scollis;
  scarrier = subcount cur.scarrier pre.scarrier;
  scompr = subcount cur.scompr pre.scompr;
  type = cur.type;
  speed = cur.speed;
  speedp = pre.speed;
  duplex = cur.duplex;
}

-- One pass of the loop: the entry of dev, that of cur, and j for the next pass.
pub record IntfStep : Type 0 where
  pub dev : Perintf
  pub cur : Perintf
  pub next : ℕ

unfoldable pub intf_found : Perintf → List Perintf → ℕ → IntfStep
intf_found c pre j =
    let p = get_or pre j no_perintf in
    record { dev = intf_deviation c p; cur = record c { speedp = p.speed }; next = suc j }

-- j = 0 and the increment of the loop leave j at 1.
unfoldable pub intf_step : Perintf → List Perintf → ℕ → IntfStep
intf_step c pre j =
    if same_text c.name (intf_name (get_or pre j no_perintf))
    then intf_found c pre j
    else (let k = seek intf_name c.name 0 pre in
        if named (intf_name (get_or pre k no_perintf))
        then intf_found c pre k
        else record { dev = c; cur = c; next = 1 })

-- What the loop leaves in dev, up to the entry whose name is cleared, and in cur.
pub record IntfPasses : Type 0 where
  pub dev : List Perintf
  pub cur : List Perintf

unfoldable pub intf_passes : List Perintf → List Perintf → ℕ → IntfPasses
intf_passes [] pre j = record { dev = []; cur = [] }
intf_passes (c ∷ cs) pre j =
    let step = intf_step c pre j in
    let rest = intf_passes cs pre step.next in
    if named c.name
    then record { dev = step.dev ∷ rest.dev; cur = step.cur ∷ rest.cur }
    else record { dev = []; cur = c ∷ cs }

-- All that the code does on the interfaces: dev, and cur and pre, which it changes.
pub record IntfResult : Type 0 where
  pub dev : Intfstat
  pub cur : Intfstat
  pub pre : Intfstat

unfoldable pub deviate_intf : List Ifprop → Intfstat → Intfstat → IntfResult
deviate_intf ifprops cur pre =
    let current = with_ifprops ifprops cur.intf in
    let previous = named_pre current pre.intf in
    let passes = intf_passes current previous 0 in
    record {
      dev = record { nrintf = length passes.dev; intf = passes.dev };
      cur = record cur { intf = passes.cur };
      pre = record pre { intf = previous };
    }

abbrev pub zero_intf : Perintf → Perintf
zero_intf tot = record tot {
  rbyte = 0;
  rpack = 0;
  rerrs = 0;
  rdrop = 0;
  rfifo = 0;
  rframe = 0;
  rcompr = 0;
  rmultic = 0;
  sbyte = 0;
  spack = 0;
  serrs = 0;
  sdrop = 0;
  sfifo = 0;
  scollis = 0;
  scarrier = 0;
  scompr = 0;
}

-- The counters added to those of tot, where tot holds the same interface, and to zero otherwise.
unfoldable pub intf_total : Perintf → Perintf → Perintf
intf_total new old =
    let tot = if not (same_text new.name old.name) then zero_intf old else old in
    record tot {
      name = new.name;
      rbyte = plus tot.rbyte new.rbyte;
      rpack = plus tot.rpack new.rpack;
      rerrs = plus tot.rerrs new.rerrs;
      rdrop = plus tot.rdrop new.rdrop;
      rfifo = plus tot.rfifo new.rfifo;
      rframe = plus tot.rframe new.rframe;
      rcompr = plus tot.rcompr new.rcompr;
      rmultic = plus tot.rmultic new.rmultic;
      sbyte = plus tot.sbyte new.sbyte;
      spack = plus tot.spack new.spack;
      serrs = plus tot.serrs new.serrs;
      sdrop = plus tot.sdrop new.sdrop;
      sfifo = plus tot.sfifo new.sfifo;
      scollis = plus tot.scollis new.scollis;
      scarrier = plus tot.scarrier new.scarrier;
      scompr = plus tot.scompr new.scompr;
      type = new.type;
      speed = new.speed;
      duplex = new.duplex;
    }

unfoldable pub intf_totals : List Perintf → List Perintf → List Perintf
intf_totals [] tot = []
intf_totals (c ∷ cs) tot =
    let rest = intf_totals cs (next_intfs tot) in
    if named c.name then intf_total c (first_intf tot) ∷ rest else []

unfoldable pub intfstat_total : Intfstat → Intfstat → Intfstat
intfstat_total new tot =
    let intf = intf_totals new.intf tot.intf in record { nrintf = length intf; intf = intf }
