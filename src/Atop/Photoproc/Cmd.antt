-- ===== src/Atop/Photoproc/Cmd.antt =====
-- proccmd and proccont of Qt/FakeAtop/photoproc.c: the command line of a process and its container.
pub mod Laws
use practice.Base.{
  ℕ, suc, ◌+◌, Bool, true, false, ◌||◌, Option, none, some, List, [], ◌∷◌, ◌==◌, if◌then◌else◌,
  take, drop,
}
use practice.Base.Text.{Bytes, codes}
use practice.Atop.Tstat.{Tstat, Gen}
use practice.Atop.Photosyst.Lines.{has_prefix}

abbrev pub cmdlen : ℕ
cmdlen = 4096

-- A separator between arguments, a newline and a tab become blanks.
unfoldable pub blank : ℕ → ℕ
blank c = if c == 0 || c == 10 || c == 9 then b' ' else c

-- The bytes that fread stored, as the text up to the terminating zero: all but the last are changed,
-- and the last ends the text where it is zero. The buffer behind them has been cleared.
unfoldable pub cmd_text : Bytes → Bytes
unfolding blank
cmd_text [] = []
cmd_text (c ∷ []) = if c == 0 then [] else c ∷ []
cmd_text (c ∷ d ∷ s) = blank c ∷ cmd_text (d ∷ s)

unfoldable pub proccmd : Option Bytes → Tstat → Tstat
proccmd none t = record t { gen = record t.gen { cmdline = [] } }
proccmd (some file) t = record t { gen = record t.gen { cmdline = cmd_text (take cmdlen file) } }

-- The text from the place on that strstr finds.
unfoldable pub strstr : Bytes → Bytes → Option Bytes
strstr needle [] = if has_prefix needle [] then some [] else none
strstr needle (c ∷ s) =
    let more = strstr needle s in if has_prefix needle (c ∷ s) then some (c ∷ s) else more

abbrev pub cidprefix : Bytes
cidprefix = codes "docker"

abbrev pub cidsize : ℕ
cidsize = 12

-- The container of the first line of cpuset, of which fgets returns at most 79 bytes. One character
-- is passed over behind the prefix, as sizeof counts its terminating zero. A line that ends within
-- the 12 bytes gives a shorter text here.
unfoldable pub container_of : Bytes → Option Bytes
container_of [] = none
container_of (c ∷ []) = none
container_of (c ∷ d ∷ s) = elim (strstr cidprefix (take 79 (c ∷ d ∷ s))) [
  | none ↦ none
  | some p ↦ some (take cidsize (drop 7 p))
]

unfoldable pub with_container : Option Bytes → Tstat → Bool × Tstat
with_container none t = (false, t)
with_container (some id) t = (true, record t { gen = record t.gen { container = id } })

-- `file` is the first line, none where the file cannot be opened or is empty.
unfoldable pub proccont : Option Bytes → Tstat → Bool × Tstat
proccont none t = (false, t)
proccont (some line) t = with_container (container_of line) t
