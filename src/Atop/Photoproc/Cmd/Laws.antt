-- ===== src/Atop/Photoproc/Cmd/Laws.antt =====
-- The command line that proccmd of Qt/FakeAtop/photoproc.c stores.
use practice.Base.{ℕ, ◌≤◌, ◌≡◌, refl, ap, ◌∙◌, some, List, [], ◌∷◌, ◌++◌, length}
use practice.Base.Text.{Bytes}
use practice.Atop.Tstat.{Tstat}
use practice.Atop.Photoproc.Stat.Places.{take-whole}
use practice.Atop.Photoproc.Cmd.{blank, cmd_text, cmdlen, proccmd}

-- The file cmdline: each argument with its terminating zero.
unfoldable pub cmd_file : List Bytes → Bytes
cmd_file [] = []
cmd_file (a ∷ args) = a ++ 0 ∷ cmd_file args

unfoldable pub blanks : Bytes → Bytes
blanks [] = []
blanks (c ∷ s) = blank c ∷ blanks s

-- The arguments with a blank between each two of them.
unfoldable pub joined : List Bytes → Bytes
joined [] = []
joined (a ∷ []) = blanks a
joined (a ∷ b ∷ args) = blanks a ++ b' ' ∷ joined (b ∷ args)

cmd_text-step : (c : ℕ) (a s : Bytes) → cmd_text (c ∷ a ++ 0 ∷ s) ≡ blank c ∷ cmd_text (a ++ 0 ∷ s)
unfolding cmd_text
cmd_text-step c [] s = refl
cmd_text-step c (d ∷ a) s = refl

cmd_text-last : (a : Bytes) → cmd_text (a ++ 0 ∷ []) ≡ blanks a
unfolding blanks
cmd_text-last [] = unfold cmd_text in refl
cmd_text-last (c ∷ a) = rw (cmd_text-step c a [], cmd_text-last a) refl

cmd_text-more :
    (a : Bytes) (d : ℕ) (s : Bytes)
    → cmd_text (a ++ 0 ∷ d ∷ s) ≡ blanks a ++ b' ' ∷ cmd_text (d ∷ s)
unfolding blanks
cmd_text-more [] d s = unfold cmd_text blank in refl
cmd_text-more (c ∷ a) d s = rw (cmd_text-step c a (d ∷ s), cmd_text-more a d s) refl

cmd_text-joined : (args : List Bytes) → cmd_text (cmd_file args) ≡ joined args
unfolding cmd_file joined
cmd_text-joined [] = unfold cmd_text in refl
cmd_text-joined (a ∷ []) = cmd_text-last a
cmd_text-joined (a ∷ [] ∷ args) =
    cmd_text-more a 0 (cmd_file args) ∙ ap (λ r. blanks a ++ b' ' ∷ r) (cmd_text-joined ([] ∷ args))
cmd_text-joined (a ∷ (c ∷ b) ∷ args) =
    cmd_text-more a c (b ++ 0 ∷ cmd_file args)
    ∙ ap (λ r. blanks a ++ b' ' ∷ r) (cmd_text-joined ((c ∷ b) ∷ args))

-- A file of arguments, each with its terminating zero, of at most 4096 bytes is stored as the
-- arguments with a blank between each two, in which newlines and tabs are blanks too.
pub proccmd-joined :
    (args : List Bytes) (t : Tstat)
    → length (cmd_file args) ≤ cmdlen
    → (proccmd (some (cmd_file args)) t).gen.cmdline ≡ joined args
unfolding proccmd
proccmd-joined args t h = rw (take-whole cmdlen (cmd_file args) h) (cmd_text-joined args)
