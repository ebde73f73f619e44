-- ===== src/Atop/Photoproc/Walk/Group.antt =====
-- What the files of a directory, read by photoproc of Qt/FakeAtop/photoproc.c, leave as it is.
use practice.Base.{
  ℕ, Bool, true, false, ◌≡◌, refl, ◌∙◌, ap, Option, none, some, List, [], ◌∷◌, if◌then◌else◌, take,
  arith,
}
use practice.Base.Text.{Bytes, codes}
use practice.Atop.Tstat.{Tstat, Gen, no_net}
use practice.Atop.Netatop.{Netatop, Answer, answered, netatop_gettask}
use practice.Atop.Photosyst.Lines.{has_prefix}
use practice.Atop.Photoproc.Stat.{
  Filled, store_stat, strchr, strrchr, normalize_stat, count_state, parse_stat, named_stat,
  procstat,
}
use practice.Atop.Photoproc.Status.{
  uid_line, gid_line, status_line, status_lines, start_status, procstatus,
}
use practice.Atop.Photoproc.Io.{procio, io_task}
use practice.Atop.Photoproc.Cmd.{proccmd, proccont, with_container, container_of}
use practice.Atop.Photoproc.Smaps.{SmapsFile, procsmaps}
use practice.Atop.Photoproc.Walk.{
  Files, Setting, and_status, and_io, gather, thread_task, process_task,
}

if-same :
    {A B : Type 0} (f : A → B) (b : Bool) (x y : A) (v : B)
    → f x ≡ v
    → f y ≡ v
    → f (if b then x else y) ≡ v
if-same f true x y v h k = h
if-same f false x y v h k = k

abbrev isproc_of : Tstat → Bool
isproc_of t = t.gen.isproc

isproc-status_line : (line : Bytes) (t : Tstat) → (status_line line t).gen.isproc ≡ t.gen.isproc
unfolding status_line uid_line gid_line
isproc-status_line line t = ground arith

isproc-status_lines :
    (lines : List Bytes) (t : Tstat) → (status_lines lines t).gen.isproc ≡ t.gen.isproc
unfolding status_lines
isproc-status_lines [] t = refl
isproc-status_lines (line ∷ lines) t =
    if-same isproc_of (has_prefix (codes "SigQ:") line) t (status_lines lines (status_line line t))
      t.gen.isproc refl (isproc-status_lines lines (status_line line t) ∙ isproc-status_line line t)

isproc-procstatus :
    (file : Option (List Bytes)) (t : Tstat) → (procstatus file t).task.gen.isproc ≡ t.gen.isproc
unfolding procstatus start_status
isproc-procstatus none t = refl
isproc-procstatus (some lines) t = isproc-status_lines lines (start_status t)

gen-procio : (b : Bool) (file : Option (List Bytes)) (t : Tstat) → (procio b file t).gen ≡ t.gen
unfolding procio io_task
gen-procio false file t = refl
gen-procio true none t = refl
gen-procio true (some lines) t = refl

-- Where the state is read, the entry is marked as a process or as a thread.
IsMarked : Bool → Filled → Type 0
IsMarked b r = r.ok ≡ true → r.task.gen.isproc ≡ b

isproc-parse_stat :
    (hertz pagesize bootepoch : ℕ) (b : Bool) (line : Bytes) (head tail : ℕ) (t : Tstat)
    → (parse_stat hertz pagesize bootepoch b line head tail t).task.gen.isproc ≡ b
unfolding parse_stat store_stat normalize_stat count_state
isproc-parse_stat hertz pagesize bootepoch b line head tail t = ground arith

isproc-named_stat :
    (hertz pagesize bootepoch : ℕ) (b : Bool) (line : Bytes) (t : Tstat)
    → IsMarked b (named_stat hertz pagesize bootepoch b line t)
unfolding named_stat IsMarked
isproc-named_stat hertz pagesize bootepoch b line t h =
    go (strchr b'(' line) (strrchr b')' line) refl refl
  where
    go :
        (o q : Option ℕ)
        → strchr b'(' line ≡ o
        → strrchr b')' line ≡ q
        → (named_stat hertz pagesize bootepoch b line t).task.gen.isproc ≡ b
    go none q e f = absurd (ground arith)
    go (some i) none e f = absurd (ground arith)
    go (some i) (some j) e f =
        let k = isproc-parse_stat hertz pagesize bootepoch b line i j t in ground arith

isproc-procstat :
    (hertz pagesize bootepoch : ℕ) (b : Bool) (file : Option Bytes) (t : Tstat)
    → IsMarked b (procstat hertz pagesize bootepoch b file t)
unfolding procstat IsMarked
isproc-procstat hertz pagesize bootepoch b none t h = absurd (ground arith)
isproc-procstat hertz pagesize bootepoch b (some []) t h = absurd (ground arith)
isproc-procstat hertz pagesize bootepoch b (some (c ∷ s)) t h =
    isproc-named_stat hertz pagesize bootepoch b (take 4095 (c ∷ s)) t h

IsMarked-and_status :
    (y : Setting) (b : Bool) (files : Files) (r : Filled)
    → IsMarked b r
    → IsMarked b (and_status y files r)
unfolding and_status IsMarked
IsMarked-and_status y b files r h k = go r.ok refl
  where
    go : (o : Bool) → r.ok ≡ o → (and_status y files r).task.gen.isproc ≡ b
    go true e = rw (and_status, e) (isproc-procstatus files.status r.task ∙ h e)
    go false e = absurd (ground arith)

IsMarked-and_io :
    (y : Setting) (b : Bool) (files : Files) (r : Filled)
    → IsMarked b r
    → IsMarked b (and_io y files r)
unfolding and_io IsMarked
IsMarked-and_io y b files r h k = go r.ok refl
  where
    go : (o : Bool) → r.ok ≡ o → (and_io y files r).task.gen.isproc ≡ b
    go true e = rw (and_io, e) (ap (λ g. Gen.isproc g) (gen-procio y.iostat files.io r.task) ∙ h e)
    go false e = absurd (ground arith)

pub isproc-gather :
    (y : Setting) (b : Bool) (files : Files) (t : Tstat)
    → (gather y b files t).ok ≡ true
    → (gather y b files t).task.gen.isproc ≡ b
unfolding gather IsMarked
isproc-gather y b files t = IsMarked-and_io y b files _ (
    IsMarked-and_status y b files _ (isproc-procstat y.hertz y.pagesize y.bootepoch b files.stat t))

gen-answered : (a : Answer) (s : Netatop) (t : Tstat) → (answered a s t).task.gen ≡ t.gen
unfolding answered
gen-answered (Answer.counted tc) s t = refl
gen-answered Answer.unsupported s t = refl
gen-answered Answer.failed s t = refl

gen-netatop_gettask :
    (ask : ℕ → Bool → Answer) (id : ℕ) (group : Bool) (s : Netatop) (t : Tstat)
    → (netatop_gettask ask id group s t).task.gen ≡ t.gen
unfolding netatop_gettask
gen-netatop_gettask ask id group s t =
    if-same (λ g. g.task.gen) s.netatop (answered (ask id group) s t)
      (record { state = s; task = record t { net = no_net } }) t.gen
      (gen-answered (ask id group) s t) refl

-- The general members of a thread.
pub gen-thread_task :
    (y : Setting) (cur t : Tstat) (s : Netatop)
    → (thread_task y cur t s).task.gen ≡ record t.gen { container = cur.gen.container; nthr = 1 }
unfolding thread_task
gen-thread_task y cur t s =
    gen-netatop_gettask y.ask t.gen.pid false s
      (record t { gen = record t.gen { container = cur.gen.container; nthr = 1 } })

isproc-proccont : (file : Option Bytes) (t : Tstat) → (proccont file t).1.gen.isproc ≡ t.gen.isproc
unfolding proccont
isproc-proccont none t = refl
isproc-proccont (some line) t = go (container_of line)
  where
    go : (o : Option Bytes) → (with_container o t).1.gen.isproc ≡ t.gen.isproc
    go none = unfold with_container in refl
    go (some id) = unfold with_container in refl

pub isproc-process_task :
    (y : Setting) (files : Files) (t : Tstat) (s : Netatop)
    → (process_task y files t s).task.gen.isproc ≡ t.gen.isproc
unfolding process_task
isproc-process_task y files t s =
    ap (λ g. Gen.isproc g) (gen-netatop_gettask y.ask m.gen.tgid true s m)
    ∙ pss
    ∙ isproc-proccont files.cpuset (proccmd files.cmdline t)
    ∙ cmd files.cmdline
  where
    c : Tstat
    c = (proccont files.cpuset (proccmd files.cmdline t)).1

    m : Tstat
    m = if y.calcpss then procsmaps y.pssval files.smaps c else c

    pss_of : (f : Option SmapsFile) → (procsmaps y.pssval f c).gen.isproc ≡ c.gen.isproc
    pss_of none = unfold procsmaps in refl
    pss_of (some f) = unfold procsmaps in refl

    pss : m.gen.isproc ≡ c.gen.isproc
    pss =
        if-same isproc_of y.calcpss (procsmaps y.pssval files.smaps c) c c.gen.isproc
          (pss_of files.smaps) refl

    cmd : (o : Option Bytes) → (proccmd o t).gen.isproc ≡ t.gen.isproc
    cmd none = unfold proccmd in refl
    cmd (some f) = unfold proccmd in refl
