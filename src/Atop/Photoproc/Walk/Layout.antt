-- ===== src/Atop/Photoproc/Walk/Layout.antt =====
-- The order of the tasks in the array of photoproc in Qt/FakeAtop/photoproc.c: each process with more
-- than one thread is followed by its threads.
use practice.Base.{
  ℕ, suc, ◌+◌, ◌≤◌, ◌<◌, ◌≡◌, refl, ◌∙◌, Bool, true, false, ◌&&◌, Option, List, [], ◌∷◌, ltb,
  ltb→lt, if◌then◌else◌, length, length-set, set, get_or-set, arith,
}
use practice.Base.Text.{isdigit}
use practice.Base.Decimal.{first}
use practice.Atop.Tstat.{Tstat, zero_tstat}
use practice.Atop.Netatop.{Netatop, Gathered}
use practice.Atop.Photoproc.Stat.{Filled}
use practice.Atop.Photoproc.Walk.{
  Thread, ProcEntry, Setting, Walk, at, gather, clear_counts, threads, process_threads,
  process_task, process_filled, entry_step, entry_loop, photoproc,
}
use practice.Atop.Photoproc.Walk.Within.{get_or-set_other, IsWithin}
use practice.Atop.Photoproc.Walk.Bounds.{IsWithin-process_threads}
use practice.Atop.Photoproc.Walk.Group.{isproc-gather, isproc-process_task}
use practice.Atop.Photoproc.Walk.Counts.{IsGroup, IsGroup-agree}
use practice.Atop.Photoproc.Walk.Threads.{IsThreaded-threads}

-- The first tasks of the array, up to the number hi, are processes with one thread, and processes with
-- their group of threads.
pub data IsLayout (t : List Tstat) : ℕ → Type 0 where
  empty : IsLayout t 0
  single :
      (lo hi : ℕ)
      → hi ≡ suc lo
      → (at t lo).gen.isproc ≡ true
      → ltb 1 (at t lo).gen.nthr ≡ false
      → IsLayout t lo
      → IsLayout t hi
  group :
      (lo n hi : ℕ)
      → hi ≡ suc (lo + n)
      → (at t lo).gen.isproc ≡ true
      → IsGroup t lo n
      → IsLayout t lo
      → IsLayout t hi

IsLayout-agree :
    (t t' : List Tstat) (hi : ℕ)
    → ((i : ℕ) → i < hi → at t' i ≡ at t i)
    → IsLayout t hi
    → IsLayout t' hi
IsLayout-agree t t' top h empty = empty
IsLayout-agree t t' top h (single lo hi e b c l) =
    let a = h lo (omega arith) in
    single lo hi e (rw a b) (rw a c) (IsLayout-agree t t' lo (λ i k. h i (omega arith)) l)
IsLayout-agree t t' top h (group lo n hi e b g l) =
    let a = h lo (omega arith) in
    group lo n hi e (rw a b) (IsGroup-agree t t' lo n (λ i j k. h i (omega arith)) g)
      (IsLayout-agree t t' lo (λ i k. h i (omega arith)) l)

pub record IsLaid (len : ℕ) (s : Walk) : Type 0 where
  pub laid : IsLayout s.tasklist s.tval
  pub length_is : length s.tasklist ≡ len

module _ (y : Setting) (m len : ℕ) (fits : m ≤ len) where
  IsLaid-if :
      (b : Bool) (x z : Walk)
      → (b ≡ true → IsLaid len x)
      → (b ≡ false → IsLaid len z)
      → IsLaid len (if b then x else z)
  IsLaid-if true x z h k = h refl
  IsLaid-if false x z h k = k refl

  IsLaid-threads :
      (task : Option (List Thread)) (s : Walk) (p : ℕ)
      → s.tval ≡ suc p
      → p < m
      → length s.tasklist ≡ len
      → (at s.tasklist p).gen.isproc ≡ true
      → IsLayout s.tasklist p
      → IsLaid len (process_threads y m p task s)
  unfolding process_threads
  IsLaid-threads task s p v l e b k =
      IsLaid-if (ltb 1 (at s.tasklist p).gen.nthr) _ _
        (λ c.
          let r = IsThreaded-threads y m p len fits task s v (omega arith) e b in
          record {
            laid = group p r.n _ r.tval_is r.head_process r.group (below c);
            length_is = r.length_is;
          })
        (λ c. record { laid = single p s.tval v b c k; length_is = e })
    where
      out : Walk
      out =
          threads y m p task
            (record s { tasklist = set s.tasklist p (clear_counts y (at s.tasklist p)) })

      below : ltb 1 (at s.tasklist p).gen.nthr ≡ true → IsLayout out.tasklist p
      below c =
          let w : IsWithin m p s (process_threads y m p task s) =
            IsWithin-process_threads y m p task s (omega arith) (omega arith) in
          let o : process_threads y m p task s ≡ out = rw (process_threads, c) refl in
          let a : (i : ℕ) → i < p → at out.tasklist i ≡ at s.tasklist i =
            λ i j. (let q = w.same_before i j in rw o at q) in
          IsLayout-agree s.tasklist out.tasklist p a k

  IsLaid-filled :
      (e : ProcEntry) (r : Filled) (s : Walk)
      → (r.ok ≡ true → r.task.gen.isproc ≡ true)
      → s.tval < m
      → IsLaid len s
      → IsLaid len (process_filled y m e r s)
  unfolding process_filled
  IsLaid-filled e r s mark l h =
      IsLaid-if r.ok _ _
        (λ b.
          IsLaid-threads e.task _ s.tval refl l (same g.task)
            (rw new (isproc-process_task y e.files r.task s.netatop ∙ mark b)) (kept g.task))
        (λ b. record { laid = kept r.task; length_is = same r.task })
    where
      g : Gathered
      g = process_task y e.files r.task s.netatop

      same : (v : Tstat) → length (set s.tasklist s.tval v) ≡ len
      same v = length-set s.tasklist s.tval v ∙ h.length_is

      kept : (v : Tstat) → IsLayout (set s.tasklist s.tval v) s.tval
      kept v =
          IsLayout-agree s.tasklist (set s.tasklist s.tval v) s.tval
            (λ i k. get_or-set_other s.tasklist s.tval i v (ground arith)) h.laid

      new : at (set s.tasklist s.tval g.task) s.tval ≡ g.task
      new =
          let k =
            get_or-set s.tasklist s.tval s.tval g.task zero_tstat (omega (arith, h.length_is)) in
          ground arith

  IsLaid-entry_step :
      (e : ProcEntry) (s : Walk) → s.tval < m → IsLaid len s → IsLaid len (entry_step y m e s)
  unfolding entry_step
  IsLaid-entry_step e s l h =
      IsLaid-if (isdigit (first e.d_name) && e.entered) _ _
        (λ b.
          IsLaid-filled e (gather y true e.files (at s.tasklist s.tval)) s
            (isproc-gather y true e.files (at s.tasklist s.tval)) l h)
        (λ b. h)

  IsLaid-entry_loop :
      (es : List ProcEntry) (s : Walk) → IsLaid len s → IsLaid len (entry_loop y m es s)
  unfolding entry_loop
  IsLaid-entry_loop [] s h = h
  IsLaid-entry_loop (e ∷ es) s h =
      IsLaid-if (ltb s.tval m) _ _
        (λ b.
          IsLaid-entry_loop es (entry_step y m e s) (IsLaid-entry_step e s (ltb→lt s.tval m b) h))
        (λ b. h)

-- Where the array has maxtask entries at least, whatever the files of /proc hold: the tasks that
-- photoproc stores are processes with one thread, and processes followed by their threads, which
-- are in the same container; the counts of running, sleeping and waiting threads of such a process
-- are the numbers of its stored threads in the states R, S and D.
pub photoproc-IsLayout :
    (y : Setting) (proc : List ProcEntry) (tasklist : List Tstat) (maxtask : ℕ) (s : Netatop)
    → maxtask ≤ length tasklist
    → IsLayout
        (photoproc y proc tasklist maxtask s).tasklist
        (photoproc y proc tasklist maxtask s).tval
unfolding photoproc
photoproc-IsLayout y proc tasklist maxtask s h =
    (IsLaid-entry_loop y maxtask (length tasklist) h proc
      (record { tasklist = tasklist; tval = 0; dockstat = 0; netatop = s })
      (record { laid = empty; length_is = refl })).laid
