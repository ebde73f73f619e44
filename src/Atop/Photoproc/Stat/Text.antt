-- ===== src/Atop/Photoproc/Stat/Text.antt =====
-- The line of the file stat as the kernel writes it, read back by procstat of Qt/FakeAtop/photoproc.c.
use practice.Base.{
  ℕ, suc, ◌+◌, ◌-◌, ◌*◌, ◌/◌, ◌%◌, ◌^◌, ◌≤◌, ◌<◌, ◌≡◌, refl, sym, Bool, true, false, some, List, [],
  ◌∷◌, ◌++◌, ◌==◌, ltb, length, length-append, get_or, take, drop, min, arith,
}
use practice.Base.Text.{Bytes, isdigit}
use mathlib.Core.List.{append_assoc}
use practice.Base.Decimal.{decimal, first}
use practice.Atop.Tstat.{Tstat}
use practice.Atop.Photosyst.Scan.Text.{counts_text, IsFitting}
use practice.Atop.Photoproc.Stat.Places.{
  IsWithout, strchr-append, strrchr-append, drop-past, take-within, take-whole, IsWithout-append,
  IsWithout-decimal, IsWithout-counts_text,
}
use practice.Atop.Photoproc.Stat.Columns.{chosen, scan_numbers-chosen, id_or-decimal}
use practice.Atop.Photoproc.Numbers.{as_signed, as_id, div_count, id_or}
use practice.Atop.Photoproc.Stat.{
  pnamlen, strchr, strrchr, no_newline, task_name, stat_format, scan_stat, store_stat,
  normalize_stat, count_state, Filled, parse_stat, named_stat, procstat, count_at, id_at, int_at,
  add_100,
}

-- A process id, the name in parentheses, a state, and the numbers behind it.
unfoldable pub stat_text : ℕ → Bytes → ℕ → List ℕ → Bytes → Bytes
stat_text id nam st vs tail =
    (decimal id ++ b' ' ∷ []) ++ b'(' ∷ (nam ++ b')' ∷ b' ' ∷ st ∷ counts_text vs tail)

-- What is read of such a line; the numbers are counted from the first behind the state.
pub record IsRead (hertz pagesize bootepoch id : ℕ) (nam : Bytes) (st : ℕ) (vs : List ℕ)
    (r : Filled) : Type 0 where
  pub ok : r.ok ≡ true
  pub pid : r.task.gen.pid ≡ id
  pub nam_cut : r.task.gen.name ≡ no_newline (take pnamlen nam)
  pub state : r.task.gen.state ≡ st
  pub ppid : r.task.gen.ppid ≡ as_id (get_or vs 0 0)
  pub minflt : r.task.mem.minflt ≡ get_or vs 6 0
  pub majflt : r.task.mem.majflt ≡ get_or vs 8 0
  pub utime : r.task.cpu.utime ≡ get_or vs 10 0
  pub stime : r.task.cpu.stime ≡ get_or vs 11 0
  pub prio : r.task.cpu.prio ≡ add_100 (as_signed 32 (get_or vs 14 0))
  pub nice : r.task.cpu.nice ≡ as_signed 32 (get_or vs 15 0)
  pub btime : r.task.gen.btime ≡ (get_or vs 18 0 + bootepoch) % 2 ^ 64 / hertz
  pub vmem : r.task.mem.vmem ≡ div_count (get_or vs 19 0) 1024
  pub rmem : r.task.mem.rmem ≡ get_or vs 20 0 * (pagesize / 1024) % 2 ^ 64
  pub curcpu : r.task.cpu.curcpu ≡ as_signed 32 (get_or vs 35 0)
  pub rtprio : r.task.cpu.rtprio ≡ as_signed 32 (get_or vs 36 0)
  pub policy : r.task.cpu.policy ≡ as_signed 32 (get_or vs 37 0)

module _ (id : ℕ) (nam : Bytes) (st : ℕ) (vs : List ℕ) (tail : Bytes) where
  abbrev line : Bytes
  line = stat_text id nam st vs tail

  abbrev head_at : ℕ
  head_at = length (decimal id ++ b' ' ∷ [])

  abbrev tail_at : ℕ
  tail_at = length ((decimal id ++ b' ' ∷ []) ++ b'(' ∷ nam)

  abbrev behind : Bytes
  behind = b' ' ∷ st ∷ counts_text vs tail

  line-tail : line ≡ ((decimal id ++ b' ' ∷ []) ++ b'(' ∷ nam) ++ b')' ∷ behind
  unfolding stat_text
  line-tail = sym (append_assoc (decimal id ++ b' ' ∷ []) (b'(' ∷ nam) (b')' ∷ behind))

  tail_at-is : tail_at ≡ head_at + suc (length nam)
  tail_at-is = length-append (decimal id ++ b' ' ∷ []) (b'(' ∷ nam)

  line-head : strchr b'(' line ≡ some head_at
  unfolding stat_text
  line-head = strchr-append b'(' (decimal id ++ b' ' ∷ []) (nam ++ b')' ∷ behind) (
      IsWithout-append b'(' (decimal id) (b' ' ∷ [])
        (IsWithout-decimal b'(' id (unfold isdigit in refl)) (refl, tt))

  line-last : (st == b')') ≡ false → IsWithout b')' tail → strrchr b')' line ≡ some tail_at
  line-last s k = rw line-tail (
      strrchr-append b')' ((decimal id ++ b' ' ∷ []) ++ b'(' ∷ nam) behind
        (refl, (ground arith, IsWithout-counts_text b')' vs tail (unfold isdigit in refl) refl k)))

  line-name : task_name line head_at tail_at ≡ no_newline (take pnamlen nam)
  unfolding task_name stat_text
  line-name =
      let d : drop (head_at + 1) line ≡ nam ++ b')' ∷ behind =
        drop-past (decimal id ++ b' ' ∷ []) (b'(' ∷ (nam ++ b')' ∷ behind)) 1 (head_at + 1) refl in
      let l : min (tail_at - head_at - 1) pnamlen ≡ min (length nam) pnamlen =
        omega (arith, tail_at-is) in
      rw (d, take-within (min (tail_at - head_at - 1) pnamlen) pnamlen nam (b')' ∷ behind) l) refl

  line-numbers : drop (tail_at + 2) line ≡ st ∷ counts_text vs tail
  line-numbers =
      rw line-tail
        (drop-past ((decimal id ++ b' ' ∷ []) ++ b'(' ∷ nam) (b')' ∷ behind) 2 (tail_at + 2) refl)

  line-id : id < 2 ^ 32 → (old : ℕ) → id_or line old ≡ id
  unfolding stat_text
  line-id h old =
      rw (append_assoc (decimal id) (b' ' ∷ []) (b'(' ∷ (nam ++ b')' ∷ behind)))
        (id_or-decimal id old (b' ' ∷ b'(' ∷ (nam ++ b')' ∷ behind)) h (unfold isdigit in refl))

  line-long : 1 ≤ length line
  unfolding stat_text
  line-long =
      let a = length-append (decimal id ++ b' ' ∷ []) (b'(' ∷ (nam ++ b')' ∷ behind)) in omega arith

whole_line :
    (hertz pagesize bootepoch : ℕ) (isproc : Bool) (s : Bytes) (t : Tstat)
    → 1 ≤ length s
    → length s ≤ 4095
    → procstat hertz pagesize bootepoch isproc (some s) t
      ≡ named_stat hertz pagesize bootepoch isproc s t
unfolding procstat
whole_line hertz pagesize bootepoch isproc [] t h k = absurd (omega arith)
whole_line hertz pagesize bootepoch isproc (c ∷ s) t h k = rw (take-whole 4095 (c ∷ s) k) refl

named_stat-stat_text :
    (hertz pagesize bootepoch : ℕ) (isproc : Bool) (id : ℕ) (nam : Bytes) (st : ℕ) (vs : List ℕ)
    (tail : Bytes) (t : Tstat)
    → (st == b')') ≡ false
    → IsWithout b')' tail
    → isdigit (first tail) ≡ false
    → 38 ≤ length vs
    → IsFitting vs
    → named_stat hertz pagesize bootepoch isproc (stat_text id nam st vs tail) t ≡ record {
      ok = true;
      task = count_state (
          normalize_stat hertz pagesize bootepoch (
            store_stat
              (st ∷ chosen stat_format 0 vs)
              isproc
              (task_name
                (stat_text id nam st vs tail)
                (head_at id nam st vs tail)
                (tail_at id nam st vs tail))
              (stat_text id nam st vs tail)
              t));
    }
unfolding named_stat parse_stat scan_stat chosen
named_stat-stat_text hertz pagesize bootepoch isproc id nam st vs tail t s w e l f =
    let o : ltb (tail_at id nam st vs tail) (head_at id nam st vs tail) ≡ false =
      (let q = tail_at-is id nam st vs tail in ground arith) in
    rw
      (
        named_stat,
        line-head id nam st vs tail,
        line-last id nam st vs tail s w,
        o,
        line-numbers id nam st vs tail,
        scan_numbers-chosen stat_format 0 vs vs tail refl l f e,
      )
      refl

-- A line of at most 4095 bytes as the kernel writes it (stat_text), with a pid below 2^32, any name,
-- blanks and parentheses in it included, a state and then 38 numbers at least, each below 2^63, and
-- no closing parenthesis behind the name: procstat is successful, and stores the pid, the first 15
-- bytes of the name with its newlines replaced, the state, and the numbers of the kernel's columns,
-- normalized (IsRead).
pub procstat-stat_text :
    (hertz pagesize bootepoch : ℕ) (isproc : Bool) (id : ℕ) (nam : Bytes) (st : ℕ) (vs : List ℕ)
    (tail : Bytes) (t : Tstat)
    → id < 2 ^ 32
    → (st == b')') ≡ false
    → IsWithout b')' tail
    → isdigit (first tail) ≡ false
    → 38 ≤ length vs
    → IsFitting vs
    → length (stat_text id nam st vs tail) ≤ 4095
    → IsRead hertz pagesize bootepoch id nam st vs
        (procstat hertz pagesize bootepoch isproc (some (stat_text id nam st vs tail)) t)
unfolding store_stat normalize_stat count_state count_at id_at int_at chosen
procstat-stat_text hertz pagesize bootepoch isproc id nam st vs tail t i s w e l f m =
    rw
      (
        whole_line hertz pagesize bootepoch isproc (stat_text id nam st vs tail) t
            (line-long id nam st vs tail) m,
        named_stat-stat_text hertz pagesize bootepoch isproc id nam st vs tail t s w e l f,
      )
      (record {
        ok = refl;
        pid = line-id id nam st vs tail i _;
        nam_cut = line-name id nam st vs tail;
        state = refl;
        ppid = refl;
        minflt = refl;
        majflt = refl;
        utime = refl;
        stime = refl;
        prio = refl;
        nice = refl;
        btime = refl;
        vmem = refl;
        rmem = refl;
        curcpu = refl;
        rtprio = refl;
        policy = refl;
      })
