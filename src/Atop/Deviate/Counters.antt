-- ===== src/Atop/Deviate/Counters.antt =====
-- What subcount and calcdiff say of counters that only grow.
use practice.Base.{ℕ, ◌+◌, ◌%◌, ◌^◌, ◌<◌, ◌≡◌, refl, Bool, true, false, arith, if◌then◌else◌}
use practice.Atop.Tstat.{Tstat, Dsk}
use practice.Atop.Deviate.{subcount, above, sane_ticks, cpu_diff, dsk_diff, mem_diff, calcdiff}

-- For a counter that advanced by d, subcount gives d: where it is kept in 64 bits and did not
-- overflow, and where the kernel keeps it in 32 bits and d is below 2^32, overflown or not.
pub subcount-advance :
    (old d : ℕ)
    → (subcount (old + d) old ≡ d)
      × (old < 2 ^ 32 → d < 2 ^ 32 → subcount ((old + d) % 2 ^ 32) old ≡ d)
unfolding subcount
subcount-advance old d = (ground arith, λ h k. ground arith)

pub subcount_zero : (a : ℕ) → subcount a 0 ≡ a
unfolding subcount
subcount_zero a = ground arith

sane_ticks-above : (tot used : ℕ) → above (sane_ticks tot used) (tot + 1) ≡ false
unfolding sane_ticks above
sane_ticks-above tot used = ground arith

-- Whatever the two samples hold, a task is never reported with more user ticks, or more system ticks,
-- than one above the ticks of the whole system in the interval.
pub calcdiff-above :
    (cur pre : Tstat) (newtask : Bool) (tot : ℕ)
    → (above (calcdiff cur pre newtask tot).cpu.utime (tot + 1) ≡ false)
      × (above (calcdiff cur pre newtask tot).cpu.stime (tot + 1) ≡ false)
unfolding calcdiff cpu_diff
calcdiff-above cur pre newtask tot = (ticks cur.gen.wasinactive _, ticks cur.gen.wasinactive _)
  where
    ticks : (b : Bool) (used : ℕ) → above (if b then 0 else sane_ticks tot used) (tot + 1) ≡ false
    ticks true used = unfold above in ground arith
    ticks false used = sane_ticks-above tot used

-- A counter of 32 bits, after d more.
abbrev pub advance : ℕ → ℕ → ℕ
advance old d = (old + d) % 2 ^ 32

-- A later sample of an active task that did the transfers `used`, with `min` and `maj` page faults.
abbrev pub grown : Tstat → Dsk → ℕ → ℕ → Tstat
grown pre used min maj =
    let g = pre.gen in
    let m = pre.mem in
    record pre {
      gen = record g { wasinactive = false };
      dsk = record {
        rio = advance pre.dsk.rio used.rio;
        rsz = advance pre.dsk.rsz used.rsz;
        wio = advance pre.dsk.wio used.wio;
        wsz = advance pre.dsk.wsz used.wsz;
        cwsz = advance pre.dsk.cwsz used.cwsz;
      };
      mem = record m { minflt = advance pre.mem.minflt min; majflt = advance pre.mem.majflt maj };
    }

pub record IsDsk (d : Dsk) : Type 0 where
  pub rio_fits : d.rio < 2 ^ 32
  pub rsz_fits : d.rsz < 2 ^ 32
  pub wio_fits : d.wio < 2 ^ 32
  pub wsz_fits : d.wsz < 2 ^ 32
  pub cwsz_fits : d.cwsz < 2 ^ 32

-- Where disk counters and page faults are kept in 32 bits, overflown or not, the deviations of an
-- active task are exactly the transfers and the faults between the two samples.
pub calcdiff-grown :
    (pre : Tstat) (used : Dsk) (min maj : ℕ) (newtask : Bool) (tot : ℕ)
    → IsDsk pre.dsk
    → IsDsk used
    → pre.mem.minflt < 2 ^ 32
    → pre.mem.majflt < 2 ^ 32
    → min < 2 ^ 32
    → maj < 2 ^ 32
    → ((calcdiff (grown pre used min maj) pre newtask tot).dsk ≡ used)
      × ((calcdiff (grown pre used min maj) pre newtask tot).mem.minflt ≡ min)
      × ((calcdiff (grown pre used min maj) pre newtask tot).mem.majflt ≡ maj)
unfolding calcdiff dsk_diff mem_diff
calcdiff-grown pre used min maj newtask tot v w a b c d =
    let back = λ (old n : ℕ) (h : old < 2 ^ 32) (k : n < 2 ^ 32). (subcount-advance old n).1 h k in
    (
      rw
          (
            back pre.dsk.rio used.rio v.rio_fits w.rio_fits,
            back pre.dsk.rsz used.rsz v.rsz_fits w.rsz_fits,
            back pre.dsk.wio used.wio v.wio_fits w.wio_fits,
            back pre.dsk.wsz used.wsz v.wsz_fits w.wsz_fits,
            back pre.dsk.cwsz used.cwsz v.cwsz_fits w.cwsz_fits,
          )
          refl,
      back pre.mem.minflt min a c,
      back pre.mem.majflt maj b d,
    )
