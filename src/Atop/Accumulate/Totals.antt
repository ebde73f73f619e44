-- ===== src/Atop/Accumulate/Totals.antt =====
-- The sums that cumusers, cumprogs and cumconts build up for each user, program or container.
use practice.Base.{
  ℕ, suc, ◌+◌, ◌%◌, ◌^◌, ◌≤◌, ◌<◌, ◌≡◌, refl, Bool, true, List, [], ◌∷◌, arith, length,
  length-append, Bool-cases, inl, inr,
}
use practice.Atop.Tstat.{Tstat, zero_tstat}
use practice.Atop.Accumulate.{
  Pselection, accumulate, add_gen, add_cpu, add_dsk, add_mem, add_net, nett_wsz, Key, Cumulated,
  next_entry, skipped, cumulate_one, cumulate, entries,
}
use practice.Atop.Accumulate.Sum.{
  Sum, tasks, user_ticks, system_ticks, read_sectors, written_sectors, virtual, resident, tcp_sent,
  tcp_sent_bytes, tcp_received, tcp_received_bytes, udp_sent, udp_sent_bytes, udp_received,
  udp_received_bytes, held, given, total, total-append, shown, within, held-zero,
}

pub accumulate-pid :
    (t s : Tstat) → s.gen.pid + 1 < 2 ^ 32 → (accumulate t s).gen.pid ≡ s.gen.pid + 1
unfolding accumulate add_gen
accumulate-pid t s h = omega arith

-- The member of an entry, modulo 2^64, behind the addition of a task.
accumulate-held :
    (m : Sum) (t s : Tstat)
    → s.gen.pid + 1 < 2 ^ 32
    → held m (accumulate t s) % 2 ^ 64 ≡ (held m s + given m t) % 2 ^ 64
unfolding accumulate add_gen add_cpu add_dsk add_mem add_net nett_wsz
accumulate-held tasks t s h = omega arith
accumulate-held user_ticks t s h = omega arith
accumulate-held system_ticks t s h = omega arith
accumulate-held read_sectors t s h = omega arith
accumulate-held written_sectors t s h = ground arith
accumulate-held virtual t s h = ground arith
accumulate-held resident t s h = ground arith
accumulate-held tcp_sent t s h = omega arith
accumulate-held tcp_sent_bytes t s h = omega arith
accumulate-held tcp_received t s h = omega arith
accumulate-held tcp_received_bytes t s h = omega arith
accumulate-held udp_sent t s h = omega arith
accumulate-held udp_sent_bytes t s h = omega arith
accumulate-held udp_received t s h = omega arith
accumulate-held udp_received_bytes t s h = omega arith

-- A key tells a group from the others, and its copy changes nothing but the key.
pub record IsKey (k : Key) (group : Tstat → Bool) : Type 0 where
  pub together : (s t : Tstat) → k.same s t ≡ true → group s ≡ group t
  pub copied : (t s : Tstat) → group (k.copy t s) ≡ group t
  pub kept : (t s : Tstat) → group (accumulate t s) ≡ group s
  pub copies : (m : Sum) (t s : Tstat) → held m (k.copy t s) ≡ held m s

module _ (sel : Pselection) (suppressexit : Bool) (k : Key) (group : Tstat → Bool)
    (is_key : IsKey k group) (m : Sum) where
  -- What the group has in the list and in the entry in work; that is empty without a task.
  abbrev amount : Cumulated → ℕ
  amount s = total (within group (held m)) s.finished + within group (held m) s.current

  abbrev IsFresh : Cumulated → Type 0
  IsFresh s = s.current.gen.pid ≡ 0 → held m s.current ≡ 0

  abbrev gives : Tstat → ℕ
  gives = shown sel suppressexit (within group (given m))

  next_entry-amount :
      (t : Tstat) (s : Cumulated)
      → IsFresh s
      → (amount (next_entry t k s) ≡ amount s) × (group (next_entry t k s).current ≡ group t)
  unfolding next_entry
  next_entry-amount t s fresh = (
    ground (
      arith,
      is_key.copies m t s.current,
      is_key.copies m t zero_tstat,
      held-zero m,
      fresh,
      total-append (within group (held m)) s.finished s.current,
    ),
    ground
        (arith, is_key.copied t s.current, is_key.copied t zero_tstat, is_key.together s.current t),
  )

  next_entry-pid :
      (t : Tstat) (s : Cumulated) → (next_entry t k s).current.gen.pid ≤ s.current.gen.pid
  unfolding next_entry
  next_entry-pid t s =
      ground (arith, is_key.copies tasks t s.current, is_key.copies tasks t zero_tstat)

  record IsAdded (t : Tstat) (s s' : Cumulated) : Type 0 where
    added : amount s' % 2 ^ 64 ≡ (amount s + gives t) % 2 ^ 64
    fresh : IsFresh s'
    counted : s'.current.gen.pid ≤ s.current.gen.pid + 1

  -- The entry in work belongs to the group or not as the task does.
  accumulate-within :
      (t c : Tstat)
      → c.gen.pid + 1 < 2 ^ 32
      → group c ≡ group t
      → within group (held m) (accumulate t c) % 2 ^ 64
        ≡ (within group (held m) c + within group (given m) t) % 2 ^ 64
  accumulate-within t c h e = ground (arith, is_key.kept t c, e, accumulate-held m t c h)

  cumulate_one-IsAdded :
      (t : Tstat) (s : Cumulated)
      → IsFresh s
      → s.current.gen.pid + 1 < 2 ^ 32
      → IsAdded t s (cumulate_one sel suppressexit k t s)
  unfolding cumulate_one
  cumulate_one-IsAdded t s h b = elim (Bool-cases (skipped sel suppressexit t)) [
    | inl e ↦
        let g : gives t ≡ 0 = rw e refl in
        rw e (record { added = omega (arith, g); fresh = h; counted = omega arith })
    | inr e ↦
        let s' = next_entry t k s in
        let le = next_entry-pid t s in
        let b' : s'.current.gen.pid + 1 < 2 ^ 32 = omega arith in
        let n = next_entry-amount t s h in
        let p = accumulate-pid t s'.current b' in
        let w = accumulate-within t s'.current b' n.1 in
        let g : gives t ≡ within group (given m) t = rw e refl in
        rw e (record {
          added = omega (arith, n.0, w, g);
          fresh = λ z. absurd (omega (arith, p, z));
          counted = omega (arith, p, le);
        })
  ]

  -- What the group's entries hold in the end is what its tasks gave.
  pub cumulate-amount :
      (l : List Tstat) (s : Cumulated)
      → IsFresh s
      → s.current.gen.pid + length l < 2 ^ 32
      → total (within group (held m)) (entries (cumulate sel suppressexit k l s)) % 2 ^ 64
        ≡ (amount s + total gives l) % 2 ^ 64
  unfolding cumulate entries total
  cumulate-amount [] s h b =
      ground (arith, total-append (within group (held m)) s.finished s.current, h)
  cumulate-amount (t ∷ rest) s h b =
      let one = cumulate_one-IsAdded t s h (omega arith) in
      let c = one.counted in
      let ih = cumulate-amount rest (cumulate_one sel suppressexit k t s) one.fresh (omega arith) in
      omega (arith, ih, one.added)

module _ (sel : Pselection) (suppressexit : Bool) (k : Key) where
  entries-length :
      (s : Cumulated) (l : List Tstat) (t : Tstat)
      → length l ≤ length (entries s)
      → length (entries (record { finished = l; current = t })) ≤ suc (length (entries s))
  unfolding entries
  entries-length s l t h = ground (arith, length-append l (t ∷ []))

  next_entry-length :
      (t : Tstat) (s : Cumulated) → length (next_entry t k s).finished ≤ length (entries s)
  unfolding next_entry entries
  next_entry-length t s = ground (arith, length-append s.finished (s.current ∷ []))

  cumulate_one-length :
      (t : Tstat) (s : Cumulated)
      → length (entries (cumulate_one sel suppressexit k t s)) ≤ suc (length (entries s))
  unfolding cumulate_one
  cumulate_one-length t s = elim (Bool-cases (skipped sel suppressexit t)) [
    | inl e ↦ rw e (omega arith)
    | inr e ↦
        let s' = next_entry t k s in
        rw e (entries-length s s'.finished (accumulate t s'.current) (next_entry-length t s))
  ]

  pub cumulate-length :
      (l : List Tstat) (s : Cumulated)
      → length (entries (cumulate sel suppressexit k l s)) ≤ length l + length (entries s)
  unfolding cumulate
  cumulate-length [] s = omega arith
  cumulate-length (t ∷ rest) s =
      omega
        (arith, cumulate-length rest (cumulate_one sel suppressexit k t s), cumulate_one-length t s)
