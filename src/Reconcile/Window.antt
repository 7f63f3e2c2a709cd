-- ===== src/Reconcile/Window.antt =====
-- What `Speed` reads from the ring of the last two samples.
use xform.Base.{ℕ, ◌+◌, ◌-◌, ◌≡◌, ◌∙◌, true, arith, if◌then◌else◌}
use xform.Reconcile.{
  Tracker, DeltaSample, add64, not_positive, reading_delta, window_at, sum_window, zero_sample, add,
  speed,
}
use xform.Reconcile.Totals.{seen-add, last_raw-add}

-- One round of the loop on a fresh sum, and the second on top of it.
sum_window_two :
    (t : Tracker) (i : ℕ) (a b : DeltaSample)
    → window_at t i ≡ a
    → window_at t (i + 1) ≡ b
    → sum_window t 2 i zero_sample
      ≡ record { bytes = add64 a.bytes b.bytes; elapsed = add64 a.elapsed b.elapsed }
unfolding sum_window
sum_window_two t i a b first second = ground arith

speed_of_two :
    (rate : ℕ → ℕ → ℕ) (t : Tracker) (n : ℕ) (a b : DeltaSample)
    → t.samples ≡ n + 2
    → window_at t n ≡ a
    → window_at t (n + 1) ≡ b
    → speed rate t ≡ (
        if not_positive (add64 a.elapsed b.elapsed)
        then 0
        else rate (add64 a.bytes b.bytes) (add64 a.elapsed b.elapsed))
unfolding speed
speed_of_two rate t n a b count first second =
    let two : t.samples - (t.samples - 2) ≡ 2 = omega arith in
    let start : t.samples - 2 ≡ n = omega arith in
    let sum : sum_window t (t.samples - (t.samples - 2)) (t.samples - 2) zero_sample
        ≡ record { bytes = add64 a.bytes b.bytes; elapsed = add64 a.elapsed b.elapsed } =
      rw (two, start) (sum_window_two t n a b first second) in
    ground (arith, sum)

module _ (t : Tracker) (raw elapsed : ℕ) (seen : t.seen ≡ true) where
  samples-add : (add t raw elapsed).samples ≡ t.samples + 1
  unfolding add
  samples-add = ground arith

  -- The newest sample stands at the old count; the slot of the other parity keeps its sample.
  window_at-add_new :
      window_at (add t raw elapsed) t.samples
      ≡ record { bytes = reading_delta t.last_raw raw; elapsed = elapsed }
  unfolding add window_at
  window_at-add_new = ground arith

  window_at-add_old : (i : ℕ) → t.samples ≡ i + 1 → window_at (add t raw elapsed) i ≡ window_at t i
  unfolding add window_at
  window_at-add_old i next = ground arith

-- After any two polls of a tracker that has its baseline, the speed is the rate of these two polls
-- alone: their deltas over their windows, or 0 where the windows do not add up to a positive time.
pub speed-add-add :
    (rate : ℕ → ℕ → ℕ) (t : Tracker) (raw raw' elapsed elapsed' : ℕ)
    → t.seen ≡ true
    → let bytes = add64 (reading_delta t.last_raw raw) (reading_delta raw raw') in
      let time = add64 elapsed elapsed' in
      speed rate (add (add t raw elapsed) raw' elapsed')
      ≡ (if not_positive time then 0 else rate bytes time)
speed-add-add rate t raw raw' elapsed elapsed' s =
    let u = add t raw elapsed in
    let seen' = seen-add t raw elapsed s in
    let next : u.samples ≡ t.samples + 1 = samples-add t raw elapsed s in
    speed_of_two rate (add u raw' elapsed') t.samples
      (record { bytes = reading_delta t.last_raw raw; elapsed = elapsed })
      (record { bytes = reading_delta raw raw'; elapsed = elapsed' })
      (omega (arith, samples-add u raw' elapsed' seen', next))
      (window_at-add_old u raw' elapsed' seen' t.samples next ∙ window_at-add_new t raw elapsed s)
      (cc (window_at-add_new u raw' elapsed' seen', next, last_raw-add t raw elapsed s))
