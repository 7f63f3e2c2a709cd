-- ===== src/Reconcile.antt =====
-- internal/reconcile/reconcile.go: one raw counter direction reconciled into a durable total and a
-- speed. A `uint64` is a number below 2^64 with its wrap-around written out; a `time.Duration` is
-- the two's complement pattern of its int64. The division of two floats at the end of `Speed` is
-- the parameter `rate` (bytes, nanoseconds).
pub mod Totals
pub mod Window
use xform.Base.{
  ℕ, zero, suc, ◌+◌, ◌-◌, ◌%◌, ◌^◌, Bool, true, false, ◌||◌, ◌==◌, nat_eq, leb, not, if◌then◌else◌,
}

abbrev pub word : ℕ
word = 2 ^ 64

-- a + b on uint64, and on the patterns of int64
abbrev pub add64 : ℕ → ℕ → ℕ
add64 a b = (a + b) % word

pub record DeltaSample : Type 0 where
  pub bytes : ℕ
  pub elapsed : ℕ

-- `window` is an array of length 2: the slots of index 0 and 1.
pub record Tracker : Type 0 where
  pub credit_baseline : Bool
  pub seen : Bool
  pub last_raw : ℕ
  pub last_delta : ℕ
  pub total : ℕ
  pub slot0 : DeltaSample
  pub slot1 : DeltaSample
  pub samples : ℕ

abbrev pub zero_sample : DeltaSample
zero_sample = record { bytes = 0; elapsed = 0 }

abbrev pub new_tracker : Bool → Tracker
new_tracker credit = record {
  credit_baseline = credit;
  seen = false;
  last_raw = 0;
  last_delta = 0;
  total = 0;
  slot0 = zero_sample;
  slot1 = zero_sample;
  samples = 0;
}

-- t.window[i%2] and its assignment
window_at : Tracker → ℕ → DeltaSample
window_at t i = if i % 2 == 0 then t.slot0 else t.slot1

set_window : Tracker → ℕ → DeltaSample → Tracker
set_window t i d = if i % 2 == 0 then record t { slot0 = d } else record t { slot1 = d }

-- The counter's movement between two readings: a smaller reading is a restart.
unfoldable pub reading_delta : ℕ → ℕ → ℕ
reading_delta last raw = if leb last raw then raw - last else raw

unfoldable pub baseline : Tracker → ℕ → Tracker
baseline t raw =
    let t' = record t { seen = true; last_raw = raw } in
    if t.credit_baseline then record t' { total = raw } else t'

unfoldable pub observe : Tracker → ℕ → ℕ → Tracker
unfolding set_window reading_delta
observe t raw elapsed =
    let delta = reading_delta t.last_raw raw in
    let t' = record t { last_raw = raw; total = add64 t.total delta; last_delta = delta } in
    let t'' = set_window t' t'.samples (record { bytes = delta; elapsed = elapsed }) in
    record t'' { samples = t''.samples + 1 }

unfoldable pub add : Tracker → ℕ → ℕ → Tracker
unfolding baseline observe
add t raw elapsed = if not t.seen then baseline t raw else observe t raw elapsed

-- The loop of `Speed`, `rounds` rounds from index i on.
sum_window : Tracker → ℕ → ℕ → DeltaSample → DeltaSample
unfolding window_at
sum_window t zero i acc = acc
sum_window t (suc rounds) i acc = sum_window t rounds (i + 1) (record {
  bytes = add64 acc.bytes (window_at t i).bytes;
  elapsed = add64 acc.elapsed (window_at t i).elapsed;
})

-- d <= 0 on an int64 pattern
abbrev pub not_positive : ℕ → Bool
not_positive d = d == 0 || leb (2 ^ 63) d

module _ (rate : ℕ → ℕ → ℕ) where
  unfoldable pub speed : Tracker → ℕ
  unfolding sum_window
  speed t =
      if t.samples == 0
      then 0
      else (let first = t.samples - 2 in
          let sum = sum_window t (t.samples - first) first zero_sample in
          if not_positive sum.elapsed then 0 else rate sum.bytes sum.elapsed)
