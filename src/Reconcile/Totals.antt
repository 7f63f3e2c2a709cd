-- ===== src/Reconcile/Totals.antt =====
-- The reconciled total of `Tracker` against the counter's epochs.
use xform.Base.{
  ℕ, ◌+◌, ◌-◌, ◌%◌, ◌<◌, ◌≤◌, ◌≡◌, refl, Bool, true, false, List, [], ◌∷◌, arith, ltb, leb,
  if◌then◌else◌, ◌∙◌,
}
use xform.Reconcile.{Tracker, new_tracker, word, add}

-- One poll: the raw reading and the time since the last one.
abbrev pub Reading : Type 0
Reading = ℕ × ℕ

unfoldable pub run : Tracker → List Reading → Tracker
run t [] = t
run t ((raw, elapsed) ∷ rest) = run (add t raw elapsed) rest

-- The traffic that the readings show, as an unbounded number: the sum of the last reading of every
-- epoch of xray, where a reading below the one before it opens an epoch.
unfoldable pub epoch_peaks : ℕ → List Reading → ℕ
epoch_peaks last [] = last
epoch_peaks last ((raw, elapsed) ∷ rest) =
    let later = epoch_peaks raw rest in if ltb raw last then last + later else later

le-epoch_peaks : (last : ℕ) (rest : List Reading) → last ≤ epoch_peaks last rest
unfolding epoch_peaks
le-epoch_peaks last [] = omega arith
le-epoch_peaks last ((raw, elapsed) ∷ rest) = ground (arith, le-epoch_peaks raw rest)

module _ (t : Tracker) (raw elapsed : ℕ) (seen : t.seen ≡ true) where
  pub seen-add : (add t raw elapsed).seen ≡ true
  unfolding add
  seen-add = ground arith

  pub last_raw-add : (add t raw elapsed).last_raw ≡ raw
  unfolding add
  last_raw-add = ground arith

  pub total-add :
      (add t raw elapsed).total
      ≡ (t.total + (if leb t.last_raw raw then raw - t.last_raw else raw)) % word
  unfolding add
  total-add = ground arith

run-observed :
    (t : Tracker) (rest : List Reading)
    → t.seen ≡ true
    → t.total < word
    → (run t rest).total ≡ (t.total + (epoch_peaks t.last_raw rest - t.last_raw)) % word
unfolding run epoch_peaks
run-observed t [] s h = omega arith
run-observed t ((raw, elapsed) ∷ rest) s h =
    let ih =
      run-observed (add t raw elapsed) rest (seen-add t raw elapsed s)
        (omega (arith, total-add t raw elapsed s)) in
    ground
      (arith, ih, le-epoch_peaks raw rest, total-add t raw elapsed s, last_raw-add t raw elapsed s)

-- Crediting the baseline, the total after any polls is the sum of the last readings of xray's
-- epochs, on a uint64; without credit it is that sum less the first reading.
pub run-total :
    (credit : Bool) (raw elapsed : ℕ) (rest : List Reading)
    → raw < word
    → (run (new_tracker credit) ((raw, elapsed) ∷ rest)).total
      ≡ (if credit then epoch_peaks raw rest else epoch_peaks raw rest - raw) % word
unfolding run add
run-total true raw elapsed rest h =
    run-observed _ rest refl h ∙ omega (arith, le-epoch_peaks raw rest)
run-total false raw elapsed rest h =
    run-observed _ rest refl (omega arith) ∙ omega (arith, le-epoch_peaks raw rest)
