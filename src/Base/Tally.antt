-- ===== src/Base/Tally.antt =====
-- A Go map that counts keys: m[k]++, its counts, and the occurrences that they are.
use Prim.Native.Nat.{ℕ, suc, ◌+◌}
use mathlib.Core.Path.{◌≡◌, refl}
use mathlib.Core.Option.{Option, none, some}
use mathlib.Core.List.{List, [], ◌∷◌}
use native.Mathlib.Omega.{arith}
use xform.Base.Tests.{Eq, ◌==◌, if◌then◌else◌}
use xform.Base.Assoc.{lookup, insert, lookup-insert}

abbrev pub or_zero : Option ℕ → ℕ
or_zero none = 0
or_zero (some n) = n

module _ {ℓ} {K : Type ℓ} ⦃e : Eq K⦄ where
  -- m[k], zero for a key that is not there
  unfoldable pub count_in : K → List (K × ℕ) → ℕ
  count_in k m = or_zero (lookup k m)

  -- m[k]++
  unfoldable pub increment : K → List (K × ℕ) → List (K × ℕ)
  unfolding count_in
  increment k m = insert k (count_in k m + 1) m

  -- How often a key stands in a list.
  unfoldable pub occurrences : K → List K → ℕ
  occurrences k [] = 0
  occurrences k (j ∷ js) = if j == k then suc (occurrences k js) else occurrences k js

module _ {ℓ} {K : Type ℓ} ⦃e : Eq K⦄ where
  pub count_in-increment :
      (k j : K) (m : List (K × ℕ))
      → count_in j (increment k m) ≡ (if k == j then suc (count_in j m) else count_in j m)
  unfolding count_in increment
  count_in-increment k j m = ground (arith, lookup-insert k j (count_in k m + 1) m, e.test_iff k j)

  pub count_in-nil : (k : K) → count_in k [] ≡ 0
  unfolding count_in lookup
  count_in-nil k = refl
