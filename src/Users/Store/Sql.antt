-- ===== src/Users/Store/Sql.antt =====
-- The statements of SQL that the store uses, over a table as the list of its rows.
use xform.Base.{
  String, Bool, true, false, ◌&&◌, ◌||◌, not, List, [], ◌∷◌, Option, none, some, Eq, ◌==◌,
  if◌then◌else◌,
}
use xform.Base.Lists.{keep}
use xform.Base.Text.{text_le}

module _ {ℓ} {R : Type ℓ} where
  -- SELECT … WHERE p: the first row
  unfoldable pub find : (R → Bool) → List R → Option R
  find p [] = none
  find p (r ∷ rows) = if p r then some r else find p rows

  -- UPDATE … SET f WHERE p
  unfoldable pub update : (R → Bool) → (R → R) → List R → List R
  update p f [] = []
  update p f (r ∷ rows) = (if p r then f r else r) ∷ update p f rows

  -- DELETE … WHERE p
  unfoldable pub delete_from : (R → Bool) → List R → List R
  unfolding keep
  delete_from p = keep (λ r. not (p r))

  -- EXISTS (SELECT 1 … WHERE p)
  unfoldable pub any : (R → Bool) → List R → Bool
  any p [] = false
  any p (r ∷ rows) = p r || any p rows

  sorted_insert : (R → String) → R → List R → List R
  sorted_insert key r [] = r ∷ []
  sorted_insert key r (q ∷ rows) =
      let later = q ∷ sorted_insert key r rows in
      if text_le (key r) (key q) then r ∷ q ∷ rows else later

  -- ORDER BY a text column
  unfoldable pub order_by : (R → String) → List R → List R
  unfolding sorted_insert
  order_by key [] = []
  order_by key (r ∷ rows) = sorted_insert key r (order_by key rows)

-- slices.Equal
unfoldable pub list_beq {ℓ} : {A : Type ℓ} ⦃e : Eq A⦄ → List A → List A → Bool
list_beq [] [] = true
list_beq [] (y ∷ ys) = false
list_beq (x ∷ xs) [] = false
list_beq (x ∷ xs) (y ∷ ys) = x == y && list_beq xs ys
