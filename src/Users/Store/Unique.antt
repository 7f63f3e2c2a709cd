-- ===== src/Users/Store/Unique.antt =====
-- The two uniqueness rules of the roster (user-management spec §5): no two rows have the same email,
-- and no two the same Client ID, in whatever case.
use xform.Base.{
  String, Bool, true, false, ◌||◌, List, [], ◌∷◌, ◌++◌, none, some, ◌==◌, string_eq, if◌then◌else◌,
  ◌≡◌, refl, arith, eq_iff, ◌⊎◌, inl, inr, Bool-cases, subst,
}
use xform.Base.Lists.{All}
use xform.Base.Text.{CaseTables}
use xform.Users.{RosterRow, Db}
use xform.Users.Store.{same}
use xform.Users.Store.Sql.{find, update, delete_from, any}

-- No two rows agree on `key`.
abbrev pub Apart {ℓ} : {R : Type ℓ} → (R → String) → List R → Type 0
Apart key [] = Unit
Apart key (r ∷ rows) = (any (λ q. key q == key r) rows ≡ false) × Apart key rows

module _ {ℓ} {R : Type ℓ} where
  any-update :
      (p q : R → Bool) (f : R → R) (rows : List R)
      → ((r : R) → q (f r) ≡ q r)
      → any q (update p f rows) ≡ any q rows
  unfolding any update
  any-update p q f [] h = refl
  any-update p q f (r ∷ rows) h = ground (arith, h r, any-update p q f rows h)

  any-delete_from :
      (p q : R → Bool) (rows : List R) → any q rows ≡ false → any q (delete_from p rows) ≡ false
  unfolding any delete_from
  any-delete_from p q [] h = refl
  any-delete_from p q (r ∷ rows) h = ground (arith, any-delete_from p q rows)

  any-append :
      (q : R → Bool) (rows more : List R) → any q (rows ++ more) ≡ (any q rows || any q more)
  unfolding any
  any-append q [] more = refl
  any-append q (r ∷ rows) more = ground (arith, any-append q rows more)

  pub Apart-update :
      (key : R → String) (p : R → Bool) (f : R → R) (rows : List R)
      → ((r : R) → key (f r) ≡ key r)
      → Apart key rows
      → Apart key (update p f rows)
  unfolding update
  Apart-update key p f [] h a = tt
  Apart-update key p f (r ∷ rows) h a =
      let e : key (if p r then f r else r) ≡ key r = ground (arith, h r) in
      let apart = any-update p (λ q. key q == key r) f rows (λ q. rw (h q)) in
      (rw (e, apart) a.0, Apart-update key p f rows h a.1)

  pub Apart-delete_from :
      (key : R → String) (p : R → Bool) (rows : List R)
      → Apart key rows
      → Apart key (delete_from p rows)
  unfolding delete_from
  Apart-delete_from key p [] a = tt
  Apart-delete_from key p (r ∷ rows) a =
      ground
        (arith, any-delete_from p (λ q. key q == key r) rows a.0, Apart-delete_from key p rows a.1)

  pub Apart-snoc :
      (key : R → String) (rows : List R) (new : R)
      → any (λ q. key q == key new) rows ≡ false
      → Apart key rows
      → Apart key (rows ++ new ∷ [])
  unfolding any
  Apart-snoc key [] new h a = ground arith
  Apart-snoc key (r ∷ rows) new h a = ground (
    arith,
    any-append (λ q. key q == key r) rows (new ∷ []),
    eq_iff (key r) (key new),
    eq_iff (key new) (key r),
    Apart-snoc key rows new,
  )

  pub any-find-none : (p : R → Bool) (rows : List R) → find p rows ≡ none → any p rows ≡ false
  unfolding find any
  any-find-none p [] h = refl
  any-find-none p (r ∷ rows) h = ground (arith, any-find-none p rows)

  pub any-find-some :
      (p : R → Bool) (rows : List R) (r : R) → find p rows ≡ some r → any p rows ≡ true
  unfolding find any
  any-find-some p [] r h = cc h
  any-find-some p (q ∷ rows) r h = ground (arith, any-find-some p rows r)

  -- A row that was found does not pass a test that no row passes.
  pub find-any_none :
      (p q : R → Bool) (rows : List R) (r : R)
      → find p rows ≡ some r
      → any q rows ≡ false
      → q r ≡ false
  unfolding find any
  find-any_none p q [] r h k = cc h
  find-any_none p q (s ∷ rows) r h k = elim (Bool-cases (p s)) [
    | inl here ↦ let e : some s ≡ some r = rw here at h in ground (arith, e)
    | inr later ↦ find-any_none p q rows r (rw later at h) (ground (arith, k))
  ]

-- At most one row passes the test.
abbrev pub One : (RosterRow → Bool) → List RosterRow → Type 0
One p [] = Unit
One p (r ∷ rows) = (p r ≡ true → any p rows ≡ false) × One p rows

-- Rewriting the Client ID of the one row that `p` picks keeps the IDs apart, if no other row has the
-- new ID.
module _ (lower : String → String) (p : RosterRow → Bool) (set : RosterRow → RosterRow)
    (id : String) where
  abbrev clashes : RosterRow → Bool
  clashes r = lower r.client_id == lower id

  abbrev Picked : List RosterRow → Type 0
  Picked = All (λ r. clashes r ≡ true → p r ≡ true)

  any-update_id :
      (r : RosterRow) (rows : List RosterRow)
      → ((q : RosterRow) → (set q).client_id ≡ id)
      → clashes r ≡ false
      → any (λ q. lower q.client_id == lower r.client_id) rows ≡ false
      → any (λ q. lower q.client_id == lower r.client_id) (update p set rows) ≡ false
  unfolding any update
  any-update_id r [] h c a = refl
  any-update_id r (q ∷ rows) h c a = ground (
    arith,
    h q,
    eq_iff (lower r.client_id) (lower id),
    eq_iff (lower id) (lower r.client_id),
    any-update_id r rows h c,
  )

  update_none : (rows : List RosterRow) → any p rows ≡ false → update p set rows ≡ rows
  unfolding any update
  update_none [] h = refl
  update_none (r ∷ rows) h = ground (arith, update_none rows)

  none_clash :
      (rows : List RosterRow)
      → any p rows ≡ false
      → Picked rows
      → any (λ q. lower q.client_id == lower id) rows ≡ false
  unfolding any
  none_clash [] h c = refl
  none_clash (r ∷ rows) h c = ground (arith, c.0, none_clash rows)

  pub Apart-update_id :
      (rows : List RosterRow)
      → ((q : RosterRow) → (set q).client_id ≡ id)
      → One p rows
      → Picked rows
      → Apart (λ r. lower r.client_id) rows
      → Apart (λ r. lower r.client_id) (update p set rows)
  unfolding update
  Apart-update_id [] h one c a = tt
  Apart-update_id (r ∷ rows) h one c a = elim (Bool-cases (p r)) [
    | inl hit ↦ rw (hit, update_none rows (one.0 hit), h) (none_clash rows (one.0 hit) c.1, a.1)
    | inr miss ↦
        rw miss
          (any-update_id r rows h (ground (arith, c.0)) a.0, Apart-update_id rows h one.1 c.1 a.1)
  ]

module _ (u : CaseTables) (lower : String → String) where
  pub record IsUnique (db : Db) : Type 0 where
    pub emails : Apart (λ r. lower r.email) db.roster
    pub ids : Apart (λ r. lower r.client_id) db.roster

  pub One-same :
      (email : String) (rows : List RosterRow)
      → Apart (λ r. lower r.email) rows
      → One (λ r. same lower r.email email) rows
  unfolding any
  One-same email [] a = tt
  One-same email (r ∷ rows) a = (
    λ h.
        subst (λ x. any (λ q. lower q.email == x) rows ≡ false)
          ((eq_iff (lower r.email) (lower email)).0 h) a.0,
    One-same email rows a.1,
  )

  no_clash :
      (id email : String) (rows : List RosterRow)
      → any (λ q. lower q.client_id == lower id) rows ≡ false
      → All (λ r. same lower r.client_id id ≡ true → same lower r.email email ≡ true) rows
  unfolding any
  no_clash id email [] h = tt
  no_clash id email (r ∷ rows) h = (λ c. ground arith, no_clash id email rows (ground arith))

  -- The check of the Client ID: nobody has it, or the row that has it is the one that is revived.
  pub Picked-find :
      (id email : String) (rows : List RosterRow)
      → Apart (λ r. lower r.client_id) rows
      → (find (λ r. same lower r.client_id id) rows ≡ none)
        ⊎ ((t : RosterRow) × (find (λ r. same lower r.client_id id) rows ≡ some t)
            × (same lower t.email email ≡ true))
      → All (λ r. same lower r.client_id id ≡ true → same lower r.email email ≡ true) rows
  unfolding find any
  Picked-find id email [] a f = tt
  Picked-find id email (r ∷ rows) a f = elim (Bool-cases (same lower r.client_id id)) [
    | inl hit ↦
        let e = (eq_iff (lower r.client_id) (lower id)).0 hit in
        (
          λ c. ground (arith, f),
          no_clash id email rows
              (subst (λ x. any (λ q. lower q.client_id == x) rows ≡ false) e a.0),
        )
    | inr miss ↦ (λ c. ground arith, Picked-find id email rows a.1 (rw miss at f))
  ]
