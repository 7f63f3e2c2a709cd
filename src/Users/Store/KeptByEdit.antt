-- ===== src/Users/Store/KeptByEdit.antt =====
-- EditRosterUser and the flags keep the two uniqueness rules.
use xform.Base.{
  ℕ, String, Bool, true, false, ◌&&◌, not, List, [], ◌∷◌, Option, none, some, ◌==◌, string_eq, ◌≡◌,
  refl, subst, arith, eq_iff, eq_refl, inl, inr, Bool-cases,
}
use xform.Base.Lists.{All}
use xform.Base.Text.{CaseTables, equal_fold}
use xform.XrayConfig.{Label}
use xform.Users.{RosterEdit, RosterRow, Db}
use xform.Users.Store.{same, roster_record_where, record_of, record_or_missing}
use xform.Users.Store.Sql.{find, any}
use xform.Users.Store.Edit.{
  edit_roster_user, edit_record, edit_found, write_edit, store_edit, final_id, id_taken,
}
use xform.Users.Store.Unique.{Apart, Apart-update, Apart-update_id, One, IsUnique, any-find-none}

-- Rows that agree with `r0` on a key that is apart have the email of `r0`.
abbrev SameRow : (RosterRow → String) → RosterRow → List RosterRow → Type 0
SameRow key r0 = All (λ r. (key r == key r0) ≡ true → (r.email == r0.email) ≡ true)

module _ (key : RosterRow → String) (r0 : RosterRow) where
  SameRow-vacuous :
      (rows : List RosterRow) → any (λ q. key q == key r0) rows ≡ false → SameRow key r0 rows
  unfolding any
  SameRow-vacuous [] h = tt
  SameRow-vacuous (r ∷ rows) h = (λ c. ground arith, SameRow-vacuous rows (ground arith))

  any-find :
      (p : RosterRow → Bool) (rows : List RosterRow)
      → find p rows ≡ some r0
      → any (λ q. key q == key r0) rows ≡ true
  unfolding find any
  any-find p [] h = cc
  any-find p (r ∷ rows) h = ground (arith, any-find p rows, eq_refl (key r))

  SameRow-find :
      (p : RosterRow → Bool) (rows : List RosterRow)
      → find p rows ≡ some r0
      → Apart key rows
      → SameRow key r0 rows
  unfolding find any
  SameRow-find p [] h a = tt
  SameRow-find p (r ∷ rows) h a = elim (Bool-cases (p r)) [
    | inl hit ↦
        let e : r ≡ r0 = ground arith in
        (
          λ c. rw e (eq_refl r0.email),
          SameRow-vacuous rows (subst (λ x. any (λ q. key q == key x) rows ≡ false) e a.0),
        )
    | inr miss ↦
        let later : find p rows ≡ some r0 = ground arith in
        (λ c. absurd (apart_at r rows c a.0 (any-find p rows later)), SameRow-find p rows later a.1)
  ]
    where
      apart_at :
          (r : RosterRow) (rows : List RosterRow)
          → (key r == key r0) ≡ true
          → any (λ q. key q == key r) rows ≡ false
          → any (λ q. key q == key r0) rows ≡ true
          → ⊥
      apart_at r rows c a found =
          let e = (eq_iff (key r) (key r0)).0 c in
          let a' = subst (λ x. any (λ q. key q == x) rows ≡ false) e a in cc (a', found)

One-exact :
    (lower : String → String) (email : String) (rows : List RosterRow)
    → Apart (λ r. lower r.email) rows
    → One (λ r. r.email == email) rows
unfolding any
One-exact lower email [] a = tt
One-exact lower email (r ∷ rows) a =
    (λ h. none_exact rows (ground (arith, eq_iff r.email email)), One-exact lower email rows a.1)
  where
    none_exact :
        (rows : List RosterRow)
        → any (λ q. lower q.email == lower email) rows ≡ false
        → any (λ q. q.email == email) rows ≡ false
    none_exact [] h = refl
    none_exact (q ∷ rows) h =
        ground (arith, eq_iff q.email email, eq_refl (lower email), none_exact rows)

module _ (u : CaseTables) (lower : String → String) where
  abbrev Holders : String → RosterRow → List RosterRow → Type 0
  Holders id r0 = All (λ r. (lower r.client_id == lower id) ≡ true → (r.email == r0.email) ≡ true)

  Holders-check :
      (id : String) (r0 : RosterRow) (rows : List RosterRow)
      → any (λ r. same lower r.client_id id && not (same lower r.email r0.email)) rows ≡ false
      → SameRow (λ r. lower r.email) r0 rows
      → Holders id r0 rows
  unfolding any
  Holders-check id r0 [] h s = tt
  Holders-check id r0 (r ∷ rows) h s =
      (λ c. s.0 (ground arith), Holders-check id r0 rows (ground arith) s.1)

  -- Whoever holds the Client ID that an edit ends with is the edited row.
  Holders-final_id :
      (r0 : RosterRow) (id : Option String) (p : RosterRow → Bool) (db : Db)
      → find p db.roster ≡ some r0
      → id_taken u lower (record_of r0) id db ≡ false
      → IsUnique u lower db
      → Holders (final_id u lower (record_of r0) id) r0 db.roster
  Holders-final_id r0 none p db f t k = SameRow-find (λ r. lower r.client_id) r0 p db.roster f k.ids
  Holders-final_id r0 (some id) p db f t k = elim (Bool-cases (equal_fold u r0.client_id id)) [
    | inl own ↦ rw own (SameRow-find (λ r. lower r.client_id) r0 p db.roster f k.ids)
    | inr other ↦ rw other (
        Holders-check id r0 db.roster (any-find-none _ db.roster (ground arith))
          (SameRow-find (λ r. lower r.email) r0 p db.roster f k.emails))
  ]

  store_edit-IsUnique :
      (r0 : RosterRow) (id : String) (inbounds : List String) (labels : List Label) (now : ℕ)
      (db : Db)
      → Holders id r0 db.roster
      → IsUnique u lower db
      → IsUnique u lower (store_edit u lower (record_of r0) id inbounds labels now db)
  unfolding store_edit
  store_edit-IsUnique r0 id inbounds labels now db h k = record {
    emails = Apart-update _ _ _ db.roster (λ q. refl) k.emails;
    ids =
        Apart-update_id lower (λ r. r.email == r0.email) _ id db.roster (λ q. refl)
          (One-exact lower r0.email db.roster k.emails) h k.ids;
  }

  write_edit-IsUnique :
      (same_state : Bool) (r0 : RosterRow) (edit : RosterEdit) (now : ℕ) (db : Db)
      → Holders (final_id u lower (record_of r0) edit.client_id) r0 db.roster
      → IsUnique u lower db
      → IsUnique u lower (write_edit u lower same_state (record_of r0) edit now db).1
  unfolding write_edit
  write_edit-IsUnique true r0 edit now db h k = k
  write_edit-IsUnique false r0 edit now db h k =
      unfold store_edit in store_edit-IsUnique r0 _ _ edit.labels now db h k

  edit_record-IsUnique :
      (r0 : RosterRow) (edit : RosterEdit) (p : RosterRow → Bool) (now : ℕ) (db : Db)
      → find p db.roster ≡ some r0
      → IsUnique u lower db
      → IsUnique u lower (edit_record u lower (record_of r0) edit now db).1
  unfolding edit_record
  edit_record-IsUnique r0 edit p now db f k =
      elim (Bool-cases (id_taken u lower (record_of r0) edit.client_id db)) [
        | inl taken ↦ rw taken k
        | inr free ↦ rw free (
            write_edit-IsUnique _ r0 edit now db (Holders-final_id r0 edit.client_id p db f free k)
              k)
      ]

  found-IsUnique :
      (o : Option RosterRow) (edit : RosterEdit) (p : RosterRow → Bool) (now : ℕ) (db : Db)
      → find p db.roster ≡ o
      → IsUnique u lower db
      → IsUnique u lower (edit_found u lower edit now db (record_or_missing o)).1
  found-IsUnique none edit p now db f k = k
  found-IsUnique (some r0) edit p now db f k = edit_record-IsUnique r0 edit p now db f k

  -- EditRosterUser keeps the roster without two rows of the same email or the same Client ID.
  pub edit_roster_user-IsUnique :
      (email : String) (edit : RosterEdit) (now : ℕ) (db : Db)
      → IsUnique u lower db
      → IsUnique u lower (edit_roster_user u lower email edit now db).1
  unfolding edit_roster_user roster_record_where
  edit_roster_user-IsUnique email edit now db k = found-IsUnique _ edit _ now db refl k
