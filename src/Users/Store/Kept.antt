-- ===== src/Users/Store/Kept.antt =====
-- AddRosterUser and the two uniqueness rules.
use xform.Base.{
  ℕ, String, Bool, true, false, ◌&&◌, not, Option, none, some, string_eq, ◌≡◌, refl, arith, ◌⊎◌,
  inl, inr, Option-cases,
}
use xform.Base.Text.{CaseTables, equal_fold}
use xform.Users.{Result, ok, err, NewRosterUser, RosterRow, Db}
use xform.Users.Store.{same}
use xform.Users.Store.Sql.{find, any}
use xform.Users.Store.Add.{
  add_roster_user, store_new, add_checks, existing_row, id_conflict, stored,
}
use xform.Users.Store.Unique.{
  Apart-update, Apart-snoc, Apart-update_id, One-same, Picked-find, IsUnique, any-find-none,
  find-any_none,
}

module _ (u : CaseTables) (lower : String → String) where
  -- A row whose email EqualFold takes for another text and `lower` does not.
  abbrev pub differs : String → RosterRow → Bool
  differs email r = equal_fold u r.email email && not (same lower r.email email)

  id_holder : NewRosterUser → Db → Option RosterRow
  id_holder user db = find (λ r. same lower r.client_id user.client_id) db.roster

  insert-IsUnique :
      (user : NewRosterUser) (now : ℕ) (db : Db)
      → existing_row u lower user.email db ≡ none
      → id_holder user db ≡ none
      → IsUnique u lower db
      → IsUnique u lower (store_new u lower user now none db)
  unfolding store_new id_holder
  insert-IsUnique user now db e h k = record {
    emails = Apart-snoc _ db.roster _ (any-find-none _ db.roster e) k.emails;
    ids = Apart-snoc _ db.roster _ (any-find-none _ db.roster h) k.ids;
  }

  revive-IsUnique :
      (user : NewRosterUser) (now : ℕ) (r : RosterRow) (db : Db)
      → r.disabled ≡ true
      → id_conflict u lower user.email true (id_holder user db) ≡ false
      → any (differs user.email) db.roster ≡ false
      → IsUnique u lower db
      → IsUnique u lower (store_new u lower user now (some r) db)
  unfolding store_new id_holder
  revive-IsUnique user now r db d c clear k = rw d (record {
    emails = Apart-update _ _ _ db.roster (λ q. refl) k.emails;
    ids =
        Apart-update_id lower (λ q. same lower q.email user.email) _ user.client_id db.roster
          (λ q. refl) (One-same u lower user.email db.roster k.emails)
          (Picked-find u lower user.client_id user.email db.roster k.ids holder) k.ids;
  })
    where
      holder :
          (find (λ q. same lower q.client_id user.client_id) db.roster ≡ none)
          ⊎ ((t : RosterRow) × (find (λ q. same lower q.client_id user.client_id) db.roster
                ≡ some t)
              × (same lower t.email user.email ≡ true))
      holder = elim (Option-cases (find (λ q. same lower q.client_id user.client_id) db.roster)) [
        | inl e ↦ inl e
        | inr (t, e) ↦
            let folded : equal_fold u t.email user.email ≡ true = ground (arith, c) in
            let agrees = find-any_none _ (differs user.email) db.roster t e clear in
            inr (t, e, ground arith)
      ]

  checked-IsUnique :
      (user : NewRosterUser) (now : ℕ) (db : Db)
      → add_checks u lower user db ≡ ok tt
      → any (differs user.email) db.roster ≡ false
      → IsUnique u lower db
      → IsUnique u lower (store_new u lower user now (existing_row u lower user.email db) db)
  unfolding add_checks id_holder
  checked-IsUnique user now db c clear k =
      elim (Option-cases (existing_row u lower user.email db)) [
        | inl e ↦ rw e (insert-IsUnique user now db e (ground (arith, e)) k)
        | inr (r, e) ↦
            rw e (revive-IsUnique user now r db (ground (arith, e)) (ground (arith, e)) clear k)
      ]

  stored-IsUnique :
      (fault : Option String) (user : NewRosterUser) (now : ℕ) (db : Db)
      (checks : Result (Unit {0}))
      → add_checks u lower user db ≡ checks
      → any (differs user.email) db.roster ≡ false
      → IsUnique u lower db
      → IsUnique u lower (stored u lower fault user now db checks).1
  stored-IsUnique fault user now db (err e) c clear k = k
  stored-IsUnique (some message) user now db (ok tt) c clear k = k
  stored-IsUnique none user now db (ok tt) c clear k = checked-IsUnique user now db c clear k

  -- AddRosterUser keeps the roster without two rows of the same email or the same Client ID, if it
  -- had none before and no row of it has an email that EqualFold takes for the request's while the
  -- database's `lower` tells the two apart; also where the database fails to run or to commit the
  -- transaction.
  pub add_roster_user-IsUnique :
      (fault : Option String) (user : NewRosterUser) (now : ℕ) (db : Db)
      → any (differs user.email) db.roster ≡ false
      → IsUnique u lower db
      → IsUnique u lower (add_roster_user u lower fault user now db).1
  unfolding add_roster_user
  add_roster_user-IsUnique fault user now db clear k =
      stored-IsUnique fault user now db _ refl clear k
