-- ===== src/Users/Store/Add.antt =====
-- internal/users/store.go: AddRosterUser. `fault` is the error of the first statement of the
-- transaction that the database fails to run after the checks, or of its commit; `none` if there is
-- no such error.
use xform.Base.{
  ℕ, String, Bool, false, ◌||◌, not, List, [], ◌∷◌, ◌++◌, Option, none, some, string_eq,
  if◌then◌else◌,
}
use xform.Base.Text.{CaseTables, equal_fold}
use xform.Users.{
  email_taken, client_id_taken, failure, Result, ok, err, ◌>>◌, refuse_if, NewRosterUser,
  RosterRecord, RosterRow, Db,
}
use xform.Users.Store.{same, upsert_labels}
use xform.Users.Store.Sql.{find, update}

module _ (u : CaseTables) (lower : String → String) where
  -- The row of the email, in whatever case.
  abbrev pub existing_row : String → Db → Option RosterRow
  existing_row email db = find (λ r. same lower r.email email) db.roster

  abbrev pub is_disabled : Option RosterRow → Bool
  is_disabled none = false
  is_disabled (some r) = r.disabled

  abbrev pub is_taken : Option RosterRow → Bool
  is_taken none = false
  is_taken (some r) = r.deleting || not r.disabled

  -- Another holder of the Client ID, or the user's own row unless that is disabled.
  abbrev pub id_conflict : String → Bool → Option RosterRow → Bool
  id_conflict email revives none = false
  id_conflict email revives (some taken) = not (equal_fold u taken.email email) || not revives

  abbrev pub new_row : NewRosterUser → ℕ → RosterRow
  new_row user stamp = record {
    email = user.email;
    client_id = user.client_id;
    inbounds = user.inbounds;
    disabled = false;
    deleting = false;
    created_at = stamp;
    updated_at = stamp;
  }

  unfoldable pub revive : NewRosterUser → ℕ → List RosterRow → List RosterRow
  revive user stamp =
      update (λ r. same lower r.email user.email)
        (λ r. record r {
          client_id = user.client_id;
          inbounds = user.inbounds;
          disabled = false;
          updated_at = stamp;
        })

  abbrev pub created : Option RosterRow → ℕ → ℕ
  created none stamp = stamp
  created (some r) stamp = if r.disabled then r.created_at else stamp

  -- The statements after the checks.
  unfoldable pub store_new : NewRosterUser → ℕ → Option RosterRow → Db → Db
  unfolding revive
  store_new user stamp existing db = record db {
    roster =
        if is_disabled existing
        then revive user stamp db.roster
        else db.roster ++ new_row user stamp ∷ [];
    users = upsert_labels user.email user.labels stamp db.users;
  }

  unfoldable pub add_checks : NewRosterUser → Db → Result (Unit {0})
  add_checks user db = do
    let existing = existing_row user.email db
    refuse_if (is_taken existing) email_taken
    refuse_if
        (id_conflict user.email (is_disabled existing)
          (find (λ r. same lower r.client_id user.client_id) db.roster))
        client_id_taken

  -- The end of the transaction: the written database, or after a fault the one before it.
  abbrev pub committed : Option String → RosterRecord → Db → Db → Result RosterRecord × Db
  committed none rec written db = (ok rec, written)
  committed (some message) rec written db = (err (failure message), db)

  abbrev pub stored :
      Option String → NewRosterUser → ℕ → Db → Result (Unit {0}) → Result RosterRecord × Db
  stored fault user stamp db (err e) = (err e, db)
  stored fault user stamp db (ok _) =
      committed fault
        (record {
          email = user.email;
          client_id = user.client_id;
          inbounds = user.inbounds;
          created_at = created (existing_row user.email db) stamp;
          updated_at = stamp;
        })
        (store_new user stamp (existing_row user.email db) db) db

  unfoldable pub add_roster_user : Option String → NewRosterUser → ℕ → Db → Result RosterRecord × Db
  add_roster_user fault user stamp db = stored fault user stamp db (add_checks user db)
