-- ===== src/Users/Store/Edit.antt =====
-- internal/users/store.go: EditRosterUser.
use xform.Base.{
  ℕ, String, Bool, true, false, ◌&&◌, not, List, Option, none, some, ◌==◌, string_eq, if◌then◌else◌,
}
use xform.Base.Text.{CaseTables, equal_fold}
use xform.XrayConfig.{Label, label_eq}
use xform.Users.{Result, ok, err, client_id_taken, RosterRecord, RosterEdit, UserRow, Db}
use xform.Users.Store.{same, option_of, upsert_labels, roster_record}
use xform.Users.Store.Sql.{find, update, list_beq}

module _ (u : CaseTables) (lower : String → String) where
  abbrev is_some {ℓ} : {A : Type ℓ} → Option A → Bool
  is_some none = false
  is_some (some a) = true

  -- Another user holds the Client ID that the edit brings.
  abbrev pub id_taken : RosterRecord → Option String → Db → Bool
  id_taken before none db = false
  id_taken before (some id) db =
      is_some
        (find (λ r. same lower r.client_id id && not (same lower r.email before.email)) db.roster)

  -- The stored spelling wins over an equivalent one.
  abbrev pub final_id : RosterRecord → Option String → String
  final_id before none = before.client_id
  final_id before (some id) =
      if not (equal_fold u before.client_id id) then id else before.client_id

  abbrev final_inbounds : RosterRecord → Option (List String) → List String
  final_inbounds before none = before.inbounds
  final_inbounds before (some inbounds) = inbounds

  -- The no-op probe: same credential, same attachment set, same labels.
  abbrev unchanged : RosterRecord → String → List String → List Label → Option UserRow → Bool
  unchanged before id inbounds labels none = false
  unchanged before id inbounds labels (some row) =
      id == before.client_id
      && (list_beq inbounds before.inbounds && list_beq (option_of row.labels) labels)

  unfoldable pub store_edit : RosterRecord → String → List String → List Label → ℕ → Db → Db
  store_edit before id inbounds labels stamp db = record db {
    roster =
        update (λ r. r.email == before.email)
          (λ r. record r { client_id = id; inbounds = inbounds; updated_at = stamp }) db.roster;
    users = upsert_labels before.email labels stamp db.users;
  }

  -- The transaction, unless the probe found the stored state.
  unfoldable pub write_edit : Bool → RosterRecord → RosterEdit → ℕ → Db → Result RosterRecord × Db
  unfolding store_edit
  write_edit true before edit stamp db = (ok before, db)
  write_edit false before edit stamp db =
      let id = final_id before edit.client_id in
      let inbounds = final_inbounds before edit.inbounds in
      (
        ok (record {
          email = before.email;
          client_id = id;
          inbounds = inbounds;
          created_at = before.created_at;
          updated_at = stamp;
        }),
        store_edit before id inbounds edit.labels stamp db,
      )

  unfoldable pub edit_record : RosterRecord → RosterEdit → ℕ → Db → Result RosterRecord × Db
  unfolding write_edit
  edit_record before edit stamp db =
      let row = find (λ q. same lower q.email before.email) db.users in
      let same_state =
        unchanged before (final_id before edit.client_id) (final_inbounds before edit.inbounds)
          edit.labels row in
      if id_taken before edit.client_id db
      then (err client_id_taken, db)
      else write_edit same_state before edit stamp db

  abbrev pub edit_found : RosterEdit → ℕ → Db → Result RosterRecord → Result RosterRecord × Db
  edit_found edit stamp db (err e) = (err e, db)
  edit_found edit stamp db (ok before) = edit_record before edit stamp db

  unfoldable pub edit_roster_user : String → RosterEdit → ℕ → Db → Result RosterRecord × Db
  unfolding edit_record
  edit_roster_user email edit stamp db = edit_found edit stamp db (roster_record lower email db)
