-- ===== src/Users/Store.antt =====
-- internal/users/store.go: the roster half of the store. A statement in a transaction is a function
-- on the tables, and a method is its transaction: an error returns before the commit and leaves the
-- database as it was. SQLite's `lower` is the parameter `lower`; a query that reads one row gets the
-- first of the table. An error of the database itself is not modelled here: it is an answer that the
-- interface `Roster.Service.StoreApi` leaves open.
pub mod Poll
pub mod Add
pub mod Flags
pub mod Edit
pub mod Unique
pub mod Kept
pub mod KeptByEdit
pub mod KeptByFlags
pub mod Outcome
pub mod Purge
pub mod Sql
pub mod Listing
use xform.Base.{
  ℕ, String, Bool, true, false, ◌&&◌, ◌||◌, not, List, [], ◌∷◌, ◌++◌, map, Option, none, some, ◌==◌,
  string_eq, if◌then◌else◌,
}
use xform.Base.Lists.{contains, keep}
use xform.Base.Text.{CaseTables, equal_fold, text_le}
use xform.XrayConfig.{Label, label_eq}
use xform.Users.{
  StoreError, email_taken, client_id_taken, roster_not_found, Result, ok, err, ◌>>=◌, ◌>>◌,
  refuse_if, NewRosterUser, RosterRecord, RosterEdit, RosterRow, UserRow, Db,
}
use Sql.{find, update, delete_from, any, order_by, list_beq}

abbrev pub option_of {ℓ} : {A : Type ℓ} → Option (List A) → List A
option_of none = []
option_of (some xs) = xs

abbrev pub record_of : RosterRow → RosterRecord
record_of r = record {
  email = r.email;
  client_id = r.client_id;
  inbounds = r.inbounds;
  created_at = r.created_at;
  updated_at = r.updated_at;
}

-- A query of one row, and sql.ErrNoRows.
abbrev pub record_or_missing : Option RosterRow → Result RosterRecord
record_or_missing none = err roster_not_found
record_or_missing (some r) = ok (record_of r)

-- INSERT INTO users (email, labels, disabled, first_seen) … ON CONFLICT(email) DO UPDATE SET
-- labels = excluded.labels, disabled = 0
unfoldable pub upsert_labels : String → List Label → ℕ → List UserRow → List UserRow
upsert_labels email labels stamp [] =
    record {
      email = email;
      labels = some labels;
      up_bytes_total = 0;
      down_bytes_total = 0;
      last_seen = none;
      last_ips = none;
      disabled = false;
      first_seen = stamp;
    }
    ∷ []
upsert_labels email labels stamp (r ∷ rows) =
    let rest = upsert_labels email labels stamp rows in
    if r.email == email
    then record r { labels = some labels; disabled = false } ∷ rows
    else r ∷ rest

abbrev pub disable_users : (String → String) → String → List UserRow → List UserRow
disable_users lower email =
    update (λ r. lower r.email == lower email && not r.disabled) (λ r. record r { disabled = true })

module _ (lower : String → String) where
  abbrev pub same : String → String → Bool
  same a b = lower a == lower b

  -- rosterRecord: the row that is not being deleted and has the flag
  unfoldable pub roster_record_where : Bool → String → Db → Result RosterRecord
  roster_record_where disabled email db = record_or_missing (
      find
        (λ r.
          same r.email email
          && ((if disabled then r.disabled else not r.disabled) && not r.deleting))
        db.roster)

  -- RosterRecord, DisabledRosterRecord
  abbrev pub roster_record : String → Db → Result RosterRecord
  roster_record = roster_record_where false

  abbrev pub disabled_roster_record : String → Db → Result RosterRecord
  disabled_roster_record = roster_record_where true

  -- The columns that RosterRecords and DeletingRosterRecords scan; the times stay zero.
  abbrev listed : RosterRow → RosterRecord
  listed r = record (record_of r) { created_at = 0; updated_at = 0 }

  unfoldable pub roster_records : Db → Result (List RosterRecord)
  roster_records db = ok (
      map listed (order_by (λ r. r.email) (keep (λ r. not r.disabled && not r.deleting) db.roster)))

  unfoldable pub deleting_roster_records : Db → Result (List RosterRecord)
  deleting_roster_records db =
      ok (map listed (order_by (λ r. r.email) (keep (λ r. r.deleting) db.roster)))
