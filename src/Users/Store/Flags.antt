-- ===== src/Users/Store/Flags.antt =====
-- internal/users/store.go: the flags of a roster row. DisableRosterUser, MarkRosterDeleting,
-- PurgeRosterUser and EnableRosterUser.
use xform.Base.{ℕ, String, Bool, true, false, ◌&&◌, not, string_eq}
use xform.Users.{
  Result, ok, err, email_taken, client_id_taken, failure, roster_not_found, RosterRecord, Db,
}
use xform.Users.Store.{same, disable_users, roster_record, disabled_roster_record}
use xform.Users.Store.Sql.{update, delete_from, any}

module _ (lower : String → String) where
  -- DisableRosterUser
  unfoldable pub disable_roster_user : String → ℕ → Db → Result (Unit {0}) × Db
  disable_roster_user email now db = (
    ok tt,
    record db {
      roster =
          update (λ r. same lower r.email email && (not r.disabled && not r.deleting))
            (λ r. record r { disabled = true; updated_at = now }) db.roster;
      users = disable_users lower email db.users;
    },
  )

  -- MarkRosterDeleting
  unfoldable pub mark_roster_deleting : String → ℕ → Db → Result (Unit {0}) × Db
  mark_roster_deleting email now db = (
    ok tt,
    record db {
      roster =
          update (λ r. same lower r.email email && not r.deleting)
            (λ r. record r { disabled = true; deleting = true; updated_at = now }) db.roster;
      users = disable_users lower email db.users;
    },
  )

  -- PurgeRosterUser
  unfoldable pub purge_roster_user : String → Db → Result (Unit {0}) × Db
  purge_roster_user email db = (
    ok tt,
    record db {
      users =
          delete_from
            (λ q.
              same lower q.email email
              && any (λ r. same lower r.email q.email && r.deleting) db.roster)
            db.users;
      roster = delete_from (λ r. same lower r.email email && r.deleting) db.roster;
    },
  )

  unfoldable pub revive_rows : RosterRecord → ℕ → Db → Db
  revive_rows r stamp db = record db {
    roster =
        update (λ q. same lower q.email r.email)
          (λ q. record q { disabled = false; updated_at = stamp }) db.roster;
    users = update (λ q. same lower q.email r.email) (λ q. record q { disabled = false }) db.users;
  }

  abbrev pub revived : ℕ → Db → Result RosterRecord → Result (RosterRecord × Bool) × Db
  revived stamp db (err e) = (err e, db)
  revived stamp db (ok r) = (ok (record r { updated_at = stamp }, true), revive_rows r stamp db)

  abbrev pub enabled : String → ℕ → Db → Result RosterRecord → Result (RosterRecord × Bool) × Db
  enabled email stamp db (ok r) = (ok (r, false), db)
  enabled email stamp db (err roster_not_found) =
      revived stamp db (disabled_roster_record lower email db)
  enabled email stamp db (err email_taken) = (err email_taken, db)
  enabled email stamp db (err client_id_taken) = (err client_id_taken, db)
  enabled email stamp db (err (failure m)) = (err (failure m), db)

  -- EnableRosterUser: the record, and whether the flag flipped
  unfoldable pub enable_roster_user : String → ℕ → Db → Result (RosterRecord × Bool) × Db
  unfolding revive_rows
  enable_roster_user email stamp db = enabled email stamp db (roster_record lower email db)
