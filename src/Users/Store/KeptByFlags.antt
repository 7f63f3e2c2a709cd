-- ===== src/Users/Store/KeptByFlags.antt =====
-- DisableRosterUser, MarkRosterDeleting, PurgeRosterUser and EnableRosterUser keep the two uniqueness
-- rules.
use xform.Base.{ℕ, String, refl}
use xform.Base.Text.{CaseTables}
use xform.Users.{
  email_taken, client_id_taken, roster_not_found, failure, Result, ok, err, RosterRecord, Db,
}
use xform.Users.Store.{roster_record, disabled_roster_record}
use xform.Users.Store.Flags.{
  disable_roster_user, mark_roster_deleting, purge_roster_user, enable_roster_user, revive_rows,
  revived, enabled,
}
use xform.Users.Store.Unique.{Apart-update, Apart-delete_from, IsUnique}

module _ (u : CaseTables) (lower : String → String) where
  -- The four operations that set or clear the flags, or remove the flagged row.
  pub data FlagOp : Type 0 where
    disable mark enable : String → ℕ → FlagOp
    purge : String → FlagOp

  unfoldable pub run_flag : FlagOp → Db → Db
  unfolding disable_roster_user mark_roster_deleting purge_roster_user enable_roster_user
  run_flag (disable email now) db = (disable_roster_user lower email now db).1
  run_flag (mark email now) db = (mark_roster_deleting lower email now db).1
  run_flag (enable email now) db = (enable_roster_user lower email now db).1
  run_flag (purge email) db = (purge_roster_user lower email db).1

  revive_rows-IsUnique :
      (r : RosterRecord) (now : ℕ) (db : Db)
      → IsUnique u lower db
      → IsUnique u lower (revive_rows lower r now db)
  unfolding revive_rows
  revive_rows-IsUnique r now db k = record {
    emails = Apart-update _ _ _ db.roster (λ q. refl) k.emails;
    ids = Apart-update _ _ _ db.roster (λ q. refl) k.ids;
  }

  revived-IsUnique :
      (o : Result RosterRecord) (now : ℕ) (db : Db)
      → IsUnique u lower db
      → IsUnique u lower (revived lower now db o).1
  revived-IsUnique (ok r) now db k = revive_rows-IsUnique r now db k
  revived-IsUnique (err e) now db k = k

  enabled-IsUnique :
      (email : String) (now : ℕ) (o : Result RosterRecord) (db : Db)
      → IsUnique u lower db
      → IsUnique u lower (enabled lower email now db o).1
  enabled-IsUnique email now (ok r) db k = k
  enabled-IsUnique email now (err email_taken) db k = k
  enabled-IsUnique email now (err client_id_taken) db k = k
  enabled-IsUnique email now (err (failure m)) db k = k
  enabled-IsUnique email now (err roster_not_found) db k =
      revived-IsUnique (disabled_roster_record lower email db) now db k

  -- Disabling, marking for deletion, enabling and purging a user keep the roster without two rows of
  -- the same email or the same Client ID.
  pub run_flag-IsUnique :
      (op : FlagOp) (db : Db) → IsUnique u lower db → IsUnique u lower (run_flag op db)
  unfolding run_flag disable_roster_user mark_roster_deleting purge_roster_user enable_roster_user
      revive_rows
  run_flag-IsUnique (disable email now) db k = record {
    emails = Apart-update _ _ _ db.roster (λ q. refl) k.emails;
    ids = Apart-update _ _ _ db.roster (λ q. refl) k.ids;
  }
  run_flag-IsUnique (mark email now) db k = record {
    emails = Apart-update _ _ _ db.roster (λ q. refl) k.emails;
    ids = Apart-update _ _ _ db.roster (λ q. refl) k.ids;
  }
  run_flag-IsUnique (purge email) db k = record {
    emails = Apart-delete_from _ _ db.roster k.emails;
    ids = Apart-delete_from _ _ db.roster k.ids;
  }
  run_flag-IsUnique (enable email now) db k =
      enabled-IsUnique email now (roster_record lower email db) db k
