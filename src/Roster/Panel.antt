-- ===== src/Roster/Panel.antt =====
-- internal/cmd/xform/main.go: the wiring of the roster service to the SQLite store.
use xform.Base.{String, none}
use xform.Base.Text.{CaseTables}
use xform.Users.{Db}
use xform.Users.Store.{
  roster_record, disabled_roster_record, roster_records, deleting_roster_records,
}
use xform.Users.Store.Add.{add_roster_user}
use xform.Users.Store.Edit.{edit_roster_user}
use xform.Users.Store.Flags.{
  disable_roster_user, mark_roster_deleting, purge_roster_user, enable_roster_user,
}
use xform.Roster.Service.{StoreApi}

abbrev pub store_api : CaseTables → (String → String) → StoreApi Db
store_api u lower = record {
  add_roster_user = add_roster_user u lower none;
  roster_record = roster_record lower;
  disabled_roster_record = disabled_roster_record lower;
  roster_records = roster_records lower;
  edit_roster_user = edit_roster_user u lower;
  disable_roster_user = disable_roster_user lower;
  enable_roster_user = enable_roster_user lower;
  mark_roster_deleting = mark_roster_deleting lower;
  purge_roster_user = purge_roster_user lower;
  deleting_roster_records = deleting_roster_records lower;
}
