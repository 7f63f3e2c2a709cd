-- ===== src/Users/Collector/Panel.antt =====
-- internal/cmd/xform/main.go: the collector over the panel's store.
use xform.Base.{ℕ, String, List, Option, ◌≡◌, refl, ap, inl, inr, Option-cases}
use xform.XrayConfig.RosterParse.{RosterParse}
use xform.Users.{Db, StoreError, err}
use xform.Users.Store.Sql.{find}
use xform.Users.Store.Poll.{apply_poll, existing_emails, Delta, Presence, oversized}
use xform.Users.Store.Poll.Totals.{Direction, total-apply_poll, total, bytes_total}
use xform.Users.Store.Listing.{users}
use xform.Users.Collector.Collect.{Persistence}
use xform.Users.Collector.Accounts.Polls.{Credits}

abbrev pub panel_store : (String → String) → Persistence Db
panel_store lower = record {
  existing_emails = existing_emails;
  apply_poll = λ deltas rows roster now db. apply_poll lower deltas rows roster now db;
  users = users;
}

-- What the users table holds for a user.
abbrev pub stored_bytes : Direction → String → Db → ℕ
stored_bytes way e db = total (bytes_total way) e db.users

apply_poll-err :
    (lower : String → String) (deltas : List Delta) (rows : List Presence)
    (roster : Option RosterParse) (now : ℕ) (db : Db) (x : StoreError)
    → (apply_poll lower deltas rows roster now db).0 ≡ err x
    → (apply_poll lower deltas rows roster now db).1 ≡ db
unfolding apply_poll
apply_poll-err lower deltas rows roster now db x h = elim (Option-cases (find oversized deltas)) [
  | inl fits ↦ cc (rw fits at h)
  | inr (d, refused) ↦ rw refused refl
]

pub panel_store-Credits : (lower : String → String) → Credits (panel_store lower) stored_bytes
panel_store-Credits lower = record {
  accepts = λ way e. total-apply_poll way e lower;
  refuses = λ way e deltas rows roster now db x h.
      ap (λ d. total (bytes_total way) e d.users)
        (apply_poll-err lower deltas rows roster now db x h);
}
