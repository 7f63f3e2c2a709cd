-- ===== src/Users/Store/Poll.antt =====
-- internal/users/store.go: ApplyPoll with syncLabels and adoptClients, the traffic totals and
-- ExistingEmails. The maps of a roster parse are lists of pairs with distinct keys; the labels are
-- upserted in the order of the list. The columns of bytes are int64: a delta beyond that is refused
-- when the statement binds it. A total is a number here, so the model is the store's as long as no
-- total passes int64, where SQLite goes over to REAL.
pub mod Totals
pub mod Adoption
use xform.Base.{
  ℕ, String, Bool, true, false, ◌&&◌, ◌||◌, not, List, [], ◌∷◌, ◌++◌, map, Option, none, some, ◌==◌,
  string_eq, nat_eq, if◌then◌else◌, ltb, ◌+◌, ◌^◌,
}
use Prim.Native.String.{◌++◌ as concat}
use xform.Base.Lists.{contains, length, is_empty}
use xform.XrayConfig.{Label}
use xform.XrayConfig.RosterParse.{RosterParse, Client, User}
use xform.Users.{Result, ok, err, failure, RosterRow, UserRow, Db}
use xform.Users.Store.{same}
use xform.Users.Store.Sql.{find, update, any, order_by}

pub record Delta : Type 0 where
  pub email : String
  pub up : ℕ
  pub down : ℕ
  pub seen_now : Bool

pub record Presence : Type 0 where
  pub email : String
  pub last_seen : ℕ
  pub ips : List String

abbrev coalesce {ℓ} : {A : Type ℓ} → Option A → A → A
coalesce none b = b
coalesce (some a) b = a

abbrev or_else {ℓ} : {A : Type ℓ} → Option A → Option A → Option A
or_else none b = b
or_else (some a) b = some a

abbrev pub max : ℕ → ℕ → ℕ
max a b = if ltb a b then b else a

-- lastSeenGrow: the stored value, then the incoming one
abbrev pub last_seen_grow : Option ℕ → Option ℕ → Option ℕ
last_seen_grow stored none = stored
last_seen_grow stored (some t) = some (max (coalesce stored 0) t)

abbrev pub empty_row : String → ℕ → UserRow
empty_row email stamp = record {
  email = email;
  labels = none;
  up_bytes_total = 0;
  down_bytes_total = 0;
  last_seen = none;
  last_ips = none;
  disabled = false;
  first_seen = stamp;
}

-- INSERT INTO users … ON CONFLICT(email) DO UPDATE SET
unfoldable pub upsert : UserRow → (UserRow → UserRow) → List UserRow → List UserRow
upsert new set [] = new ∷ []
upsert new set (r ∷ rows) =
    let rest = upsert new set rows in if r.email == new.email then set r ∷ rows else r ∷ rest

-- What an int64 column can hold.
abbrev pub int64_limit : ℕ
int64_limit = 2 ^ 63

-- database/sql refuses a uint64 with its high bit set.
abbrev pub oversized : Delta → Bool
oversized d = not (ltb d.up int64_limit) || not (ltb d.down int64_limit)

abbrev pub seen_at : Bool → ℕ → Option ℕ
seen_at b t = if b then some t else none

unfoldable pub apply_delta : ℕ → Delta → List UserRow → List UserRow
unfolding upsert
apply_delta stamp d =
    let seen = seen_at d.seen_now stamp in
    upsert
      (record (empty_row d.email stamp) {
        up_bytes_total = d.up;
        down_bytes_total = d.down;
        last_seen = seen;
      })
      (λ r. record r {
        up_bytes_total = r.up_bytes_total + d.up;
        down_bytes_total = r.down_bytes_total + d.down;
        last_seen = last_seen_grow r.last_seen seen;
      })

unfoldable pub apply_presence : ℕ → Presence → List UserRow → List UserRow
unfolding upsert
apply_presence stamp p =
    let seen = seen_at (ltb 0 p.last_seen) p.last_seen in
    let ips : Option (List String) = if is_empty p.ips then none else some p.ips in
    upsert (record (empty_row p.email stamp) { last_seen = seen; last_ips = ips })
      (λ r. record r {
        last_seen = last_seen_grow r.last_seen seen;
        last_ips = or_else ips r.last_ips;
      })

unfoldable pub apply_deltas : ℕ → List Delta → List UserRow → List UserRow
apply_deltas stamp [] rows = rows
apply_deltas stamp (d ∷ ds) rows = apply_deltas stamp ds (apply_delta stamp d rows)

unfoldable pub apply_presences : ℕ → List Presence → List UserRow → List UserRow
apply_presences stamp [] rows = rows
apply_presences stamp (p ∷ ps) rows = apply_presences stamp ps (apply_presence stamp p rows)

-- adoptClients: the tags of the row, then those of the config that it lacks
unfoldable pub merge_tags : List String → List String → List String
merge_tags merged [] = merged
merge_tags merged (tag ∷ tags) =
    merge_tags (if contains merged tag then merged else merged ++ tag ∷ []) tags

abbrev pub adopted_row : String → Client → ℕ → RosterRow
adopted_row email client stamp = record {
  email = email;
  client_id = client.client_id;
  inbounds = client.inbounds;
  disabled = false;
  deleting = false;
  created_at = stamp;
  updated_at = stamp;
}

unfoldable pub grow_tags : ℕ → String → List String → List String → List RosterRow → List RosterRow
grow_tags stamp email tags config rows =
    let merged = merge_tags tags config in
    if length merged == length tags
    then rows
    else update (λ r. r.email == email) (λ r. record r { inbounds = merged; updated_at = stamp })
        rows

-- One turn of the loop; `row` is what was stored for the email before the loop.
unfoldable pub adopt_client :
    ℕ → String → Client → Option RosterRow → List RosterRow → List RosterRow
unfolding grow_tags
adopt_client stamp email client none rows = rows ++ adopted_row email client stamp ∷ []
adopt_client stamp email client (some row) rows =
    if row.disabled then rows else grow_tags stamp email row.inbounds client.inbounds rows

unfoldable pub adopt_each :
    ℕ → List RosterRow → List (String × Client) → List RosterRow → List RosterRow
adopt_each stamp stored [] rows = rows
adopt_each stamp stored (c ∷ cs) rows =
    adopt_each stamp stored cs (adopt_client stamp c.0 c.1 (find (λ r. r.email == c.0) stored) rows)

unfoldable pub adopt_clients : ℕ → List (String × Client) → List RosterRow → List RosterRow
adopt_clients stamp clients rows = adopt_each stamp rows (order_by (λ c. c.0) clients) rows

module _ (lower : String → String) where
  abbrev on_roster : List RosterRow → Bool → String → Bool
  on_roster roster flag email =
      any (λ r. same lower r.email email && (if flag then r.disabled else not r.disabled)) roster

  unfoldable pub sync_label : ℕ → List RosterRow → String × User → List UserRow → List UserRow
  unfolding upsert
  sync_label stamp roster user =
      upsert (record (empty_row user.0 stamp) { labels = some user.1 })
        (λ r. record r {
          labels = some user.1;
          disabled = if on_roster roster true r.email then r.disabled else false;
        })

  unfoldable pub sync_each : ℕ → List RosterRow → List (String × User) → List UserRow → List UserRow
  sync_each stamp roster [] rows = rows
  sync_each stamp roster (user ∷ users) rows =
      sync_each stamp roster users (sync_label stamp roster user rows)

  unfoldable pub sync_labels :
      ℕ → List RosterRow → List (String × User) → List UserRow → List UserRow
  sync_labels stamp roster labels rows = sync_each stamp roster labels (
      update (λ r. not r.disabled && not (on_roster roster false r.email))
        (λ r. record r { disabled = true }) rows)

  abbrev pub read_roster : ℕ → Option RosterParse → Db → Db
  read_roster stamp none db = db
  read_roster stamp (some parse) db = record db {
    users = sync_labels stamp db.roster parse.labels db.users;
    roster = adopt_clients stamp parse.clients db.roster;
  }

  -- The transaction, given the delta that its statement refuses: the error rolls back.
  abbrev pub polled :
      List Delta
      → List Presence
      → Option RosterParse
      → ℕ
      → Db
      → Option Delta
      → Result (Unit {0}) × Db
  polled deltas presence roster stamp db (some d) =
      (err (failure (concat "apply delta for " d.email)), db)
  polled deltas presence roster stamp db none = (
    ok tt,
    read_roster stamp roster
        (record db { users = apply_presences stamp presence (apply_deltas stamp deltas db.users) }),
  )

  unfoldable pub apply_poll :
      List Delta → List Presence → Option RosterParse → ℕ → Db → Result (Unit {0}) × Db
  apply_poll deltas presence roster stamp db =
      polled deltas presence roster stamp db (find oversized deltas)

-- LoadTrafficTotals: the totals, and whether the row was found
abbrev pub load_traffic_totals : Db → Result ((ℕ × ℕ) × Bool)
load_traffic_totals db = go db.xray_totals
  where
    go : Option (ℕ × ℕ) → Result ((ℕ × ℕ) × Bool)
    go none = ok ((0, 0), false)
    go (some totals) = ok (totals, true)

abbrev pub save_traffic_totals : ℕ → ℕ → Db → Result (Unit {0}) × Db
save_traffic_totals up down db =
    if ltb up int64_limit && ltb down int64_limit
    then (ok tt, record db { xray_totals = some (up, down) })
    else (err (failure "save traffic totals"), db)

abbrev pub existing_emails : Db → Result (List String)
existing_emails db = ok (map (λ r. r.email) db.users)
