-- ===== src/Users/Store/Listing.antt =====
-- internal/users/store.go: Users, the rows of the dashboard, heaviest traffic first; and
-- internal/users/users.go: what one row is in a snapshot. A nil slice or map is `none`.
use xform.Base.{
  ℕ, ◌+◌, String, Bool, false, not, ◌&&◌, ◌||◌, List, [], ◌∷◌, map, Option, none, some, ◌==◌,
  string_eq, nat_eq, if◌then◌else◌, ltb,
}
use xform.Base.Text.{text_le}
use xform.XrayConfig.{Label}
use xform.Users.{RosterRow, UserRow, Db, Result, ok}
use xform.Users.Store.Sql.{find}

pub record User : Type 0 where
  pub email : String
  pub labels : Option (List Label)
  pub client_id : Option String
  pub inbounds : Option (List String)
  pub up_bytes_total : ℕ
  pub down_bytes_total : ℕ
  pub online : Bool
  pub ips : Option (List String)
  pub ip_countries : List (String × String)
  pub speed_up_bps : ℕ
  pub speed_down_bps : ℕ
  pub last_seen : Option ℕ
  pub disabled : Bool
  pub first_seen : ℕ

abbrev joined_id : Option RosterRow → Option String
joined_id none = none
joined_id (some r) = some r.client_id

abbrev joined_inbounds : Option RosterRow → Option (List String)
joined_inbounds none = none
joined_inbounds (some r) = some r.inbounds

-- One scanned row of the LEFT JOIN.
unfoldable pub scan_user : UserRow → Option RosterRow → User
scan_user q r = record {
  email = q.email;
  labels = q.labels;
  client_id = joined_id r;
  inbounds = joined_inbounds r;
  up_bytes_total = q.up_bytes_total;
  down_bytes_total = q.down_bytes_total;
  online = false;
  ips = q.last_ips;
  ip_countries = [];
  speed_up_bps = 0;
  speed_down_bps = 0;
  last_seen = q.last_seen;
  disabled = q.disabled;
  first_seen = q.first_seen;
}

abbrev traffic : User → ℕ
traffic x = x.up_bytes_total + x.down_bytes_total

-- ORDER BY up + down DESC, email
abbrev comes_before : User → User → Bool
comes_before x y =
    ltb (traffic y) (traffic x) || (traffic x == traffic y && text_le x.email y.email)

insert_user : User → List User → List User
insert_user x [] = x ∷ []
insert_user x (y ∷ ys) =
    let later = y ∷ insert_user x ys in if comes_before x y then x ∷ y ∷ ys else later

unfoldable pub sort_users : List User → List User
unfolding insert_user
sort_users [] = []
sort_users (x ∷ xs) = insert_user x (sort_users xs)

unfoldable pub users : Db → Result (List User)
users db = ok (
    sort_users (
      map (λ q. scan_user q (find (λ r. r.email == q.email && not r.disabled) db.roster)) db.users))
