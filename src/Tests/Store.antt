-- ===== src/Tests/Store.antt =====
-- Runs of the store on a database with a live user and a disabled one.
use Prim.Native.Char.{code}
use Prim.Native.String.{◌++◌ as concat}
use xform.Base.{
  ℕ, String, true, false, List, [], ◌∷◌, none, some, ◌≡◌, refl, string_eq, nat_eq, ◌==◌, ◌+◌, ◌<◌,
  if◌then◌else◌, arith, ◌⊎◌,
}
use xform.Base.Text.{CaseTables}
use xform.XrayConfig.RosterParse.{Client}
use xform.Users.{NewRosterUser, RosterEdit, RosterRow, ok, err, failure}
use xform.Users.Store.{same, roster_record}
use xform.Users.Store.Sql.{find, any, delete_from}
use xform.Users.Store.Add.{add_roster_user, add_checks}
use xform.Users.Store.Edit.{edit_roster_user}
use xform.Users.Store.Flags.{mark_roster_deleting, purge_roster_user}
use xform.Users.Store.Unique.{IsUnique}
use xform.Users.Store.Kept.{add_roster_user-IsUnique}
use xform.Users.Store.KeptByEdit.{edit_roster_user-IsUnique}
use xform.Users.Store.Outcome.{roster_record-add_roster_user}
use xform.Users.Store.Purge.{purge-mark_roster_deleting}
use xform.Users.Store.Poll.{Delta, apply_poll, adopt_clients, oversized, int64_limit}
use xform.Users.Store.Poll.Totals.{uplink, bytes_total, total, credited, apply_poll-total}
use xform.Users.Store.Poll.Adoption.{Kept, adopt_clients-Kept}
use xform.Tests.{letters, sql_lower, two_users}

two_users-IsUnique : IsUnique letters sql_lower two_users
unfolding any
two_users-IsUnique = record { emails = (refl, (refl, tt)); ids = (refl, (refl, tt)) }

abbrev asked : String → String → NewRosterUser
asked email id = record { email = email; client_id = id; inbounds = "in2" ∷ []; labels = [] }

-- EqualFold folds the Kelvin sign to a letter; the database's `lower` leaves it.
abbrev unicode : CaseTables
unicode = record letters { fold = λ c. if code c == 8490 then "k" else letters.fold c }

unicode-IsUnique : IsUnique unicode sql_lower two_users
unfolding any
unicode-IsUnique = record { emails = (refl, (refl, tt)); ids = (refl, (refl, tt)) }

add_roster_user-IsUnique_example :
    IsUnique unicode sql_lower
      (add_roster_user unicode sql_lower none (asked "boB" "2") 7 two_users).1
unfolding any
add_roster_user-IsUnique_example =
    add_roster_user-IsUnique unicode sql_lower none (asked "boB" "2") 7 two_users refl
      unicode-IsUnique

abbrev new_id : RosterEdit
new_id = record { client_id = some "3"; inbounds = none; labels = [] }

edit_roster_user-IsUnique_example :
    IsUnique letters sql_lower (edit_roster_user letters sql_lower "Alice" new_id 7 two_users).1
edit_roster_user-IsUnique_example =
    edit_roster_user-IsUnique letters sql_lower "Alice" new_id 7 two_users two_users-IsUnique

roster_record-add_roster_user_example :
    roster_record sql_lower "boB"
      (add_roster_user letters sql_lower none (asked "boB" "2") 7 two_users).1
    ≡ ok (record {
      email = "bob";
      client_id = "2";
      inbounds = "in2" ∷ [];
      created_at = 1;
      updated_at = 7;
    })
unfolding add_roster_user find add_checks
roster_record-add_roster_user_example =
    roster_record-add_roster_user letters sql_lower none (asked "boB" "2") 7 _ two_users refl

purge-mark_roster_deleting_example :
    (purge_roster_user sql_lower "Alice" (mark_roster_deleting sql_lower "Alice" 7 two_users).1).1
    ≡ record two_users {
      roster = delete_from (λ r. same sql_lower r.email "Alice") two_users.roster;
      users = delete_from (λ q. same sql_lower q.email "Alice") two_users.users;
    }
unfolding any
purge-mark_roster_deleting_example = purge-mark_roster_deleting sql_lower "Alice" 7 two_users refl

abbrev moved : String → ℕ → Delta
moved email n = record { email = email; up = n; down = 0; seen_now = true }

abbrev deltas : List Delta
deltas = moved "alice" 3 ∷ moved "bob" 9 ∷ moved "alice" 4 ∷ []

apply_poll-total_example :
    let after = apply_poll sql_lower deltas [] none 7 two_users in
    let sum = total (bytes_total uplink) "alice" after.1.users in
    ((any oversized deltas ≡ false)
      × (after.0 ≡ ok tt)
      × (sum ≡ total (bytes_total uplink) "alice" two_users.users + credited uplink "alice" deltas)
      × (sum < int64_limit))
    ⊎ ((any oversized deltas ≡ true)
        × ((d : Delta) × (after.0 ≡ err (failure (concat "apply delta for " d.email))))
        × (after.1 ≡ two_users))
unfolding total credited
apply_poll-total_example =
    apply_poll-total uplink "alice" sql_lower deltas [] none 7 two_users (omega arith)

abbrev config_clients : List (String × Client)
config_clients =
    ("bob", record { client_id = "9"; inbounds = "in3" ∷ [] })
    ∷ ("carol", record { client_id = "3"; inbounds = "in1" ∷ [] })
    ∷ []

abbrev bob : RosterRow
bob = record {
  email = "bob";
  client_id = "2";
  inbounds = "in1" ∷ [];
  disabled = true;
  deleting = false;
  created_at = 1;
  updated_at = 1;
}

adopt_clients-Kept_example :
    (q : RosterRow) × (find
        (λ q. q.email == "bob")
        (adopt_clients 7 config_clients two_users.roster)
      ≡ some q)
    × Kept bob q
unfolding find
adopt_clients-Kept_example = adopt_clients-Kept "bob" bob 7 config_clients two_users.roster refl
