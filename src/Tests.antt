-- ===== src/Tests.antt =====
-- Runs of the model at concrete inputs, with the data that they share.
pub mod Counters
pub mod Store
pub mod Roster
pub mod Render
pub mod Sources
pub mod Profiles
pub mod Evaluation
pub mod Settings
pub mod Collector
pub mod Auth
use Prim.Native.Char.{Char, code}
use xform.Base.{
  ℕ, String, Bool, true, false, ◌==◌, nat_eq, if◌then◌else◌, List, [], ◌∷◌, none, some,
}
use xform.Base.Text.{CaseTables, map_chars}
use xform.Users.{RosterRow, UserRow, Db}

abbrev to_small : Char → Char
to_small c =
    if code c == 65
    then "a"
    else if code c == 66
    then "b"
    else if code c == 69
    then "e"
    else if code c == 76
    then "l"
    else if code c == 83
    then "s"
    else if code c == 86
    then "v"
    else c

abbrev to_big : Char → Char
to_big c =
    if code c == 97
    then "A"
    else if code c == 98
    then "B"
    else if code c == 101
    then "E"
    else if code c == 108
    then "L"
    else if code c == 115
    then "S"
    else if code c == 118
    then "V"
    else c

-- The case of the letters that the runs use.
abbrev pub letters : CaseTables
letters = record { upper = to_big; lower = to_small; fold = to_small }

-- `lower` of the database, on these letters
abbrev pub sql_lower : String → String
sql_lower = map_chars to_small

abbrev row : String → String → Bool → RosterRow
row email id disabled = record {
  email = email;
  client_id = id;
  inbounds = "in1" ∷ [];
  disabled = disabled;
  deleting = false;
  created_at = 1;
  updated_at = 1;
}

abbrev user : String → Bool → UserRow
user email disabled = record {
  email = email;
  labels = none;
  up_bytes_total = 10;
  down_bytes_total = 20;
  last_seen = none;
  last_ips = none;
  disabled = disabled;
  first_seen = 1;
}

abbrev pub two_users : Db
two_users = record {
  roster = row "alice" "1" false ∷ row "bob" "2" true ∷ [];
  users = user "alice" false ∷ user "bob" true ∷ [];
  xray_totals = none;
}
