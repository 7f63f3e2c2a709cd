-- ===== src/Tests/Collector.antt =====
-- The collector over the panel's store, at concrete polls: the witnesses of its theorems.
use xform.Base.{
  ℕ, ◌-◌, ◌/◌, true, false, List, [], ◌∷◌, none, some, ◌≡◌, ◌==◌, string_eq, refl, arith,
}
use xform.Base.Lists.{contains}
use xform.Base.Assoc.{lookup}
use xform.Users.Store.Sql.{any}
use xform.XrayConfig.RosterParse.{RosterParse}
use xform.Users.Store.Poll.{apply_poll, Presence}
use xform.Users.Store.Poll.Totals.{total, uplink}
use xform.Users.Collector.{Collector, new_collector, RawTraffic, add_raw, purge, deltas_of}
use xform.Users.Collector.Collect.{
  Poll, raw_traffic, traffic_failed, run_polls, presence, unsupported,
}
use xform.Users.Collector.Accounts.{Books}
use xform.Users.Collector.Accounts.Opening.{add_raw_opens}
use xform.Users.Collector.Accounts.Polls.{run_polls-Books}
use xform.Users.Collector.Panel.{panel_store, panel_store-Credits, stored_bytes}
use xform.Users.Collector.Purge.{purge_forgets}
use xform.Tests.{sql_lower, two_users}

abbrev reading : ℕ → ℕ → RawTraffic
reading up down = record { email = "alice"; up_bytes = up; down_bytes = down }

-- After the first reading.
abbrev started : Collector
started = add_raw ("alice" ∷ "bob" ∷ []) 0 (reading 500 700) new_collector

add_raw_opens_example : Books uplink "alice" 10 started 10
unfolding contains lookup
add_raw_opens_example =
    add_raw_opens uplink ("alice" ∷ "bob" ∷ []) 0 10 (reading 500 700) new_collector tt
      (omega arith) refl refl refl

abbrev polls : List Poll
polls =
    record {
      roster = none;
      traffic = raw_traffic (reading 900 800 ∷ []);
      online = unsupported;
      now = 20;
    }
    ∷ record { roster = none; traffic = traffic_failed "down"; online = unsupported; now = 30 }
    ∷ record {
      roster = none;
      traffic = raw_traffic (reading 50 900 ∷ []);
      online = presence [];
      now = 40;
    }
    ∷ []

run_polls-Books_example :
    let after =
      run_polls
        (panel_store sql_lower)
        (λ a b. a - b)
        (λ a b. a / b)
        (λ t. t)
        none
        polls
        (started, two_users) in
    Books uplink "alice" 10 after.0 (stored_bytes uplink "alice" after.1)
unfolding total
run_polls-Books_example =
    run_polls-Books (panel_store sql_lower) (λ a b. a - b) (λ a b. a / b) (λ t. t) none stored_bytes
      (panel_store-Credits sql_lower) uplink "alice" 10 polls started two_users
      add_raw_opens_example

-- Traffic of two users and a parse of the config are pending; bob is online and labelled.
abbrev parse : RosterParse
parse = record { labels = ("bob", []) ∷ []; clients = [] }

abbrev loaded : Collector
loaded = record started {
  pending =
      ("alice", record { up = 5; down = 6; seen_now = true })
      ∷ ("carol", record { up = 7; down = 8; seen_now = true })
      ∷ [];
  pending_roster = some parse;
}

abbrev bob_online : List Presence
bob_online = record { email = "bob"; last_seen = 50; ips = [] } ∷ []

purge_forgets_example :
    let after = purge "carol" loaded in
    (lookup "carol" after.up ≡ none)
    × (lookup "carol" after.down ≡ none)
    × (lookup "carol" after.seeded ≡ none)
    × (lookup "carol" after.pending ≡ none)
    × (after.pending_roster ≡ some parse)
    × (any
          (λ r. r.email == "carol")
          (apply_poll sql_lower
            (deltas_of after)
            bob_online
            after.pending_roster
            50
            two_users).1.users
        ≡ false)
unfolding any
purge_forgets_example =
    purge_forgets sql_lower "carol" loaded bob_online 50 two_users refl refl refl
