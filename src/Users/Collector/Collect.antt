-- ===== src/Users/Collector/Collect.antt =====
-- internal/users/collector.go: Collect, from its calls of xray and of the store to the snapshot. The
-- answers of one poll are a `Poll`; the store is reached through `Persistence`, over a state S. The
-- steps of one call run in order; `unix` is the time in whole seconds.
use xform.Base.{
  ℕ, String, Bool, true, false, List, [], ◌∷◌, map, Option, none, some, ◌==◌, string_eq, nat_eq,
  if◌then◌else◌,
}
use xform.Base.Assoc.{lookup, insert}
use xform.XrayConfig.RosterParse.{RosterParse}
use xform.Users.{Result, ok, err, StoreError}
use xform.Users.Store.Listing.{User}
use xform.Users.Store.Poll.{Delta, Presence}
use xform.Users.Collector.{
  Collector, RawTraffic, sample_roster, settle_roster, add_raws, deltas_of, speeds, log_failure,
  log_recovery,
}

pub record Persistence (S : Type 0) : Type 0 where
  pub existing_emails : S → Result (List String)
  pub apply_poll : List Delta → List Presence → Option RosterParse → ℕ → S → Result (Unit {0}) × S
  pub users : S → Result (List User)

-- What xray answers; an error is its message.
pub data TrafficAnswer : Type 0 where
  raw_traffic : List RawTraffic → TrafficAnswer
  traffic_failed : String → TrafficAnswer

pub data PresenceAnswer : Type 0 where
  presence : List Presence → PresenceAnswer
  unsupported : PresenceAnswer
  presence_failed : String → PresenceAnswer

-- The answers to one Collect, the config's roster with its version, and the clock.
pub record Poll : Type 0 where
  pub roster : Option (RosterParse × ℕ)
  pub traffic : TrafficAnswer
  pub online : PresenceAnswer
  pub now : ℕ

pub record Snapshot : Type 0 where
  pub collected_at : ℕ
  pub stale : Bool
  pub users : List User

abbrev pub message : StoreError → String
message StoreError.email_taken = "email taken"
message StoreError.client_id_taken = "client ID taken"
message StoreError.roster_not_found = "roster record not found"
message (StoreError.failure m) = m

abbrev overlay_speed : Option (ℕ × ℕ) → User → User
overlay_speed none x = x
overlay_speed (some (up, down)) x = record x { speed_up_bps = up; speed_down_bps = down }

abbrev overlay_presence : Option Presence → User → User
overlay_presence none x = record x { online = false; ips = none }
overlay_presence (some p) x = record x { online = true; ips = some p.ips }

abbrev countries_of :
    (String → String) → List String → List (String × String) → List (String × String)
countries_of country [] m = m
countries_of country (ip ∷ ips) m =
    countries_of country ips (if country ip == "" then m else insert ip (country ip) m)

abbrev ips_of : Option (List String) → List String
ips_of none = []
ips_of (some ips) = ips

abbrev overlay_geo : Option (String → String) → User → User
overlay_geo none x = x
overlay_geo (some country) x = record x {
  ip_countries = countries_of country (ips_of x.ips) x.ip_countries;
}

unfoldable pub overlay :
    Option (String → String)
    → Bool
    → List (String × (ℕ × ℕ))
    → List (String × Presence)
    → User
    → User
overlay geo stale speeds online x =
    let y = overlay_speed (lookup x.email speeds) x in
    let z = if stale then y else overlay_presence (lookup x.email online) y in overlay_geo geo z

-- An online user without timestamps is seen now.
abbrev seen_online : ℕ → Presence → Presence
seen_online unix p = if p.last_seen == 0 then record p { last_seen = unix } else p

abbrev pub presence_rows : ℕ → PresenceAnswer → List Presence
presence_rows unix (presence online) = map (seen_online unix) online
presence_rows unix unsupported = []
presence_rows unix (presence_failed m) = []

abbrev by_email : List Presence → List (String × Presence) → List (String × Presence)
by_email [] m = m
by_email (p ∷ ps) m = by_email ps (insert p.email p m)

abbrev pub note_presence : PresenceAnswer → Collector → Collector
note_presence (presence online) c = record c { presence_err = log_recovery c.presence_err }
note_presence unsupported c = record c { noted_unsupported = true }
note_presence (presence_failed m) c = record c { presence_err = log_failure c.presence_err m }

-- The critical section that takes up the raw counters.
unfoldable pub gather : (ℕ → ℕ → ℕ) → ℕ → List String → List RawTraffic → Collector → Collector
gather since now existing raws c =
    add_raws existing (since now c.last_poll) raws (record c { last_poll = now })

-- The one after the transaction was written.
unfoldable pub persisted : ℕ → Option RosterParse → Collector → Collector
unfolding settle_roster
persisted unix roster c =
    let c' =
      settle_roster roster (record c { pending = []; store_err = log_recovery c.store_err }) in
    record c' { stale = false; collected_at = unix }

module _ {S : Type 0} (store : Persistence S) (since rate : ℕ → ℕ → ℕ) (unix : ℕ → ℕ)
    (geo : Option (String → String)) where
  abbrev pub State : Type 0
  State = Collector × S

  abbrev listed :
      List (String × (ℕ × ℕ))
      → List (String × Presence)
      → State
      → Result (List User)
      → Result Snapshot
  listed speeds online (c, s) (err e) = err e
  listed speeds online (c, s) (ok rows) = ok (record {
    collected_at = c.collected_at;
    stale = c.stale;
    users = map (overlay geo c.stale speeds online) rows;
  })

  unfoldable pub snapshot :
      List (String × (ℕ × ℕ)) → List (String × Presence) → State → Result Snapshot
  snapshot speeds online (c, s) = listed speeds online (c, s) (store.users s)

  abbrev pub flushed : Result (Unit {0}) × S → Option RosterParse → Collector → State
  flushed (err e, s) roster c = (record c { roster_err = log_failure c.roster_err (message e) }, s)
  flushed (ok _, s) roster c =
      (settle_roster roster (record c { roster_err = log_recovery c.roster_err }), s)

  -- flushRoster, on what is pending
  unfoldable pub flush_roster : ℕ → Option RosterParse → State → State
  flush_roster now none st = st
  flush_roster now (some roster) (c, s) =
      flushed (store.apply_poll [] [] (some roster) (unix now) s) (some roster) c

  -- After ApplyPoll.
  abbrev pub written :
      Poll → Option RosterParse → Collector → Result (Unit {0}) × S → Result Snapshot × State
  written poll roster c (err e, s) =
      (err e, (record c { store_err = log_failure c.store_err (message e) }, s))
  written poll roster c (ok _, s) =
      let c' = persisted (unix poll.now) roster c in
      (
        snapshot (speeds rate c) (by_email (presence_rows (unix poll.now) poll.online) []) (c', s),
        (c', s),
      )

  -- From the answer of ExistingEmails on.
  abbrev pub polled :
      Poll → List RawTraffic → Result (List String) → State → Result Snapshot × State
  polled poll raws (err e) st = (err e, st)
  polled poll raws (ok existing) (c, s) =
      let c' = gather since poll.now existing raws c in
      written poll c'.pending_roster c' (
        store.apply_poll (deltas_of c') (presence_rows (unix poll.now) poll.online)
          c'.pending_roster (unix poll.now) s)

  abbrev pub answered : Poll → TrafficAnswer → State → Result Snapshot × State
  answered poll (traffic_failed m) (c, s) =
      let c' = record c { poll_err = log_failure c.poll_err m; stale = true } in
      let st = flush_roster poll.now c'.pending_roster (c', s) in (snapshot [] [] st, st)
  answered poll (raw_traffic raws) (c, s) =
      let c' = note_presence poll.online (record c { poll_err = log_recovery c.poll_err }) in
      polled poll raws (store.existing_emails s) (c', s)

  -- Collect
  unfoldable pub collect : Poll → State → Result Snapshot × State
  unfolding snapshot flush_roster
  collect poll (c, s) = answered poll poll.traffic (sample_roster poll.roster c, s)

  -- Any number of polls, each with any answers of xray.
  unfoldable pub run_polls : List Poll → State → State
  unfolding collect
  run_polls [] st = st
  run_polls (poll ∷ polls) st = run_polls polls (collect poll st).1
