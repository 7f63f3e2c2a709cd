-- ===== src/Users/Collector.antt =====
-- internal/users/collector.go: the Collector's state and the steps on it between its calls of xray and
-- of the store. `since` is time.Time.Sub on the readings of the clock, `rate` the division of floats
-- in Speed. The counters are uint64.
pub mod Collect
pub mod Accounts
pub mod Purge
pub mod Panel
use xform.Base.{
  ℕ, ◌+◌, String, Bool, true, false, not, ◌&&◌, ◌||◌, List, [], ◌∷◌, map, Option, none, some, ◌==◌,
  string_eq, nat_eq, if◌then◌else◌, ltb,
}
use xform.Base.Lists.{contains}
use xform.Base.Assoc.{lookup, insert, delete}
use xform.XrayConfig.RosterParse.{RosterParse}
use xform.Reconcile.{Tracker, new_tracker, add64, speed}
use xform.Reconcile as reconcile
use xform.Users.Store.Poll.{Delta}

-- xraygrpc.UserTraffic
pub record RawTraffic : Type 0 where
  pub email : String
  pub up_bytes : ℕ
  pub down_bytes : ℕ

pub record PendingDelta : Type 0 where
  pub up : ℕ
  pub down : ℕ
  pub seen_now : Bool

pub record Collector : Type 0 where
  pub up : List (String × Tracker)
  pub down : List (String × Tracker)
  pub seeded : List (String × Bool)
  pub pending : List (String × PendingDelta)
  pub pending_roster : Option RosterParse
  pub pending_roster_version : ℕ
  pub roster_version : ℕ
  pub last_poll : ℕ
  pub collected_at : ℕ
  pub stale : Bool
  pub poll_err : String
  pub store_err : String
  pub presence_err : String
  pub roster_err : String
  pub noted_unsupported : Bool

abbrev pub new_collector : Collector
new_collector = record {
  up = [];
  down = [];
  seeded = [];
  pending = [];
  pending_roster = none;
  pending_roster_version = 0;
  roster_version = 0;
  last_poll = 0;
  collected_at = 0;
  stale = false;
  poll_err = "";
  store_err = "";
  presence_err = "";
  roster_err = "";
  noted_unsupported = false;
}

-- sampleRoster; a nil source is none
unfoldable pub sample_roster : Option (RosterParse × ℕ) → Collector → Collector
sample_roster none c = c
sample_roster (some (latest, version)) c =
    if ltb 0 version
      && (not (version == c.roster_version) && not (version == c.pending_roster_version))
    then record c { pending_roster = some latest; pending_roster_version = version }
    else c

-- After a roster was persisted.
unfoldable pub settle_roster : Option RosterParse → Collector → Collector
settle_roster none c = c
settle_roster (some roster) c = record c {
  roster_version = c.pending_roster_version;
  pending_roster = none;
}

-- Purge
unfoldable pub purge : String → Collector → Collector
purge email c = record c {
  up = delete email c.up;
  down = delete email c.down;
  seeded = delete email c.seeded;
  pending = delete email c.pending;
}

-- trackersFor, one direction
abbrev pub tracker_or_new : Option Tracker → Tracker
tracker_or_new none = new_tracker false
tracker_or_new (some t) = t

abbrev pub pending_or_zero : Option PendingDelta → PendingDelta
pending_or_zero none = record { up = 0; down = 0; seen_now = false }
pending_or_zero (some p) = p

abbrev pub is_true : Option Bool → Bool
is_true none = false
is_true (some b) = b

-- What one raw reading adds to the pending traffic: the bytes, and whether it is activity.
unfoldable pub reading_credit : Bool → Bool → RawTraffic → Tracker → Tracker → PendingDelta
reading_credit seeded existing raw up down =
    let seed : PendingDelta = record {
      up = raw.up_bytes;
      down = raw.down_bytes;
      seen_now = false;
    } in
    if not seeded && not existing then seed else record {
      up = up.last_delta;
      down = down.last_delta;
      seen_now = ltb 0 (add64 up.last_delta down.last_delta);
    }

abbrev pub merge_pending : PendingDelta → PendingDelta → PendingDelta
merge_pending p d = record {
  up = add64 p.up d.up;
  down = add64 p.down d.down;
  seen_now = p.seen_now || d.seen_now;
}

-- The body of the loop over the raw counters.
unfoldable pub add_raw : List String → ℕ → RawTraffic → Collector → Collector
unfolding reading_credit
add_raw existing elapsed raw c =
    let up = reconcile.add (tracker_or_new (lookup raw.email c.up)) raw.up_bytes elapsed in
    let down = reconcile.add (tracker_or_new (lookup raw.email c.down)) raw.down_bytes elapsed in
    let credit =
      reading_credit (is_true (lookup raw.email c.seeded)) (contains existing raw.email) raw up
        down in
    record c {
      up = insert raw.email up c.up;
      down = insert raw.email down c.down;
      seeded = insert raw.email true c.seeded;
      pending =
          insert raw.email (merge_pending (pending_or_zero (lookup raw.email c.pending)) credit)
            c.pending;
    }

unfoldable pub add_raws : List String → ℕ → List RawTraffic → Collector → Collector
add_raws existing elapsed [] c = c
add_raws existing elapsed (raw ∷ raws) c =
    add_raws existing elapsed raws (add_raw existing elapsed raw c)

abbrev pub delta_of : String × PendingDelta → Delta
delta_of (email, p) = record { email = email; up = p.up; down = p.down; seen_now = p.seen_now }

-- The deltas of one poll's transaction.
abbrev pub deltas_of : Collector → List Delta
deltas_of c = map delta_of c.pending

-- logFailure and logRecovery on one slot: the new text of the slot.
abbrev pub log_failure : String → String → String
log_failure slot err = err

abbrev pub log_recovery : String → String
log_recovery slot = ""

module _ (rate : ℕ → ℕ → ℕ) where
  -- speedsLocked
  abbrev speed_of : List (String × Tracker) → String → ℕ
  speed_of trackers email = speed rate (tracker_or_new (lookup email trackers))

  unfoldable pub speeds : Collector → List (String × (ℕ × ℕ))
  speeds c = map (λ e. (e.0, (speed rate e.1, speed_of c.down e.0))) c.up
