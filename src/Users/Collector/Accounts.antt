-- ===== src/Users/Collector/Accounts.antt =====
-- internal/users/collector.go: the books of one user and direction: what the store holds and what is pending, against what the
-- tracker has counted. All three wrap at 2^64.
pub mod Polls
pub mod Opening
use xform.Base.{
  ℕ, ◌+◌, ◌%◌, ◌^◌, ◌<◌, String, Bool, true, false, not, ◌&&◌, ◌||◌, List, [], ◌∷◌, map, Option,
  none, some, ◌==◌, string_eq, nat_eq, if◌then◌else◌, ltb, ◌≡◌, refl, arith, ◌∙◌, sym, ap, subst,
  eq_iff, eq_refl, Option-cases, Bool-cases, inl, inr,
}
use xform.Base.Lists.{contains, All}
use xform.Base.Assoc.{
  lookup, insert, delete, lookup-insert, lookup-insert_self, lookup-delete, IsMap, IsMap-insert,
}
use xform.XrayConfig.RosterParse.{RosterParse}
use xform.Reconcile.{Tracker, new_tracker, word, add64}
use xform.Reconcile as reconcile
use xform.Reconcile.Totals.{seen-add}
use xform.Users.{Result, ok, err}
use xform.Users.Store.Poll.{Delta, Presence}
use xform.Users.Store.Poll.Totals.{Direction, uplink, downlink, reported, credited}
use xform.Users.Collector.{
  Collector, RawTraffic, PendingDelta, sample_roster, settle_roster, add_raw, add_raws, deltas_of,
  delta_of, reading_credit, tracker_or_new, pending_or_zero, is_true, merge_pending,
}
use xform.Users.Collector.Collect.{
  Persistence, Poll, TrafficAnswer, PresenceAnswer, presence, unsupported, presence_failed,
  note_presence, raw_traffic, traffic_failed, collect, gather, persisted, flush_roster, flushed,
  written, polled, answered,
}

abbrev pub trackers : Direction → Collector → List (String × Tracker)
trackers uplink c = c.up
trackers downlink c = c.down

abbrev pub tracker_of : Direction → String → Collector → Tracker
tracker_of way e c = tracker_or_new (lookup e (trackers way c))

abbrev pub amount : Direction → PendingDelta → ℕ
amount uplink p = p.up
amount downlink p = p.down

-- What is still to be written for the user.
abbrev pub owed : Direction → String → Collector → ℕ
owed way e c = amount way (pending_or_zero (lookup e c.pending))

abbrev pub raw_bytes : Direction → RawTraffic → ℕ
raw_bytes uplink raw = raw.up_bytes
raw_bytes downlink raw = raw.down_bytes

last_delta-add :
    (t : Tracker) (raw elapsed : ℕ)
    → t.seen ≡ true
    → (reconcile.add t raw elapsed).total
      ≡ (t.total + (reconcile.add t raw elapsed).last_delta) % word
unfolding reconcile.add reconcile.observe
last_delta-add t raw elapsed seen = ground arith

module _ (way : Direction) (e : String) where
  credited-none :
      (m : List (String × PendingDelta)) → lookup e m ≡ none → credited way e (map delta_of m) ≡ 0
  unfolding lookup credited
  credited-none [] h = refl
  credited-none ((k, p) ∷ m) h = ground (arith, credited-none m)

  amount-reported :
      (way : Direction) (k : String) (p : PendingDelta)
      → reported way (delta_of (k, p)) ≡ amount way p
  amount-reported uplink k p = refl
  amount-reported downlink k p = refl

  -- The transaction of a poll credits what is owed.
  pub credited-deltas_of :
      (m : List (String × PendingDelta))
      → IsMap m
      → credited way e (map delta_of m) ≡ amount way (pending_or_zero (lookup e m))
  unfolding lookup credited
  credited-deltas_of [] h = zero_owed way
    where
      zero_owed : (way : Direction) → 0 ≡ amount way (pending_or_zero none)
      zero_owed uplink = refl
      zero_owed downlink = refl
  credited-deltas_of ((k, p) ∷ m) h = elim (Bool-cases (k == e)) [
    | inl own ↦
        let gone : lookup e m ≡ none = subst (λ j. lookup j m ≡ none) ((eq_iff k e).0 own) h.0 in
        rw own (omega (arith, credited-none m gone, amount-reported way k p))
    | inr other ↦ rw other (omega (arith, credited-deltas_of m h.1))
  ]

-- The pending map is a map, the user's baseline is taken, and modulo 2^64 what is stored (`stored`)
-- and what is owed make up `base` and what the tracker has counted.
pub record Books (way : Direction) (e : String) (base : ℕ) (c : Collector) (stored : ℕ)
    : Type 0 where
  pub once : IsMap c.pending
  pub seeded : is_true (lookup e c.seeded) ≡ true
  pub seen : (tracker_of way e c).seen ≡ true
  pub balance : (stored + owed way e c) % word ≡ (base + (tracker_of way e c).total) % word

owed-add_raw_own :
    (way : Direction) (existing : List String) (elapsed : ℕ) (raw : RawTraffic) (c : Collector)
    → is_true (lookup raw.email c.seeded) ≡ true
    → owed way raw.email (add_raw existing elapsed raw c)
      ≡ add64
          (owed way raw.email c)
          (reconcile.add (tracker_of way raw.email c) (raw_bytes way raw) elapsed).last_delta
unfolding add_raw reading_credit
owed-add_raw_own uplink existing elapsed raw c s = rw (lookup-insert_self, s)
owed-add_raw_own downlink existing elapsed raw c s = rw (lookup-insert_self, s)

module _ (e : String) where
  pub tracker_of-add_raw :
      (way : Direction) (existing : List String) (elapsed : ℕ) (raw : RawTraffic) (c : Collector)
      → tracker_of way e (add_raw existing elapsed raw c) ≡ (
          if raw.email == e
          then reconcile.add (tracker_of way e c) (raw_bytes way raw) elapsed
          else tracker_of way e c)
  unfolding add_raw
  tracker_of-add_raw uplink existing elapsed raw c = ground (
    arith,
    eq_iff raw.email e,
    lookup-insert raw.email e
        (reconcile.add (tracker_or_new (lookup raw.email c.up)) raw.up_bytes elapsed) c.up,
  )
  tracker_of-add_raw downlink existing elapsed raw c = ground (
    arith,
    eq_iff raw.email e,
    lookup-insert raw.email e
        (reconcile.add (tracker_or_new (lookup raw.email c.down)) raw.down_bytes elapsed) c.down,
  )

  pub owed-add_raw :
      (way : Direction) (existing : List String) (elapsed : ℕ) (raw : RawTraffic) (c : Collector)
      → is_true (lookup e c.seeded) ≡ true
      → owed way e (add_raw existing elapsed raw c) ≡ (
          if raw.email == e
          then add64
              (owed way e c)
              (reconcile.add (tracker_of way e c) (raw_bytes way raw) elapsed).last_delta
          else owed way e c)
  unfolding add_raw
  owed-add_raw way existing elapsed raw c s = elim (Bool-cases (raw.email == e)) [
    | inl own ↦ rw own (
        subst
          (λ x.
            owed way x (add_raw existing elapsed raw c)
            ≡ add64 (owed way x c)
                (reconcile.add (tracker_of way x c) (raw_bytes way raw) elapsed).last_delta)
          ((eq_iff raw.email e).0 own)
          (owed-add_raw_own way existing elapsed raw c
            (subst (λ x. is_true (lookup x c.seeded) ≡ true) (sym ((eq_iff raw.email e).0 own)) s)))
    | inr other ↦ rw (lookup-insert, other)
  ]

  pub add_raw-Books :
      (way : Direction) (base stored : ℕ) (existing : List String) (elapsed : ℕ) (raw : RawTraffic)
      (c : Collector)
      → Books way e base c stored
      → Books way e base (add_raw existing elapsed raw c) stored
  add_raw-Books way base stored existing elapsed raw c b = record {
    once = unfold add_raw in IsMap-insert raw.email _ c.pending b.once;
    seeded = unfold add_raw in ground (arith, b.seeded, lookup-insert raw.email e true c.seeded);
    seen = ground (
      arith,
      tracker_of-add_raw way existing elapsed raw c,
      b.seen,
      seen-add (tracker_of way e c) (raw_bytes way raw) elapsed b.seen,
    );
    balance = ground (
      arith,
      tracker_of-add_raw way existing elapsed raw c,
      owed-add_raw way existing elapsed raw c b.seeded,
      b.balance,
      last_delta-add (tracker_of way e c) (raw_bytes way raw) elapsed b.seen,
    );
  }

  pub add_raws-Books :
      (way : Direction) (base stored : ℕ) (existing : List String) (elapsed : ℕ)
      (raws : List RawTraffic) (c : Collector)
      → Books way e base c stored
      → Books way e base (add_raws existing elapsed raws c) stored
  unfolding add_raws
  add_raws-Books way base stored existing elapsed [] c b = b
  add_raws-Books way base stored existing elapsed (raw ∷ raws) c b =
      add_raws-Books way base stored existing elapsed raws (add_raw existing elapsed raw c)
        (add_raw-Books way base stored existing elapsed raw c b)

  -- The other fields are not part of the books.
  pub Books-same :
      (way : Direction) (base stored : ℕ) (c q : Collector)
      → q.up ≡ c.up
      → q.down ≡ c.down
      → q.seeded ≡ c.seeded
      → q.pending ≡ c.pending
      → Books way e base c stored
      → Books way e base q stored
  Books-same uplink base stored c q u d s p b = record {
    once = rw p b.once;
    seeded = rw s b.seeded;
    seen = rw u b.seen;
    balance = rw (u, p) b.balance;
  }
  Books-same downlink base stored c q u d s p b = record {
    once = rw p b.once;
    seeded = rw s b.seeded;
    seen = rw d b.seen;
    balance = rw (d, p) b.balance;
  }

  pub sample_roster-Books :
      (way : Direction) (base stored : ℕ) (o : Option (RosterParse × ℕ)) (c : Collector)
      → Books way e base c stored
      → Books way e base (sample_roster o c) stored
  unfolding sample_roster
  sample_roster-Books way base stored none c b = b
  sample_roster-Books way base stored (some (latest, version)) c b =
      elim (Bool-cases (
        ltb 0 version
        && (not (version == c.roster_version) && not (version == c.pending_roster_version)))) [
          | inl taken ↦ rw taken (Books-same way base stored c _ refl refl refl refl b)
          | inr kept ↦ rw kept b
        ]

  pub settle_roster-Books :
      (way : Direction) (base stored : ℕ) (o : Option RosterParse) (c : Collector)
      → Books way e base c stored
      → Books way e base (settle_roster o c) stored
  unfolding settle_roster
  settle_roster-Books way base stored none c b = b
  settle_roster-Books way base stored (some roster) c b =
      Books-same way base stored c _ refl refl refl refl b

  -- What was owed is stored now.
  pub cleared-Books :
      (way : Direction) (base stored more : ℕ) (c q : Collector)
      → q.up ≡ c.up
      → q.down ≡ c.down
      → q.seeded ≡ c.seeded
      → q.pending ≡ []
      → more ≡ owed way e c
      → Books way e base c stored
      → Books way e base q (stored + more)
  unfolding lookup
  cleared-Books uplink base stored more c q u d s p m b = record {
    once = rw p tt;
    seeded = rw s b.seeded;
    seen = rw u b.seen;
    balance = rw (u, p, m) (omega (arith, b.balance));
  }
  cleared-Books downlink base stored more c q u d s p m b = record {
    once = rw p tt;
    seeded = rw s b.seeded;
    seen = rw d b.seen;
    balance = rw (d, p, m) (omega (arith, b.balance));
  }
