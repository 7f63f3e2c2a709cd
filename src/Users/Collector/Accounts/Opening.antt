-- ===== src/Users/Collector/Accounts/Opening.antt =====
-- internal/users/collector.go: the first reading of a user after the start.
use xform.Base.{
  ℕ, ◌+◌, ◌<◌, String, false, List, none, string_eq, nat_eq, if◌then◌else◌, ◌≡◌, arith, eq_refl,
  Bool-cases, inl, inr,
}
use xform.Base.Lists.{contains}
use xform.Base.Assoc.{lookup, lookup-insert, IsMap, IsMap-insert}
use xform.Reconcile.{Tracker, new_tracker, word, add64}
use xform.Reconcile as reconcile
use xform.Users.Store.Poll.Totals.{Direction, uplink, downlink}
use xform.Users.Collector.{Collector, RawTraffic, add_raw, reading_credit, is_true}
use xform.Users.Collector.Accounts.{Books, raw_bytes, trackers}

-- The first reading of a user of whom the collector knows nothing, below 2^64 and with each email once
-- in the pending traffic, opens the books: on what the store holds if the user has a row there, and
-- otherwise on that plus the counter as xray has it.
pub add_raw_opens :
    (way : Direction) (existing : List String) (elapsed stored : ℕ) (raw : RawTraffic)
    (c : Collector)
    → IsMap c.pending
    → raw_bytes way raw < word
    → lookup raw.email (trackers way c) ≡ none
    → is_true (lookup raw.email c.seeded) ≡ false
    → lookup raw.email c.pending ≡ none
    → Books way raw.email
        (if contains existing raw.email then stored else stored + raw_bytes way raw)
        (add_raw existing elapsed raw c)
        stored
unfolding add_raw reading_credit reconcile.add reconcile.baseline
add_raw_opens uplink existing elapsed stored raw c m w t s p = record {
  once = IsMap-insert raw.email _ c.pending m;
  seeded = simp (lookup-insert, eq_refl);
  seen = simp (lookup-insert, eq_refl, t);
  balance = elim (Bool-cases (contains existing raw.email)) [
    | inl row ↦ simp (lookup-insert, eq_refl, t, s, p, row) (omega arith)
    | inr new ↦ simp (lookup-insert, eq_refl, t, s, p, new) (omega arith)
  ];
}
add_raw_opens downlink existing elapsed stored raw c m w t s p = record {
  once = IsMap-insert raw.email _ c.pending m;
  seeded = simp (lookup-insert, eq_refl);
  seen = simp (lookup-insert, eq_refl, t);
  balance = elim (Bool-cases (contains existing raw.email)) [
    | inl row ↦ simp (lookup-insert, eq_refl, t, s, p, row) (omega arith)
    | inr new ↦ simp (lookup-insert, eq_refl, t, s, p, new) (omega arith)
  ];
}
