-- ===== src/Users/Collector/Accounts/Polls.antt =====
-- internal/users/collector.go: the books through whole calls of Collect, over any store that credits
-- what it accepts.
use xform.Base.{
  ℕ, ◌+◌, String, List, [], ◌∷◌, Option, none, some, string_eq, nat_eq, ◌≡◌, refl, arith, ◌∙◌, sym,
  ap,
}
use xform.XrayConfig.RosterParse.{RosterParse}
use xform.Users.{Result, ok, err}
use xform.Users.Store.Poll.{Delta, Presence}
use xform.Users.Store.Poll.Totals.{Direction, credited}
use xform.Users.Collector.{Collector, RawTraffic, sample_roster, deltas_of}
use xform.Users.Collector.Collect.{
  run_polls, Persistence, Poll, TrafficAnswer, PresenceAnswer, presence, unsupported,
  presence_failed, note_presence, raw_traffic, traffic_failed, collect, gather, persisted,
  flush_roster, flushed, written, polled, answered,
}
use xform.Users.Collector.Accounts.{
  Books, Books-same, sample_roster-Books, settle_roster-Books, cleared-Books, add_raws-Books,
  credited-deltas_of,
}

-- A store that credits what it accepts, and is as it was where it refuses.
pub record Credits {S : Type 0} (store : Persistence S) (total : Direction → String → S → ℕ)
    : Type 0 where
  pub accepts :
      (way : Direction) (e : String) (deltas : List Delta) (rows : List Presence)
      (roster : Option RosterParse) (now : ℕ) (s : S)
      → (store.apply_poll deltas rows roster now s).0 ≡ ok tt
      → total way e (store.apply_poll deltas rows roster now s).1
        ≡ total way e s + credited way e deltas
  pub refuses :
      (way : Direction) (e : String) (deltas : List Delta) (rows : List Presence)
      (roster : Option RosterParse) (now : ℕ) (s : S) (x : _)
      → (store.apply_poll deltas rows roster now s).0 ≡ err x
      → total way e (store.apply_poll deltas rows roster now s).1 ≡ total way e s

module _ {S : Type 0} (store : Persistence S) (since rate : ℕ → ℕ → ℕ) (unix : ℕ → ℕ)
    (geo : Option (String → String)) (total : Direction → String → S → ℕ)
    (credits : Credits store total) (way : Direction) (e : String) (base : ℕ) where
  abbrev BooksOf : Collector × S → Type 0
  BooksOf (c, s) = Books way e base c (total way e s)

  flushed-Books :
      (o : Result (Unit {0}) × S) (roster : Option RosterParse) (c : Collector) (n : ℕ)
      → total way e o.1 ≡ n
      → Books way e base c n
      → BooksOf (flushed store since rate unix geo o roster c)
  flushed-Books (err x, s) roster c n h b = rw h (Books-same e way base n c _ refl refl refl refl b)
  flushed-Books (ok x, s) roster c n h b = rw h (
      settle_roster-Books e way base n roster _ (Books-same e way base n c _ refl refl refl refl b))

  note_presence-Books :
      (o : PresenceAnswer) (c : Collector) (n : ℕ)
      → Books way e base c n
      → Books way e base (note_presence o c) n
  note_presence-Books (presence online) c n b = Books-same e way base n c _ refl refl refl refl b
  note_presence-Books unsupported c n b = Books-same e way base n c _ refl refl refl refl b
  note_presence-Books (presence_failed m) c n b = Books-same e way base n c _ refl refl refl refl b

  -- A transaction without deltas leaves the totals.
  idle-total :
      (roster : Option RosterParse) (now : ℕ) (s : S)
      → total way e (store.apply_poll [] [] roster now s).1 ≡ total way e s
  unfolding credited
  idle-total roster now s = go ((store.apply_poll [] [] roster now s).0) refl
    where
      go :
          (r : Result (Unit {0}))
          → (store.apply_poll [] [] roster now s).0 ≡ r
          → total way e (store.apply_poll [] [] roster now s).1 ≡ total way e s
      go (ok tt) h = credits.accepts way e [] [] roster now s h ∙ omega arith
      go (err x) h = credits.refuses way e [] [] roster now s x h

  flush_roster-Books :
      (now : ℕ) (roster : Option RosterParse) (c : Collector) (s : S)
      → Books way e base c (total way e s)
      → BooksOf (flush_roster store since rate unix geo now roster (c, s))
  unfolding flush_roster
  flush_roster-Books now none c s b = b
  flush_roster-Books now (some roster) c s b =
      flushed-Books (store.apply_poll [] [] (some roster) (unix now) s) (some roster) c _
        (idle-total (some roster) (unix now) s) b

  written-Books :
      (poll : Poll) (rows : List Presence) (c : Collector) (s : S) (o : Result (Unit {0}) × S)
      → store.apply_poll (deltas_of c) rows c.pending_roster (unix poll.now) s ≡ o
      → Books way e base c (total way e s)
      → BooksOf (written store since rate unix geo poll c.pending_roster c o).1
  unfolding persisted
  written-Books poll rows c s (err x, s') h b =
      let same =
        credits.refuses way e (deltas_of c) rows c.pending_roster (unix poll.now) s x
          (ap (λ o. o.0) h) in
      let n : total way e s' ≡ total way e s = ap (λ o. total way e o.1) (sym h) ∙ same in
      rw n (Books-same e way base _ c _ refl refl refl refl b)
  written-Books poll rows c s (ok tt, s') h b =
      let more =
        credits.accepts way e (deltas_of c) rows c.pending_roster (unix poll.now) s
          (ap (λ o. o.0) h) in
      let n : total way e s' ≡ total way e s + credited way e (deltas_of c) =
        ap (λ o. total way e o.1) (sym h) ∙ more in
      rw n (
        Books-same e way base _ _ _ refl refl refl refl (
          settle_roster-Books e way base _ c.pending_roster _ (
            cleared-Books e way base _ _ c _ refl refl refl refl
              (credited-deltas_of way e c.pending b.once) b)))

  polled-Books :
      (poll : Poll) (raws : List RawTraffic) (o : Result (List String)) (c : Collector) (s : S)
      → Books way e base c (total way e s)
      → BooksOf (polled store since rate unix geo poll raws o (c, s)).1
  unfolding gather
  polled-Books poll raws (err x) c s b = b
  polled-Books poll raws (ok existing) c s b =
      written-Books poll _ (gather since poll.now existing raws c) s _ refl (
        add_raws-Books e way base (total way e s) existing _ raws _
          (Books-same e way base _ c _ refl refl refl refl b))

  answered-Books :
      (poll : Poll) (answer : TrafficAnswer) (c : Collector) (s : S)
      → Books way e base c (total way e s)
      → BooksOf (answered store since rate unix geo poll answer (c, s)).1
  answered-Books poll (traffic_failed m) c s b =
      flush_roster-Books poll.now _ _ s (Books-same e way base _ c _ refl refl refl refl b)
  answered-Books poll (raw_traffic raws) c s b =
      polled-Books poll raws _ (note_presence poll.online (record c { poll_err = "" })) s
        (note_presence-Books poll.online _ _ (Books-same e way base _ c _ refl refl refl refl b))

  -- No byte is lost or counted twice: once a user's baseline is taken, what the store holds and what
  -- is pending make up the base and what the tracker has counted, modulo 2^64, after any number of
  -- polls, of which any may fail to query xray, to read the store or to write to it.
  pub run_polls-Books :
      (polls : List Poll) (c : Collector) (s : S)
      → Books way e base c (total way e s)
      → let after = run_polls store since rate unix geo polls (c, s) in
        Books way e base after.0 (total way e after.1)
  unfolding run_polls collect
  run_polls-Books [] c s b = b
  run_polls-Books (poll ∷ polls) c s b = run_polls-Books polls _ _ (
      answered-Books poll poll.traffic (sample_roster poll.roster c) s
        (sample_roster-Books e way base _ poll.roster c b))
