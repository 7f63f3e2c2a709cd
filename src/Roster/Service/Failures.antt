-- ===== src/Roster/Service/Failures.antt =====
-- Who is marked failed, and what the retries can still do for them.
use xform.Base.{
  ◌+◌, ◌%◌, ◌^◌, String, true, List, [], ◌∷◌, none, string_eq, nat_eq, ◌≡◌, refl, arith, eq_iff,
  eq_refl,
}
use xform.Base.Lists.{is_empty}
use xform.Base.Assoc.{lookup, lookup-insert, lookup-delete}
use xform.Roster.{PendingChange, synced}
use xform.Roster.Service.{
  Service, take_pending, enqueue_gen, superseded, fail_change, drop_change, requeue_purge, is_some,
  sync,
}
use xform.Roster.Service.Queue.{Event, enqueues, takes, fails, settles, requeues, step}

-- Whoever is marked failed has a change in the queue, which the retries pick up.
abbrev pub IsRetriable : Service → Type 0
IsRetriable s =
    (email : String)
    → is_some (lookup email s.failures) ≡ true
    → is_some (lookup email s.queue) ≡ true

-- A mutation that takes a change off the queue puts one back in the same step, or finds none.
abbrev pub IsReplaced : Event → Service → Type 0
IsReplaced (takes email) s = lookup email s.failures ≡ none
IsReplaced _ s = Unit

-- Each critical section of the service keeps it so that whoever is marked failed has a change in the
-- queue; of a section that takes a change off the queue this holds if its email is not marked failed.
pub step-IsRetriable :
    (e : Event) (s : Service) → IsReplaced e s → IsRetriable s → IsRetriable (step e s)
unfolding step enqueue_gen take_pending fail_change drop_change requeue_purge superseded
step-IsRetriable (enqueues r ops purge) s u h j = ground (
  arith,
  h j,
  lookup-delete r.email j s.failures,
  lookup-insert r.email j
      (record { id = r.client_id; ops = ops; gen = (s.next_gen + 1) % 2 ^ 64; purge = purge })
      s.queue,
)
step-IsRetriable (takes email) s u h j =
    ground (arith, h j, lookup-delete email j s.queue, eq_iff email j)
step-IsRetriable (fails email change) s u h j =
    ground (arith, h j, lookup-insert email j true s.failures, eq_iff email j)
step-IsRetriable (settles email change) s u h j =
    ground (arith, h j, lookup-delete email j s.queue, lookup-delete email j s.failures)
step-IsRetriable (requeues email change) s u h j =
    let s' = drop_change email s in
    let kept : PendingChange = record {
      id = change.id;
      ops = [];
      purge = true;
      gen = change.gen;
    } in
    ground (
      arith,
      h j,
      lookup-insert email j kept s'.queue,
      lookup-insert email j true s'.failures,
      lookup-delete email j s.queue,
      lookup-delete email j s.failures,
    )

module _ {ℓ} {V : Type ℓ} where
  -- A map in which every key reads as absent is empty.
  pub empty_of_lookup :
      (m : List (String × V)) → ((k : String) → lookup k m ≡ none) → is_empty m ≡ true
  unfolding lookup
  empty_of_lookup [] h = refl
  empty_of_lookup ((k, v) ∷ m) h = ground (arith, h k, eq_refl k)

synced_of_empty :
    (s : Service) → is_empty s.queue ≡ true → is_empty s.failures ≡ true → sync s ≡ synced
unfolding sync
synced_of_empty s q f = ground arith

-- Where everybody who is marked failed can be retried, an empty queue reads as synced.
pub sync-IsRetriable :
    (s : Service)
    → IsRetriable s
    → ((email : String) → lookup email s.queue ≡ none)
    → sync s ≡ synced
sync-IsRetriable s h none_left =
    synced_of_empty s (empty_of_lookup s.queue none_left)
      (empty_of_lookup s.failures λ email. ground (arith, h email, none_left email))
