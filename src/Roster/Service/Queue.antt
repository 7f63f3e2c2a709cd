-- ===== src/Roster/Service/Queue.antt =====
-- The critical sections of the Service, in any order: an apply pass settles or fails the changes of
-- its snapshot while mutations queue new ones.
use xform.Base.{
  ℕ, ◌+◌, ◌%◌, ◌^◌, ◌<◌, ◌≤◌, String, Bool, true, false, List, [], ◌∷◌, none, some, ◌==◌, string_eq,
  nat_eq, if◌then◌else◌, ◌≡◌, arith, eq_iff,
}
use xform.Base.Lists.{All}
use xform.Base.Assoc.{lookup, lookup-insert, lookup-delete, lookup-insert_self, lookup-delete_self}
use xform.Users.{RosterRecord}
use xform.Roster.{PushOp, PendingChange}
use xform.Roster.Service.{
  Service, take_pending, enqueue_gen, superseded, fail_change, drop_change, requeue_purge,
}

-- One critical section: a mutation queues a change or takes one off, or the pass ends one change of
-- its snapshot by a failure, by settling it, or by a purge that could not write.
pub data Event : Type 0 where
  enqueues : RosterRecord → List PushOp → Bool → Event
  takes : String → Event
  fails settles requeues : String → PendingChange → Event

-- A settled change leaves the queue unless a newer one replaced it.
unfoldable pub settle_change : String → PendingChange → Service → Service
settle_change email change s = if superseded email change.gen s then s else drop_change email s

unfoldable pub requeue_change : String → PendingChange → Service → Service
requeue_change email change s =
    if superseded email change.gen s then s else requeue_purge email change (drop_change email s)

unfoldable pub step : Event → Service → Service
unfolding settle_change requeue_change
step (enqueues r ops purge) s = enqueue_gen r ops purge s
step (takes email) s = (take_pending email s).1
step (fails email change) s = fail_change email change s
step (settles email change) s = settle_change email change s
step (requeues email change) s = requeue_change email change s

unfoldable pub run : List Event → Service → Service
run [] s = s
run (e ∷ es) s = run es (step e s)

-- The event is not another mutation of the email, and what a pass does to the email it does for a
-- change of a generation up to `gen`.
abbrev pub IsOlder : String → ℕ → Event → Type 0
IsOlder email gen (enqueues r ops purge) = (r.email == email) ≡ false
IsOlder email gen (takes e) = (e == email) ≡ false
IsOlder email gen (fails e change) = change.gen ≤ gen
IsOlder email gen (settles e change) = change.gen ≤ gen
IsOlder email gen (requeues e change) = change.gen ≤ gen

-- The change stays queued and its user is not marked failed.
pub record Keeps (email : String) (c : PendingChange) (s : Service) : Type 0 where
  pub queued : lookup email s.queue ≡ some c
  pub healthy : lookup email s.failures ≡ none

queued-enqueue_gen :
    (r : RosterRecord) (ops : List PushOp) (purge : Bool) (s : Service)
    → s.next_gen + 1 < 2 ^ 64
    → Keeps r.email
        (record { id = r.client_id; ops = ops; gen = s.next_gen + 1; purge = purge })
        (enqueue_gen r ops purge s)
unfolding enqueue_gen
queued-enqueue_gen r ops purge s room =
    let gen : (s.next_gen + 1) % 2 ^ 64 ≡ s.next_gen + 1 = omega arith in
    record {
      queued = rw (lookup-insert_self, gen);
      healthy = lookup-delete_self r.email s.failures;
    }

step-Keeps :
    (email : String) (c : PendingChange) (gen : ℕ) (e : Event) (s : Service)
    → gen < c.gen
    → IsOlder email gen e
    → Keeps email c s
    → Keeps email c (step e s)
unfolding step enqueue_gen take_pending fail_change drop_change requeue_purge superseded
step-Keeps email c gen (enqueues r ops purge) s newer old k = record {
  queued = rw lookup-insert (ground (arith, k.queued));
  healthy = rw lookup-delete (ground (arith, k.healthy));
}
step-Keeps email c gen (takes e) s newer old k = record {
  queued = rw lookup-delete (ground (arith, k.queued));
  healthy = k.healthy;
}
step-Keeps email c gen (fails e change) s newer old k =
    ground (arith, eq_iff e email, k.queued, lookup-insert e email true s.failures)
step-Keeps email c gen (settles e change) s newer old k = ground (
  arith,
  eq_iff e email,
  k.queued,
  lookup-delete e email s.queue,
  lookup-delete e email s.failures,
)
step-Keeps email c gen (requeues e change) s newer old k =
    let s' = drop_change e s in
    let kept : PendingChange = record {
      id = change.id;
      ops = [];
      purge = true;
      gen = change.gen;
    } in
    ground (
      arith,
      eq_iff e email,
      k.queued,
      k.healthy,
      lookup-insert e email kept s'.queue,
      lookup-insert e email true s'.failures,
      lookup-delete e email s.queue,
      lookup-delete e email s.failures,
    )

run-Keeps :
    (email : String) (c : PendingChange) (gen : ℕ) (es : List Event) (s : Service)
    → gen < c.gen
    → All (IsOlder email gen) es
    → Keeps email c s
    → Keeps email c (run es s)
unfolding run
run-Keeps email c gen [] s newer old k = k
run-Keeps email c gen (e ∷ es) s newer old k =
    run-Keeps email c gen es (step e s) newer old.1 (step-Keeps email c gen e s newer old.0 k)

-- A change that a mutation queues stays queued, in full, and its user is not marked failed, through
-- whatever an apply pass over an older snapshot does and whatever mutations of other users come
-- between. (The generation counter has room for one more.)
pub run-enqueue_gen :
    (r : RosterRecord) (ops : List PushOp) (purge : Bool) (es : List Event) (s : Service)
    → s.next_gen + 1 < 2 ^ 64
    → All (IsOlder r.email s.next_gen) es
    → let after = run es (enqueue_gen r ops purge s) in
      (lookup r.email after.queue
        ≡ some (record { id = r.client_id; ops = ops; gen = s.next_gen + 1; purge = purge }))
      × (lookup r.email after.failures ≡ none)
run-enqueue_gen r ops purge es s room old =
    let c : PendingChange = record {
      id = r.client_id;
      ops = ops;
      gen = s.next_gen + 1;
      purge = purge;
    } in
    let k =
      run-Keeps r.email c s.next_gen es (enqueue_gen r ops purge s) (omega arith) old
        (queued-enqueue_gen r ops purge s room) in
    (k.queued, k.healthy)
