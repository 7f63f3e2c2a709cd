-- ===== src/Roster/Service.antt =====
-- internal/roster/service.go: the state of the Service behind its mutex, and the operations on it
-- that run as one critical section. The store, the xray config file, the running xray and the
-- collector are reached through the interfaces `StoreApi` and `Outside`.
pub mod Queue
pub mod Failures
pub mod Waiting
use xform.Base.{
  ℕ, ◌+◌, ◌%◌, ◌^◌, String, Bool, true, false, ◌&&◌, ◌||◌, not, List, [], ◌∷◌, ◌++◌, map, Option,
  none, some, ◌==◌, string_eq, nat_eq, if◌then◌else◌,
}
use xform.Base.Lists.{is_empty}
use xform.Base.Assoc.{lookup, insert, delete}
use xform.Users.{NewRosterUser, RosterRecord, RosterEdit, Result}
use xform.XrayConfig.Render.{RenderPlan}
use xform.Roster.{
  SyncState, synced, pending, failed, ApplyState, apply_pending, apply_failed, PushOp,
  PendingChange, zero_change,
}

-- The mutable fields of Service. `settled` counts the broadcasts, `kicked` is the buffered kick.
pub record Service : Type 0 where
  pub next_gen : ℕ
  pub queue : List (String × PendingChange)
  pub failures : List (String × Bool)
  pub settled : ℕ
  pub kicked : Bool
  pub last_apply_err : String

abbrev pub new_service : Service
new_service = record {
  next_gen = 0;
  queue = [];
  failures = [];
  settled = 0;
  kicked = false;
  last_apply_err = "";
}

abbrev pub or_zero : Option PendingChange → PendingChange
or_zero none = zero_change
or_zero (some c) = c

abbrev pub is_some {ℓ} : {A : Type ℓ} → Option A → Bool
is_some none = false
is_some (some a) = true

abbrev pub or_false : Option Bool → Bool
or_false none = false
or_false (some b) = b

-- takePending
unfoldable pub take_pending : String → Service → PendingChange × Service
take_pending email s = (or_zero (lookup email s.queue), record s { queue = delete email s.queue })

-- enqueueGen, with the kick
unfoldable pub enqueue_gen : RosterRecord → List PushOp → Bool → Service → Service
enqueue_gen r ops purge s =
    let gen = (s.next_gen + 1) % 2 ^ 64 in
    record s {
      next_gen = gen;
      queue =
          insert r.email (record { id = r.client_id; ops = ops; gen = gen; purge = purge }) s.queue;
      failures = delete r.email s.failures;
      kicked = true;
    }

abbrev pub enqueue : RosterRecord → List PushOp → Service → Service
enqueue r ops = enqueue_gen r ops false

abbrev pub enqueue_delete : RosterRecord → List PushOp → Service → Service
enqueue_delete r ops = enqueue_gen r ops true

-- Sync, syncLocked
unfoldable pub sync : Service → SyncState
sync s =
    if not (is_empty s.failures) then failed else if not (is_empty s.queue) then pending else synced

abbrev mark_all : ApplyState → List String → List (String × ApplyState) → List (String × ApplyState)
mark_all a [] m = m
mark_all a (email ∷ rest) m = mark_all a rest (insert email a m)

-- UserStates
unfoldable pub user_states : Service → List (String × ApplyState)
user_states s =
    mark_all apply_failed (map (λ e. e.0) s.failures)
      (mark_all apply_pending (map (λ e. e.0) s.queue) [])

-- hasPending
unfoldable pub has_pending : String → Service → Bool
has_pending email s = is_some (lookup email s.queue)

abbrev pub has_gen : ℕ → Option PendingChange → Bool
has_gen gen none = false
has_gen gen (some c) = c.gen == gen

-- supersededLocked
unfoldable pub superseded : String → ℕ → Service → Bool
superseded email gen s = not (has_gen gen (lookup email s.queue))

unfoldable pub mark_failed : String → Service → Service
mark_failed email s = record s { failures = insert email true s.failures }

-- failed[email] = true, unless a newer change replaced the one of the pass
unfoldable pub fail_change : String → PendingChange → Service → Service
unfolding superseded mark_failed
fail_change email change s = if superseded email change.gen s then s else mark_failed email s

-- delete(s.pending, email); delete(s.failed, email)
unfoldable pub drop_change : String → Service → Service
drop_change email s = record s { queue = delete email s.queue; failures = delete email s.failures }

-- What stays queued of a delete whose erase could not write.
unfoldable pub requeue_purge : String → PendingChange → Service → Service
requeue_purge email change s = record s {
  failures = insert email true s.failures;
  queue =
      insert email (record { id = change.id; ops = []; purge = true; gen = change.gen }) s.queue;
}

-- logFailure: only the remembered message is state
unfoldable pub log_failure : String → Service → Service
log_failure msg s = if s.last_apply_err == msg then s else record s { last_apply_err = msg }

unfoldable pub clear_error : Service → Service
clear_error s =
    if is_empty s.queue && is_empty s.failures then record s { last_apply_err = "" } else s

unfoldable pub broadcast : Service → Service
broadcast s = record s { settled = s.settled + 1 }

-- One turn of waitSettled: the state that it reads under the lock, and the one that Sync reads when
-- it takes the lock again.
abbrev pub Look : Type 0
Look = Service × Service

settled_answer : String → Look → Option SyncState
settled_answer email look =
    if or_false (lookup email look.0.failures)
    then some failed
    else if not (is_some (lookup email look.0.queue))
    then some (sync look.1)
    else none

abbrev or_else {ℓ} : {A : Type ℓ} → Option A → A → A
or_else (some a) b = a
or_else none b = b

-- waitSettled: the turn at the call, then one at each broadcast that comes before the timer.
unfoldable pub wait_settled : String → Look → List Look → SyncState
unfolding settled_answer
wait_settled email look [] = or_else (settled_answer email look) pending
wait_settled email look (next ∷ rest) =
    let later = wait_settled email next rest in or_else (settled_answer email look) later

-- The roster persistence seam over a store state S. A method that only reads returns no state.
pub record StoreApi (S : Type 0) : Type 0 where
  pub add_roster_user : NewRosterUser → ℕ → S → Result RosterRecord × S
  pub roster_record : String → S → Result RosterRecord
  pub disabled_roster_record : String → S → Result RosterRecord
  pub roster_records : S → Result (List RosterRecord)
  pub edit_roster_user : String → RosterEdit → ℕ → S → Result RosterRecord × S
  pub disable_roster_user : String → ℕ → S → Result (Unit {0}) × S
  pub enable_roster_user : String → ℕ → S → Result (RosterRecord × Bool) × S
  pub mark_roster_deleting : String → ℕ → S → Result (Unit {0}) × S
  pub purge_roster_user : String → S → Result (Unit {0}) × S
  pub deleting_roster_records : S → Result (List RosterRecord)

-- xraygrpc.ManagedUser
pub record ManagedUser : Type 0 where
  pub email : String
  pub id : String
  pub flow : String

-- Renderer, Pusher and PurgeNotifier over a state X of what is outside the panel. An error is its
-- message, `none` is success.
pub record Outside (X : Type 0) : Type 0 where
  pub render : RenderPlan → X → Option String × X
  pub add_user : String → ManagedUser → X → Option String × X
  pub remove_user : String → String → X → Option String × X
  pub purge : String → X → X
