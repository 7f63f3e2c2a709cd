-- ===== src/Roster/Mutations.antt =====
-- internal/roster/service.go: the mutations. Each runs from its validation to the point where it
-- answers at once or waits for the apply; `wait_settled` gives the Roster sync state of one that
-- waits. uuid.Parse is the parameter `parse_uuid` (its answer in canonical form), uuid.NewString the
-- argument `fresh`, and `now` the clock.
pub mod Leaving
pub mod Removal
use xform.Base.{
  ℕ, String, Bool, true, false, not, List, [], ◌∷◌, ◌++◌, map, Option, none, some, ◌==◌, string_eq,
  nat_eq, if◌then◌else◌, ltb,
}
use xform.Base.Lists.{is_empty, length, contains}
use xform.Base.Text.{CaseTables, trim_space}
use xform.XrayConfig.{View, default_flow}
use xform.Users.{
  Result, ok, err, StoreError, email_taken, client_id_taken, roster_not_found, RosterRecord,
}
use xform.Roster.{SyncState, PushOp, op_attach, attached_tags, detach_ops, diff_ops}
use xform.Roster.Service.{Service, StoreApi, take_pending, enqueue, enqueue_delete, sync}
use xform.Roster.Plan.{find_managed, dedupe_order, seed_labels}
use mathlib.Core.Option

pub data Reason : Type 0 where
  reason_email_invalid reason_email_taken reason_client_id_invalid : Reason
  reason_client_id_taken reason_unknown_inbound : Reason

-- What a mutation comes to: an error, an answer with the sync state of the moment, or a record whose
-- change is queued and waited for. `A` is what the mutation reports beside the sync state.
pub data Outcome (A : Type 0) : Type 0 where
  conflict : Reason → Outcome A
  not_found : String → Outcome A
  store_error : StoreError → Outcome A
  answered : A → SyncState → Outcome A
  queued : A → String → Outcome A

-- The service and its store.
pub record State (S : Type 0) : Type 0 where
  pub service : Service
  pub store : S

abbrev pub Step : Type 0 → Type 0 → Type 0
Step S A = State S → Outcome A × State S

-- The client ID of a request: `some (some id)` in canonical form, `some none` where it is blank.
unfoldable pub request_id : (String → Option String) → String → Option (Option String)
request_id parse_uuid raw =
    let text = trim_space raw in if text == "" then some none else Option.map some (parse_uuid text)

abbrev some_or {ℓ} : {A : Type ℓ} → Option A → A → A
some_or none a = a
some_or (some b) a = b

-- One selected inbound with its attach-time flow.
abbrev pub Selected : Type 0
Selected = String × String

abbrev cons_selected : Selected → Option (List Selected) → Option (List Selected)
cons_selected s none = none
cons_selected s (some rest) = some (s ∷ rest)

-- The loop over a selection: an unknown tag is dropped where `prune` holds, and refused otherwise.
unfoldable pub select_tags : CaseTables → View → Bool → List String → Option (List Selected)
select_tags u view prune [] = some []
select_tags u view prune (tag ∷ tags) =
    let rest = select_tags u view prune tags in
    elim (find_managed u view tag) [
      | none ↦ if prune then rest else none
      | some i ↦ cons_selected (tag, default_flow i) rest
    ]

abbrev pub tags_of : List Selected → List String
tags_of = map (λ s. s.0)

abbrev attach : Selected → PushOp
attach s = record { kind = op_attach; tag = s.0; flow = s.1 }

abbrev pub attach_ops : List Selected → List PushOp
attach_ops = map attach

-- append(tags, op.tag) for each tag that is not there yet
abbrev pub add_missing : List String → List String → List String
add_missing tags [] = tags
add_missing tags (t ∷ rest) =
    add_missing (if not (contains tags t) then tags ++ t ∷ [] else tags) rest

-- The `before` that the diff reads: on the keep path it claims only what the config still carries.
abbrev pub pruned_before : RosterRecord → Option (List String) → List Selected → RosterRecord
pruned_before before none selected = record before { inbounds = tags_of selected }
pruned_before before (some _) selected = before

abbrev is_none {ℓ} : {A : Type ℓ} → Option A → Bool
is_none none = true
is_none (some _) = false

abbrev pub or_nothing {ℓ} : {A : Type ℓ} → Option (List A) → List A
or_nothing none = []
or_nothing (some xs) = xs

module _ {S : Type 0} (u : CaseTables) (api : StoreApi S) (view : View) (now : ℕ) where
  -- queueOps, up to its wait
  queue_ops : RosterRecord → List PushOp → Step S RosterRecord
  queue_ops r ops st = (queued r r.email, record st { service = enqueue r ops st.service })

  added : List PushOp → Service → Result RosterRecord × S → Outcome RosterRecord × State S
  unfolding queue_ops
  added ops svc (err email_taken, store) =
      (conflict reason_email_taken, record { service = svc; store = store })
  added ops svc (err client_id_taken, store) =
      (conflict reason_client_id_taken, record { service = svc; store = store })
  added ops svc (err e, store) = (store_error e, record { service = svc; store = store })
  added ops svc (ok r, store) =
      let st : State S = record { service = svc; store = store } in
      if is_empty ops then (answered r (sync svc), st) else queue_ops r ops st

  -- Add
  unfoldable pub add :
      (String → Option String) → String → String → String → List String → Step S RosterRecord
  unfolding added
  add parse_uuid fresh raw_email raw_id inbounds st =
      let email = trim_space raw_email in
      if email == ""
      then (conflict reason_email_invalid, st)
      else elim (request_id parse_uuid raw_id) [
        | none ↦ (conflict reason_client_id_invalid, st)
        | some id ↦
            let tags = dedupe_order inbounds in
            elim (select_tags u view false tags) [
              | none ↦ (conflict reason_unknown_inbound, st)
              | some selected ↦
                  let ops = attach_ops selected in
                  added ops st.service (
                    api.add_roster_user
                      (record {
                        email = email;
                        client_id = some_or id fresh;
                        inbounds = tags;
                        labels = seed_labels u view ops;
                      })
                      now st.store)
            ]
      ]

  -- Edit, from the stored edit on: the plan against the change that was still queued.
  edited :
      String
      → RosterRecord
      → List Selected
      → Service
      → Result RosterRecord × S
      → Outcome RosterRecord × State S
  unfolding queue_ops
  edited email before selected svc (err client_id_taken, store) =
      (conflict reason_client_id_taken, record { service = svc; store = store })
  edited email before selected svc (err roster_not_found, store) =
      (not_found email, record { service = svc; store = store })
  edited email before selected svc (err e, store) =
      (store_error e, record { service = svc; store = store })
  edited email before selected svc (ok after, store) =
      let (prev, svc') = take_pending email svc in
      let st : State S = record { service = svc'; store = store } in
      let ops = diff_ops before after selected prev in
      if is_empty ops then (answered after (sync svc'), st) else queue_ops after ops st

  edit_record :
      String → Option String → Option (List String) → Result RosterRecord → Step S RosterRecord
  unfolding edited
  edit_record email id inbounds (err roster_not_found) st = (not_found email, st)
  edit_record email id inbounds (err e) st = (store_error e, st)
  edit_record email id inbounds (ok before) st =
      elim (select_tags u view (is_none inbounds) (some_or inbounds before.inbounds)) [
        | none ↦ (conflict reason_unknown_inbound, st)
        | some selected ↦
            edited email (pruned_before before inbounds selected) selected st.service (
              api.edit_roster_user email
                (record {
                  client_id = id;
                  inbounds = some (tags_of selected);
                  labels = seed_labels u view (attach_ops selected);
                })
                now st.store)
      ]

  -- Edit: a nil Inbounds is `none`.
  unfoldable pub edit :
      (String → Option String) → String → String → Option (List String) → Step S RosterRecord
  unfolding edit_record
  edit parse_uuid raw_email raw_id inbounds st =
      let email = trim_space raw_email in
      if email == "" then (not_found email, st) else elim (request_id parse_uuid raw_id) [
        | none ↦ (conflict reason_client_id_invalid, st)
        | some id ↦ edit_record email id inbounds (api.roster_record email st.store) st
      ]
