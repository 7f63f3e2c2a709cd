-- ===== src/Roster/Mutations/Leaving.antt =====
-- internal/roster/service.go: Disable, Delete and Enable, and the recovery of deletes at the start.
use xform.Base.{
  ℕ, String, Bool, true, false, List, [], ◌∷◌, map, none, some, ◌==◌, string_eq, nat_eq,
  if◌then◌else◌, ltb,
}
use xform.Base.Lists.{is_empty, length}
use xform.Base.Text.{CaseTables, trim_space}
use xform.XrayConfig.{View}
use xform.Users.{Result, ok, err, roster_not_found, RosterRecord}
use xform.Roster.{attached_tags, detach_ops}
use xform.Roster.Service.{Service, StoreApi, take_pending, enqueue, enqueue_delete, sync}
use xform.Roster.Mutations.{
  Outcome, not_found, store_error, answered, queued, State, Step, Selected, select_tags, tags_of,
  attach_ops, add_missing, or_nothing,
}
use xform.Roster.Plan.{seed_labels}

module _ {S : Type 0} (u : CaseTables) (api : StoreApi S) (view : View) (now : ℕ) where
  -- Disable; the answer says whether a user was disabled.
  abbrev disabled_with :
      RosterRecord → List String → Service → Result (Unit {0}) × S → Outcome Bool × State S
  disabled_with before tags svc (err e, store) =
      (store_error e, record { service = svc; store = store })
  disabled_with before tags svc (ok _, store) =
      if is_empty tags
      then (answered true (sync svc), record { service = svc; store = store })
      else (
        queued true before.email,
        record { service = enqueue before (detach_ops tags) svc; store = store },
      )

  disable_record : String → Result RosterRecord → Step S Bool
  disable_record email (err roster_not_found) st = (answered false (sync st.service), st)
  disable_record email (err e) st = (store_error e, st)
  disable_record email (ok before) st =
      let (prev, svc) = take_pending email st.service in
      disabled_with before (add_missing before.inbounds (attached_tags prev.ops)) svc
        (api.disable_roster_user email now st.store)

  unfoldable pub disable : String → Step S Bool
  unfolding disable_record
  disable raw_email st =
      let email = trim_space raw_email in
      if email == ""
      then (answered false (sync st.service), st)
      else disable_record email (api.roster_record email st.store) st

  -- Delete
  abbrev deleted_with :
      RosterRecord → List String → Service → Result (Unit {0}) × S → Outcome Bool × State S
  deleted_with before tags svc (err e, store) =
      (store_error e, record { service = svc; store = store })
  deleted_with before tags svc (ok _, store) = (
    queued true before.email,
    record { service = enqueue_delete before (detach_ops tags) svc; store = store },
  )

  -- The live record, or else the disabled one.
  abbrev either_record : String → S → Result RosterRecord → Result RosterRecord
  either_record email store (err roster_not_found) = api.disabled_roster_record email store
  either_record email store r = r

  delete_record : String → Result RosterRecord → Step S Bool
  delete_record email (err roster_not_found) st = (answered false (sync st.service), st)
  delete_record email (err e) st = (store_error e, st)
  delete_record email (ok r) st =
      let (prev, svc) = take_pending email st.service in
      deleted_with r (add_missing r.inbounds (map (λ op. op.tag) prev.ops)) svc
        (api.mark_roster_deleting r.email now st.store)

  unfoldable pub delete_user : String → Step S Bool
  unfolding delete_record
  delete_user raw_email st =
      let email = trim_space raw_email in
      if email == ""
      then (answered false (sync st.service), st)
      else delete_record email (either_record email st.store (api.roster_record email st.store)) st

  -- Enable
  abbrev enabled_with :
      List Selected → Service → Result RosterRecord × S → Outcome RosterRecord × State S
  enabled_with selected svc (err e, store) =
      (store_error e, record { service = svc; store = store })
  enabled_with selected svc (ok r, store) =
      if is_empty selected
      then (answered r (sync svc), record { service = svc; store = store })
      else (
        queued r r.email,
        record { service = enqueue r (attach_ops selected) svc; store = store },
      )

  enable_record :
      String → Service → Result (RosterRecord × Bool) × S → Outcome RosterRecord × State S
  enable_record email svc (err roster_not_found, store) =
      (not_found email, record { service = svc; store = store })
  enable_record email svc (err e, store) = (store_error e, record { service = svc; store = store })
  enable_record email svc (ok (r, false), store) =
      (answered r (sync svc), record { service = svc; store = store })
  enable_record email svc (ok (r, true), store) =
      let kept = or_nothing (select_tags u view true r.inbounds) in
      let pruned : Result RosterRecord × S =
        api.edit_roster_user r.email
          (record {
            client_id = none;
            inbounds = some (tags_of kept);
            labels = seed_labels u view (attach_ops kept);
          })
          now store in
      enabled_with kept svc
        (if ltb (length kept) (length r.inbounds) then pruned else (ok r, store))

  unfoldable pub enable : String → Step S RosterRecord
  unfolding enable_record
  enable raw_email st =
      let email = trim_space raw_email in
      if email == ""
      then (not_found email, st)
      else enable_record email st.service (api.enable_roster_user email now st.store)

  -- recoverDeletes
  abbrev requeue_deletes : List RosterRecord → Service → Service
  requeue_deletes [] svc = svc
  requeue_deletes (r ∷ rest) svc =
      requeue_deletes rest (enqueue_delete r (detach_ops r.inbounds) svc)

  abbrev recovered : Result (List RosterRecord) → Service → Service
  recovered (err e) svc = svc
  recovered (ok records) svc = requeue_deletes records svc

  unfoldable pub recover_deletes : State S → State S
  recover_deletes st = record st {
    service = recovered (api.deleting_roster_records st.store) st.service;
  }
