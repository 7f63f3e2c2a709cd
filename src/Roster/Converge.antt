-- ===== src/Roster/Converge.antt =====
-- internal/roster/service.go: converge, one config parse reconciled against the Roster.
use xform.Base.{
  ℕ, zero, suc, String, ◌||◌, not, List, [], ◌∷◌, map, Option, none, some, if◌then◌else◌, ltb,
  string_eq,
}
use xform.Base.Lists.{is_empty, length, contains, keep}
use xform.Base.Assoc.{lookup}
use xform.Base.Text.{CaseTables}
use xform.XrayConfig.{View, managed, default_flow}
use xform.XrayConfig.RosterParse.{RosterParse, Client}
use xform.Users.{Result, ok, err, roster_not_found, RosterRecord}
use xform.Roster.{PushOp, op_attach}
use xform.Roster.Service.{Service, StoreApi, has_pending, enqueue, log_failure}
use xform.Roster.Plan.{find_managed, seed_labels}
use xform.Roster.Apply.{message}
use xform.Roster.Mutations.{State}

-- live[tag]: a managed inbound of the view carries the tag
unfoldable pub live_tags : CaseTables → View → List String
live_tags u view = map (λ i. i.tag) (keep (managed u) view)

abbrev inbounds_of : Option Client → List String
inbounds_of none = []
inbounds_of (some c) = c.inbounds

-- One attach for each tag that a managed inbound carries.
unfoldable pub attaches : CaseTables → View → List String → List PushOp
attaches u view [] = []
attaches u view (tag ∷ tags) =
    let rest = attaches u view tags in
    elim (find_managed u view tag) [
      | none ↦ rest
      | some i ↦ record { kind = op_attach; tag = tag; flow = default_flow i } ∷ rest
    ]

module _ {S : Type 0} (u : CaseTables) (api : StoreApi S) (view : View) (parse : RosterParse)
    (now : ℕ) where
  -- enqueueIfLive
  enqueue_if_live : RosterRecord → List PushOp → State S → State S
  enqueue_if_live r ops st = elim (api.roster_record r.email st.store) [
    | err roster_not_found ↦ st
    | _ ↦ record st { service = enqueue r ops st.service }
  ]

  -- The tags of the record that the file lost, as attaches.
  unfoldable pub lost_ops : RosterRecord → List PushOp
  unfolding attaches
  lost_ops r =
      let file_tags = inbounds_of (lookup r.email parse.clients) in
      attaches u view (
        keep (λ tag. not (contains file_tags tag || not (contains (live_tags u view) tag)))
          r.inbounds)

  restore : RosterRecord → State S → State S
  unfolding enqueue_if_live
  restore r st = if is_empty (lost_ops r) then st else enqueue_if_live r (lost_ops r) st

  pruned : Service → Result RosterRecord × S → State S
  unfolding restore
  pruned svc (err roster_not_found, store) = record { service = svc; store = store }
  pruned svc (err e, store) = record { service = log_failure (message e) svc; store = store }
  pruned svc (ok r, store) = restore r (record { service = svc; store = store })

  -- The body of the loop over the live records.
  unfoldable pub converge_record : RosterRecord → State S → State S
  unfolding pruned
  converge_record r st =
      let kept = keep (contains (live_tags u view)) r.inbounds in
      let edit =
        api.edit_roster_user r.email
          (record {
            client_id = none;
            inbounds = some kept;
            labels = seed_labels u view (attaches u view kept);
          })
          now st.store in
      if has_pending r.email st.service
      then st
      else if ltb (length kept) (length r.inbounds)
      then pruned st.service edit
      else restore r st

  unfoldable pub converge_records : List RosterRecord → State S → State S
  converge_records [] st = st
  converge_records (r ∷ rest) st = converge_records rest (converge_record r st)

  -- converge: version 0 means that nothing was parsed yet.
  unfoldable pub converge : ℕ → State S → State S
  converge zero st = st
  converge (suc version) st = elim (api.roster_records st.store) [
    | err e ↦ record st { service = log_failure (message e) st.service }
    | ok records ↦ converge_records records st
  ]
