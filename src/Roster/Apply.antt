-- ===== src/Roster/Apply.antt =====
-- internal/roster/service.go: the apply pass, run from a snapshot of the queue to its broadcast. Its
-- critical sections are the functions of `Service`; what other goroutines do between them is in
-- `Roster.Service.Queue`. The inbound view is read once for the pass.
pub mod Drain
pub mod Xray
use xform.Base.{String, not, List, [], ◌∷◌, Option, none, some, string_eq, nat_eq, if◌then◌else◌}
use xform.Base.Lists.{is_empty}
use xform.Base.Text.{CaseTables}
use xform.XrayConfig.{View}
use xform.Users.{Result, ok, err, StoreError}
use xform.Roster.{PushOp, PendingChange, OpKind, op_attach, op_detach, op_rotate}
use xform.Roster.Service.{
  Service, StoreApi, Outside, ManagedUser, superseded, fail_change, drop_change, requeue_purge,
  log_failure, clear_error, broadcast,
}
use xform.Roster.Plan.{find_managed, plan_of}

-- The service, its store and what is outside the panel.
pub record World (S X : Type 0) : Type 0 where
  pub service : Service
  pub store : S
  pub outside : X

-- The message of an error of the store.
abbrev pub message : StoreError → String
message StoreError.email_taken = "email taken"
message StoreError.client_id_taken = "client ID taken"
message StoreError.roster_not_found = "roster record not found"
message (StoreError.failure m) = m

module _ {S X : Type 0} (u : CaseTables) (api : StoreApi S) (out : Outside X) (view : View) where
  abbrev managed_user : String → PendingChange → PushOp → ManagedUser
  managed_user email change op = record { email = email; id = change.id; flow = op.flow }

  rotate : Option String → String → ManagedUser → X → Option String × X
  rotate (some e) tag user x = (some e, x)
  rotate none tag user x = out.add_user tag user x

  push_kind : OpKind → String → PendingChange → PushOp → X → Option String × X
  unfolding rotate
  push_kind op_attach email change op x = out.add_user op.tag (managed_user email change op) x
  push_kind op_detach email change op x = out.remove_user op.tag email x
  push_kind op_rotate email change op x =
      let (e, x') = out.remove_user op.tag email x in
      rotate e op.tag (managed_user email change op) x'

  -- pushOp
  unfoldable pub push_op : String → PendingChange → PushOp → X → Option String × X
  unfolding push_kind
  push_op email change op x = elim (find_managed u view op.tag) [
    | none ↦ (none, x)
    | some i ↦ push_kind op.kind email change op x
  ]

  -- The loop over one change's operations: it stops at the first error.
  unfoldable pub push_ops : String → PendingChange → List PushOp → X → Option String × X
  push_ops email change [] x = (none, x)
  push_ops email change (op ∷ ops) x =
      let (e, x') = push_op email change op x in
      let rest = push_ops email change ops x' in elim e [ none ↦ rest | some m ↦ (some m, x') ]

  abbrev after_purge : String → PendingChange → Result (Unit {0}) × S → Service → X → World S X
  after_purge email change (ok _, store) s x = record { service = s; store = store; outside = x }
  after_purge email change (err e, store) s x = record {
    service = log_failure (message e) (requeue_purge email change s);
    store = store;
    outside = x;
  }

  -- The critical section after one change's pushes, its `finishDelete` and the log line behind it.
  unfoldable pub settle : String → PendingChange → Option String → World S X → World S X
  settle email change (some m) w = record w {
    service = fail_change email change (log_failure m w.service);
  }
  settle email change none w =
      if superseded email change.gen w.service
      then w
      else if not change.purge
      then record w { service = drop_change email w.service }
      else after_purge email change (api.purge_roster_user email w.store)
          (drop_change email w.service) (out.purge email w.outside)

  -- The body of the loop over the snapshot.
  unfoldable pub apply_change : String → PendingChange → World S X → World S X
  apply_change email change w =
      if superseded email change.gen w.service
      then w
      else (let (e, x) = push_ops email change change.ops w.outside in
          settle email change e (record w { outside = x }))

  unfoldable pub apply_changes : List (String × PendingChange) → World S X → World S X
  apply_changes [] w = w
  apply_changes ((email, change) ∷ rest) w = apply_changes rest (apply_change email change w)

  unfoldable pub fail_all : List (String × PendingChange) → Service → Service
  fail_all [] s = s
  fail_all ((email, change) ∷ rest) s = fail_all rest (fail_change email change s)

  abbrev render_or_push : Option String → List (String × PendingChange) → World S X → World S X
  render_or_push (some m) snapshot w = record w {
    service = broadcast (fail_all snapshot (log_failure m w.service));
  }
  render_or_push none snapshot w =
      let w' = apply_changes snapshot w in
      record w' { service = broadcast (clear_error w'.service) }

  -- apply
  unfoldable pub apply : World S X → World S X
  apply w =
      let snapshot = w.service.queue in
      if is_empty snapshot
      then record w { service = broadcast w.service }
      else (let (e, x) =
            out.render (plan_of snapshot (record { adds = []; removes = []; sets = [] }))
              w.outside in
          render_or_push e snapshot (record w { outside = x }))

  -- retry
  unfoldable pub retry : World S X → World S X
  retry w = let done = apply w in if is_empty w.service.queue then w else done
