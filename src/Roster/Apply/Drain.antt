-- ===== src/Roster/Apply/Drain.antt =====
-- An apply pass in which nothing fails.
use xform.Base.{
  String, true, List, [], ◌∷◌, none, string_eq, nat_eq, if◌then◌else◌, ◌≡◌, refl, arith, eq_iff,
  eq_refl, ◌⊎◌, inl, inr, subst, sym, Bool-cases,
}
use xform.Base.Lists.{is_empty}
use xform.Base.Assoc.{lookup, lookup-delete}
use xform.Base.Text.{CaseTables}
use xform.XrayConfig.{View}
use xform.Users.{ok}
use xform.Roster.{PushOp, PendingChange, OpKind, op_attach, op_detach, op_rotate, synced}
use xform.XrayConfig.Render.{RenderPlan}
use xform.Roster.Service.{
  Service, StoreApi, Outside, superseded, drop_change, clear_error, broadcast, sync,
}
use xform.Roster.Service.Failures.{IsRetriable, sync-IsRetriable}
use xform.Roster.Apply.{
  World, push_op, push_kind, push_ops, settle, apply_change, apply_changes, apply,
}
use xform.Roster.Plan.{plan_of}

-- Nothing outside the panel refuses: the file renders, xray takes every push, the erase writes.
pub record Succeeds {S X : Type 0} (api : StoreApi S) (out : Outside X) : Type 0 where
  pub renders : (plan : _) (x : X) → (out.render plan x).0 ≡ none
  pub adds : (tag : String) (user : _) (x : X) → (out.add_user tag user x).0 ≡ none
  pub removes : (tag email : String) (x : X) → (out.remove_user tag email x).0 ≡ none
  pub purges : (email : String) (s : S) → (api.purge_roster_user email s).0 ≡ ok tt

module _ {S X : Type 0} (u : CaseTables) (api : StoreApi S) (out : Outside X) (view : View)
    (fine : Succeeds api out) where
  push_kind-none :
      (kind : OpKind) (email : String) (change : PendingChange) (op : PushOp) (x : X)
      → (push_kind u api out view kind email change op x).0 ≡ none
  unfolding push_kind
  push_kind-none op_attach email change op x = fine.adds _ _ x
  push_kind-none op_detach email change op x = fine.removes _ _ x
  push_kind-none op_rotate email change op x = ground (
    arith,
    fine.removes op.tag email x,
    fine.adds op.tag (record { email = email; id = change.id; flow = op.flow })
        (out.remove_user op.tag email x).1,
  )

  push_op-none :
      (email : String) (change : PendingChange) (op : PushOp) (x : X)
      → (push_op u api out view email change op x).0 ≡ none
  unfolding push_op
  push_op-none email change op x = ground (arith, push_kind-none op.kind email change op x)

  push_ops-none :
      (email : String) (change : PendingChange) (ops : List PushOp) (x : X)
      → (push_ops u api out view email change ops x).0 ≡ none
  unfolding push_ops
  push_ops-none email change [] x = refl
  push_ops-none email change (op ∷ ops) x = ground (
    arith,
    push_op-none email change op x,
    push_ops-none email change ops (push_op u api out view email change op x).1,
  )

  -- One change of the snapshot leaves the queue and the failures, unless a newer one replaced it.
  settle-drops :
      (email : String) (change : PendingChange) (w : World S X)
      → (settle u api out view email change none w).service
        ≡ (if superseded email change.gen w.service then w.service else drop_change email w.service)
  unfolding settle
  settle-drops email change w = ground (arith, fine.purges email w.store)

  apply_change-drops :
      (email : String) (change : PendingChange) (w : World S X)
      → (apply_change u api out view email change w).service
        ≡ (if superseded email change.gen w.service then w.service else drop_change email w.service)
  unfolding apply_change
  apply_change-drops email change w =
      let pushed = push_ops u api out view email change change.ops w.outside in
      ground (
        arith,
        push_ops-none email change change.ops w.outside,
        settle-drops email change (record w { outside = pushed.1 }),
      )

-- Everything queued is still ahead in the snapshot.
abbrev IsCovered : List (String × PendingChange) → List (String × PendingChange) → Type 0
IsCovered queue rest = (j : String) → (lookup j queue ≡ none) ⊎ (lookup j queue ≡ lookup j rest)

drop_if : String → PendingChange → Service → Service
drop_if email change s = if superseded email change.gen s then s else drop_change email s

drop_if-IsCovered :
    (email : String) (change : PendingChange) (rest : List (String × PendingChange)) (s : Service)
    → IsCovered s.queue ((email, change) ∷ rest)
    → IsCovered (drop_if email change s).queue rest
unfolding drop_if drop_change superseded lookup
drop_if-IsCovered email change rest s c j =
    ground (arith, c j, c email, eq_iff email j, eq_refl email, lookup-delete email j s.queue)

drop_if-IsRetriable :
    (email : String) (change : PendingChange) (s : Service)
    → IsRetriable s
    → IsRetriable (drop_if email change s)
unfolding drop_if drop_change
drop_if-IsRetriable email change s h j =
    ground (arith, h j, lookup-delete email j s.queue, lookup-delete email j s.failures)

abbrev no_plan : RenderPlan
no_plan = record { adds = []; removes = []; sets = [] }

lookup_of_empty :
    (m : List (String × PendingChange)) (k : String) → is_empty m ≡ true → lookup k m ≡ none
unfolding lookup
lookup_of_empty [] k h = refl
lookup_of_empty (e ∷ m) k h = cc

-- After the pass the queue is empty and nobody without a queued change is marked failed.
pub record IsDrained (s : Service) : Type 0 where
  pub drained : (j : String) → lookup j s.queue ≡ none
  pub retriable : IsRetriable s

module _ {S X : Type 0} (u : CaseTables) (api : StoreApi S) (out : Outside X) (view : View)
    (fine : Succeeds api out) where
  apply_changes-IsDrained :
      (rest : List (String × PendingChange)) (w : World S X)
      → IsCovered w.service.queue rest
      → IsRetriable w.service
      → IsDrained (apply_changes u api out view rest w).service
  unfolding apply_changes lookup
  apply_changes-IsDrained [] w c h = record { drained = λ j. ground (arith, c j); retriable = h }
  apply_changes-IsDrained ((email, change) ∷ rest) w c h =
      let w' = apply_change u api out view email change w in
      let e : w'.service ≡ drop_if email change w.service =
        unfold drop_if in apply_change-drops u api out view fine email change w in
      apply_changes-IsDrained rest w'
        (subst (λ s. IsCovered s.queue rest) (sym e)
          (drop_if-IsCovered email change rest w.service c))
        (subst IsRetriable (sym e) (drop_if-IsRetriable email change w.service h))

  clear_error-IsDrained : (s : Service) → IsDrained s → IsDrained (broadcast (clear_error s))
  unfolding clear_error broadcast
  clear_error-IsDrained s d = record {
    drained = λ j. ground (arith, d.drained j);
    retriable = λ j. ground (arith, d.retriable j);
  }

  apply-IsDrained :
      (w : World S X) → IsRetriable w.service → IsDrained (apply u api out view w).service
  unfolding apply
  apply-IsDrained w h = elim (Bool-cases (is_empty w.service.queue)) [
    | inl idle ↦ rw idle (record {
      drained = λ j. unfold broadcast in lookup_of_empty w.service.queue j idle;
      retriable = unfold broadcast in h;
    })
    | inr busy ↦
        let x = (out.render (plan_of w.service.queue no_plan) w.outside).1 in
        rw (busy, fine.renders)
          (clear_error-IsDrained _
            (apply_changes-IsDrained w.service.queue (record w { outside = x }) (λ j. inr refl) h))
  ]

  -- A pass in which the file renders, xray takes every push and every erase writes leaves the roster
  -- synced with nothing queued, from any state in which whoever is marked failed is still queued.
  pub sync-apply :
      (w : World S X)
      → IsRetriable w.service
      → (sync (apply u api out view w).service ≡ synced)
        × ((email : String) → lookup email (apply u api out view w).service.queue ≡ none)
  sync-apply w h =
      let d = apply-IsDrained w h in (sync-IsRetriable _ d.retriable d.drained, d.drained)
