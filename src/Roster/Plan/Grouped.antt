-- ===== src/Roster/Plan/Grouped.antt =====
-- The render plan of a pass against the queue that it was made from.
use xform.Base.{
  String, Bool, true, false, ◌&&◌, List, [], ◌∷◌, ◌++◌, ◌==◌, string_eq, if◌then◌else◌, ◌≡◌, refl,
  arith, ◌∙◌, sym, ap, eq_iff,
}
use xform.Base.Assoc.{lookup, lookup-insert}
use xform.XrayConfig.RosterParse.{or_empty}
use xform.Roster.{
  PushOp, PendingChange, OpKind, op_attach, op_detach, op_rotate, is_attach, is_detach,
}
use xform.XrayConfig.Render.{ClientOp, RenderPlan}
use xform.Roster.Plan.{plan_op_of, plan_ops, plan_of, push_to, client_op}

abbrev pub is_rotate : OpKind → Bool
is_rotate op_rotate = true
is_rotate _ = false

-- The client operations of one kind for one inbound, in the order of a change's operations.
unfoldable pub clients_in : (OpKind → Bool) → String → String → String → List PushOp → List ClientOp
clients_in kind tag email id [] = []
clients_in kind tag email id (op ∷ ops) =
    let rest = clients_in kind tag email id ops in
    if kind op.kind && op.tag == tag
    then record { email = email; id = id; flow = op.flow } ∷ rest
    else rest

-- Those of the whole queue.
unfoldable pub clients_for :
    (OpKind → Bool) → String → List (String × PendingChange) → List ClientOp
clients_for kind tag [] = []
clients_for kind tag ((email, change) ∷ rest) =
    clients_in kind tag email change.id change.ops ++ clients_for kind tag rest

unfoldable pub removes_in : String → String → List PushOp → List String
removes_in tag email [] = []
removes_in tag email (op ∷ ops) =
    let rest = removes_in tag email ops in
    if is_detach op.kind && op.tag == tag then email ∷ rest else rest

unfoldable pub removes_for : String → List (String × PendingChange) → List String
removes_for tag [] = []
removes_for tag ((email, change) ∷ rest) = removes_in tag email change.ops ++ removes_for tag rest

module _ {ℓ} {A : Type ℓ} where
  append_assoc : (xs ys zs : List A) → (xs ++ ys) ++ zs ≡ xs ++ (ys ++ zs)
  append_assoc [] ys zs = refl
  append_assoc (x ∷ xs) ys zs = ap (λ l. x ∷ l) (append_assoc xs ys zs)

  append_nil : (xs : List A) → xs ++ [] ≡ xs
  append_nil [] = refl
  append_nil (x ∷ xs) = ap (λ l. x ∷ l) (append_nil xs)

  or_empty-push_to :
      (t tag : String) (a : A) (m : List (String × List A))
      → or_empty (lookup tag (push_to t a m))
        ≡ or_empty (lookup tag m) ++ (if t == tag then a ∷ [] else [])
  or_empty-push_to t tag a m = ground (
    arith,
    eq_iff t tag,
    lookup-insert t tag (or_empty (lookup t m) ++ a ∷ []) m,
    append_nil (or_empty (lookup tag m)),
  )

-- What the plan has for one inbound.
abbrev adds_of : String → RenderPlan → List ClientOp
adds_of tag plan = or_empty (lookup tag plan.adds)

abbrev sets_of : String → RenderPlan → List ClientOp
sets_of tag plan = or_empty (lookup tag plan.sets)

abbrev removes_of : String → RenderPlan → List String
removes_of tag plan = or_empty (lookup tag plan.removes)

module _ (tag email id : String) where
  abbrev one : Bool → PushOp → List ClientOp
  one b op = if b && op.tag == tag then client_op email id op ∷ [] else []

  adds-plan_op_of :
      (k : OpKind) (op : PushOp) (plan : RenderPlan)
      → adds_of tag (plan_op_of k email id op plan) ≡ adds_of tag plan ++ one (is_attach k) op
  unfolding plan_op_of
  adds-plan_op_of op_attach op plan = or_empty-push_to op.tag tag (client_op email id op) plan.adds
  adds-plan_op_of op_detach op plan = sym (append_nil _)
  adds-plan_op_of op_rotate op plan = sym (append_nil _)

  sets-plan_op_of :
      (k : OpKind) (op : PushOp) (plan : RenderPlan)
      → sets_of tag (plan_op_of k email id op plan) ≡ sets_of tag plan ++ one (is_rotate k) op
  unfolding plan_op_of
  sets-plan_op_of op_attach op plan = sym (append_nil _)
  sets-plan_op_of op_detach op plan = sym (append_nil _)
  sets-plan_op_of op_rotate op plan = or_empty-push_to op.tag tag (client_op email id op) plan.sets

  removes-plan_op_of :
      (k : OpKind) (op : PushOp) (plan : RenderPlan)
      → removes_of tag (plan_op_of k email id op plan)
        ≡ removes_of tag plan ++ (if is_detach k && op.tag == tag then email ∷ [] else [])
  unfolding plan_op_of
  removes-plan_op_of op_attach op plan = sym (append_nil _)
  removes-plan_op_of op_detach op plan = or_empty-push_to op.tag tag email plan.removes
  removes-plan_op_of op_rotate op plan = sym (append_nil _)

  adds-plan_ops :
      (ops : List PushOp) (plan : RenderPlan)
      → adds_of tag (plan_ops email id ops plan)
        ≡ adds_of tag plan ++ clients_in is_attach tag email id ops
  unfolding plan_ops clients_in
  adds-plan_ops [] plan = sym (append_nil _)
  adds-plan_ops (op ∷ ops) plan =
      adds-plan_ops ops (plan_op_of op.kind email id op plan)
      ∙ ap (λ l. l ++ clients_in is_attach tag email id ops) (adds-plan_op_of op.kind op plan)
      ∙ append_assoc (adds_of tag plan) (one (is_attach op.kind) op) _
      ∙ ap (λ l. adds_of tag plan ++ l) (ground arith)

  sets-plan_ops :
      (ops : List PushOp) (plan : RenderPlan)
      → sets_of tag (plan_ops email id ops plan)
        ≡ sets_of tag plan ++ clients_in is_rotate tag email id ops
  unfolding plan_ops clients_in
  sets-plan_ops [] plan = sym (append_nil _)
  sets-plan_ops (op ∷ ops) plan =
      sets-plan_ops ops (plan_op_of op.kind email id op plan)
      ∙ ap (λ l. l ++ clients_in is_rotate tag email id ops) (sets-plan_op_of op.kind op plan)
      ∙ append_assoc (sets_of tag plan) (one (is_rotate op.kind) op) _
      ∙ ap (λ l. sets_of tag plan ++ l) (ground arith)

  removes-plan_ops :
      (ops : List PushOp) (plan : RenderPlan)
      → removes_of tag (plan_ops email id ops plan)
        ≡ removes_of tag plan ++ removes_in tag email ops
  unfolding plan_ops removes_in
  removes-plan_ops [] plan = sym (append_nil _)
  removes-plan_ops (op ∷ ops) plan =
      removes-plan_ops ops (plan_op_of op.kind email id op plan)
      ∙ ap (λ l. l ++ removes_in tag email ops) (removes-plan_op_of op.kind op plan)
      ∙ append_assoc (removes_of tag plan) _ _
      ∙ ap (λ l. removes_of tag plan ++ l) (ground arith)

module _ (tag : String) where
  adds-plan_of :
      (queue : List (String × PendingChange)) (plan : RenderPlan)
      → adds_of tag (plan_of queue plan) ≡ adds_of tag plan ++ clients_for is_attach tag queue
  unfolding plan_of clients_for
  adds-plan_of [] plan = sym (append_nil _)
  adds-plan_of ((email, change) ∷ rest) plan =
      adds-plan_of rest (plan_ops email change.id change.ops plan)
      ∙ ap (λ l. l ++ clients_for is_attach tag rest)
          (adds-plan_ops tag email change.id change.ops plan)
      ∙ append_assoc (adds_of tag plan) _ _

  sets-plan_of :
      (queue : List (String × PendingChange)) (plan : RenderPlan)
      → sets_of tag (plan_of queue plan) ≡ sets_of tag plan ++ clients_for is_rotate tag queue
  unfolding plan_of clients_for
  sets-plan_of [] plan = sym (append_nil _)
  sets-plan_of ((email, change) ∷ rest) plan =
      sets-plan_of rest (plan_ops email change.id change.ops plan)
      ∙ ap (λ l. l ++ clients_for is_rotate tag rest)
          (sets-plan_ops tag email change.id change.ops plan)
      ∙ append_assoc (sets_of tag plan) _ _

  removes-plan_of :
      (queue : List (String × PendingChange)) (plan : RenderPlan)
      → removes_of tag (plan_of queue plan) ≡ removes_of tag plan ++ removes_for tag queue
  unfolding plan_of removes_for
  removes-plan_of [] plan = sym (append_nil _)
  removes-plan_of ((email, change) ∷ rest) plan =
      removes-plan_of rest (plan_ops email change.id change.ops plan)
      ∙ ap (λ l. l ++ removes_for tag rest) (removes-plan_ops tag email change.id change.ops plan)
      ∙ append_assoc (removes_of tag plan) _ _

  -- The plan that a pass renders has for each inbound exactly the operations of the queue for it, in
  -- order: its adds are the attaches, its sets the rotates and its removes the detaches, each with
  -- the email, the Client ID and the flow of its change.
  pub plan_of-queue :
      (queue : List (String × PendingChange))
      → let plan = plan_of queue (record { adds = []; removes = []; sets = [] }) in
        (or_empty (lookup tag plan.adds) ≡ clients_for is_attach tag queue)
        × (or_empty (lookup tag plan.sets) ≡ clients_for is_rotate tag queue)
        × (or_empty (lookup tag plan.removes) ≡ removes_for tag queue)
  unfolding lookup
  plan_of-queue queue =
      let empty : RenderPlan = record { adds = []; removes = []; sets = [] } in
      (adds-plan_of queue empty, sets-plan_of queue empty, removes-plan_of queue empty)
