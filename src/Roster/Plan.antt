-- ===== src/Roster/Plan.antt =====
-- internal/roster/service.go: the pure functions over the inbound view, and the render plan that an
-- apply pass makes of the queue.
pub mod Grouped
use xform.Base.{
  String, not, List, [], ◌∷◌, ◌++◌, Option, none, some, ◌==◌, string_eq, ◌&&◌, if◌then◌else◌,
}
use xform.Base.Lists.{contains}
use xform.Base.Assoc.{lookup, insert}
use xform.Base.Text.{CaseTables, to_upper}
use xform.XrayConfig.{Inbound, View, Label, label_eq, managed, security_label, transport_label}
use xform.XrayConfig.RosterParse.{or_empty}
use xform.Roster.{PushOp, PendingChange, OpKind, op_attach, op_detach, op_rotate, is_attach}
use xform.XrayConfig.Render.{ClientOp, RenderPlan}
use Prim.Native.String.{◌++◌ as cat}

-- findManaged
unfoldable pub find_managed : CaseTables → View → String → Option Inbound
find_managed u [] tag = none
find_managed u (i ∷ view) tag =
    if i.tag == tag && managed u i then some i else find_managed u view tag

dedupe : List String → List String → List String
dedupe seen [] = []
dedupe seen (tag ∷ rest) =
    let skip = dedupe seen rest in
    let take = tag ∷ dedupe (tag ∷ seen) rest in if contains seen tag then skip else take

-- dedupeOrder
unfoldable pub dedupe_order : List String → List String
unfolding dedupe
dedupe_order = dedupe []

abbrev attach_flows : List PushOp → List (String × String) → List (String × String)
attach_flows [] m = m
attach_flows (op ∷ ops) m =
    attach_flows ops (if is_attach op.kind then insert op.tag op.flow m else m)

seed : CaseTables → List (String × String) → View → List Label → List Label
seed u flows [] labels = labels
seed u flows (i ∷ view) labels = seed u flows view (elim (lookup i.tag flows) [
  | none ↦ labels
  | some flow ↦
      if not (managed u i)
      then labels
      else (let label : Label = record {
        protocol = to_upper u i.protocol;
        security = security_label u i.security.kind flow;
        transport = transport_label u i.transport.kind;
      } in
          if not (contains labels label) then labels ++ label ∷ [] else labels)
])

-- seedLabels
unfoldable pub seed_labels : CaseTables → View → List PushOp → List Label
unfolding seed
seed_labels u view ops = seed u (attach_flows ops []) view []

-- optionLabel
unfoldable pub option_label : CaseTables → Inbound → String
option_label u i =
    let network =
      if i.transport.kind == "raw"
      then "tcp"
      else if i.transport.kind == "splithttp"
      then "xhttp"
      else i.transport.kind in
    let label =
      cat (to_upper u i.protocol)
        (cat " · " (cat (security_label u i.security.kind "") (cat " · " network))) in
    if not (i.port == "") then cat label (cat " :" i.port) else label

-- InboundOption
pub record InboundOption : Type 0 where
  pub tag : String
  pub label : String

-- InboundOptions
unfoldable pub inbound_options : CaseTables → View → List InboundOption
inbound_options u [] = []
inbound_options u (i ∷ view) =
    let rest = inbound_options u view in
    if not (managed u i) then rest else record { tag = i.tag; label = option_label u i } ∷ rest

-- plan.Adds[op.tag] = append(plan.Adds[op.tag], …)
abbrev pub push_to {ℓ} : {A : Type ℓ} → String → A → List (String × List A) → List (String × List A)
push_to tag a m = insert tag (or_empty (lookup tag m) ++ a ∷ []) m

abbrev pub client_op : String → String → PushOp → ClientOp
client_op email id op = record { email = email; id = id; flow = op.flow }

plan_op_of : OpKind → String → String → PushOp → RenderPlan → RenderPlan
plan_op_of op_attach email id op plan = record plan {
  adds = push_to op.tag (client_op email id op) plan.adds;
}
plan_op_of op_detach email id op plan = record plan { removes = push_to op.tag email plan.removes }
plan_op_of op_rotate email id op plan = record plan {
  sets = push_to op.tag (client_op email id op) plan.sets;
}

unfoldable pub plan_ops : String → String → List PushOp → RenderPlan → RenderPlan
unfolding plan_op_of
plan_ops email id [] plan = plan
plan_ops email id (op ∷ ops) plan = plan_ops email id ops (plan_op_of op.kind email id op plan)

-- The plan of one pass over the snapshot of the queue.
unfoldable pub plan_of : List (String × PendingChange) → RenderPlan → RenderPlan
plan_of [] plan = plan
plan_of ((email, change) ∷ rest) plan = plan_of rest (plan_ops email change.id change.ops plan)
