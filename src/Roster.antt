-- ===== src/Roster.antt =====
-- internal/roster/service.go: the vocabulary of the Roster's write path and its pure planning
-- functions.
pub mod Diff
pub mod Service
pub mod Plan
pub mod Apply
pub mod Mutations
pub mod Converge
pub mod Panel
use xform.Base.{
  ℕ, String, Bool, true, false, ◌&&◌, ◌||◌, not, List, [], ◌∷◌, ◌++◌, map, Option, none, some, ◌==◌,
  string_eq, if◌then◌else◌,
}
use xform.Base.Lists.{contains, keep, is_empty}
use xform.Base.Assoc.{lookup, insert}
use xform.Base.Text.{CaseTables, to_upper}
use xform.XrayConfig.{
  Inbound, View, Label, label_eq, managed, default_flow, security_label, transport_label,
}
use xform.Users.{RosterRecord}

pub data SyncState : Type 0 where
  synced pending failed : SyncState

pub data ApplyState : Type 0 where
  apply_pending apply_failed : ApplyState

-- What one apply operation does to one inbound.
pub data OpKind : Type 0 where
  op_attach op_detach op_rotate : OpKind

pub record PushOp : Type 0 where
  pub kind : OpKind
  pub tag : String
  pub flow : String

-- A stored change that is not yet applied.
pub record PendingChange : Type 0 where
  pub id : String
  pub ops : List PushOp
  pub gen : ℕ
  pub purge : Bool

-- The zero value that a read of an absent map entry gives.
abbrev pub zero_change : PendingChange
zero_change = record { id = ""; ops = []; gen = 0; purge = false }

abbrev pub is_detach : OpKind → Bool
is_detach op_detach = true
is_detach _ = false

abbrev pub is_attach : OpKind → Bool
is_attach op_attach = true
is_attach _ = false

-- Go's `m[k]` on a map into texts
abbrev pub text_or_empty : Option String → String
text_or_empty none = ""
text_or_empty (some s) = s

abbrev pub detach : String → PushOp
detach tag = record { kind = op_detach; tag = tag; flow = "" }

-- detachOps
abbrev pub detach_ops : List String → List PushOp
detach_ops = map detach

-- The tags of `ops` that an attach or a rotate names (`prevAttached`).
abbrev pub attached_tags : List PushOp → List String
attached_tags ops = map (λ op. op.tag) (keep (λ op. not (is_detach op.kind)) ops)

abbrev pub detached_tags : List PushOp → List String
detached_tags ops = map (λ op. op.tag) (keep (λ op. is_detach op.kind) ops)

-- The kind that one tag of the after record gets: a rotate, or an attach, or nothing.
unfoldable pub join_op :
    Bool → List String → List String → Bool → List (String × String) → String → List PushOp
join_op id_changed attached prev_attached merge flows tag =
    let flow = text_or_empty (lookup tag flows) in
    if (id_changed && contains attached tag) || contains prev_attached tag
    then record { kind = op_rotate; tag = tag; flow = flow } ∷ []
    else if not (contains attached tag) && not (contains prev_attached tag)
    then record { kind = op_attach; tag = tag; flow = flow } ∷ []
    else if merge
    then record { kind = op_attach; tag = tag; flow = flow } ∷ []
    else []

abbrev pub join_ops : (String → List PushOp) → List String → List PushOp
join_ops f [] = []
join_ops f (tag ∷ tags) = f tag ++ join_ops f tags

unfoldable pub diff_ops :
    RosterRecord → RosterRecord → List (String × String) → PendingChange → List PushOp
unfolding join_op
diff_ops before after flows prev =
    let id_changed = not (before.client_id == after.client_id) in
    let prev_attached = attached_tags prev.ops in
    let gone = λ (tag : String). not (contains after.inbounds tag) in
    let leaves = detach_ops (keep gone before.inbounds) in
    let owed = detach_ops (keep gone (detached_tags prev.ops)) in
    let merge = not (is_empty prev.ops) in
    let joins =
      join_ops (join_op id_changed before.inbounds prev_attached merge flows) after.inbounds in
    leaves ++ (owed ++ joins)
