-- ===== src/Roster/Apply/Xray.antt =====
-- What the pushes of an apply pass leave in the running xray.
use xform.Base.{
  String, Bool, true, ◌&&◌, List, [], ◌∷◌, Option, none, some, ◌==◌, string_eq, nat_eq,
  if◌then◌else◌, ◌≡◌, refl, arith, ◌∙◌, eq_iff,
}
use xform.Base.Lists.{contains}
use xform.Base.Text.{CaseTables}
use xform.XrayConfig.{View}
use xform.Users.{RosterRecord}
use xform.Roster.{PushOp, PendingChange, OpKind, op_attach, op_detach, op_rotate, diff_ops}
use xform.Roster.Diff.{landed, push_all, CanHold, push_all-diff_ops}
use xform.Roster.Service.{StoreApi, Outside, ManagedUser, is_some}
use xform.Roster.Plan.{find_managed}
use xform.Roster.Apply.{push_op, push_kind, push_ops}

-- xray's documented answers, as the pusher reports them: after a successful add the inbound holds a
-- credential of the user, the old one if it held one ("already exists"); after a successful remove it
-- holds none, also if it held none ("not found"). No other user and no other inbound changes.
pub record XrayLaws {X : Type 0} (out : Outside X) (holds : X → String → String → Option String)
    : Type 0 where
  pub added :
      (tag : String) (user : ManagedUser) (x : X) (tag' email : String)
      → (out.add_user tag user x).0 ≡ none
      → holds (out.add_user tag user x).1 tag' email ≡ (
          if tag == tag' && user.email == email
          then landed user.id op_attach (holds x tag' email)
          else holds x tag' email)
  pub removed :
      (tag name : String) (x : X) (tag' email : String)
      → (out.remove_user tag name x).0 ≡ none
      → holds (out.remove_user tag name x).1 tag' email
        ≡ (if tag == tag' && name == email then none else holds x tag' email)

module _ {S X : Type 0} (u : CaseTables) (api : StoreApi S) (out : Outside X) (view : View)
    (holds : X → String → String → Option String) (laws : XrayLaws out holds) where
  holds-push_kind :
      (kind : OpKind) (email : String) (change : PendingChange) (op : PushOp) (x : X)
      (tag name : String)
      → (push_kind u api out view kind email change op x).0 ≡ none
      → holds (push_kind u api out view kind email change op x).1 tag name ≡ (
          if op.tag == tag && email == name
          then landed change.id kind (holds x tag name)
          else holds x tag name)
  unfolding push_kind landed
  holds-push_kind op_attach email change op x tag name h = laws.added op.tag _ x tag name h
  holds-push_kind op_detach email change op x tag name h =
      laws.removed op.tag email x tag name h ∙ ground arith
  holds-push_kind op_rotate email change op x tag name h =
      let user : ManagedUser = record { email = email; id = change.id; flow = op.flow } in
      let x' = (out.remove_user op.tag email x).1 in
      ground (arith, laws.removed op.tag email x tag name, laws.added op.tag user x' tag name)

  managed_tag : String → Bool
  managed_tag tag = is_some (find_managed u view tag)

  holds-push_op :
      (email : String) (change : PendingChange) (op : PushOp) (x : X) (tag name : String)
      → (push_op u api out view email change op x).0 ≡ none
      → holds (push_op u api out view email change op x).1 tag name ≡ (
          if managed_tag op.tag && (op.tag == tag && email == name)
          then landed change.id op.kind (holds x tag name)
          else holds x tag name)
  unfolding push_op managed_tag
  holds-push_op email change op x tag name h =
      ground (arith, holds-push_kind op.kind email change op x tag name)

  -- The fold of the operations over one inbound, those of unmanaged inbounds left out.
  push_managed : String → String → List PushOp → Option String → Option String
  push_managed id tag [] o = o
  push_managed id tag (op ∷ ops) o =
      push_managed id tag ops
        (if managed_tag op.tag && op.tag == tag then landed id op.kind o else o)

  holds-push_ops :
      (email : String) (change : PendingChange) (ops : List PushOp) (x : X) (tag name : String)
      → (push_ops u api out view email change ops x).0 ≡ none
      → holds (push_ops u api out view email change ops x).1 tag name ≡ (
          if email == name
          then push_managed change.id tag ops (holds x tag name)
          else holds x tag name)
  unfolding push_ops push_managed
  holds-push_ops email change [] x tag name h = ground arith
  holds-push_ops email change (op ∷ ops) x tag name h =
      let x' = (push_op u api out view email change op x).1 in
      ground (
        arith,
        holds-push_op email change op x tag name,
        holds-push_ops email change ops x' tag name,
      )

  push_managed-push_all :
      (id tag : String) (ops : List PushOp) (o : Option String)
      → managed_tag tag ≡ true
      → push_managed id tag ops o ≡ push_all id tag ops o
  unfolding push_managed push_all
  push_managed-push_all id tag [] o m = refl
  push_managed-push_all id tag (op ∷ ops) o m = ground (
    arith,
    eq_iff op.tag tag,
    push_managed-push_all id tag ops o m,
    push_managed-push_all id tag ops (landed id op.kind o) m,
  )

  -- When all pushes of a planned edit land, every managed inbound holds the credential of the edited
  -- user exactly as the stored record says, from all that `CanHold` says an unfinished change can
  -- have left there; no other user's credential moves.
  pub holds-push_ops-diff_ops :
      (before after : RosterRecord) (flows : List (String × String)) (prev change : PendingChange)
      (x : X) (tag name : String)
      → is_some (find_managed u view tag) ≡ true
      → change.id ≡ after.client_id
      → CanHold before after prev tag (holds x tag after.email)
      → (push_ops u api out view after.email change (diff_ops before after flows prev) x).0 ≡ none
      → holds
          (push_ops u api out view after.email change (diff_ops before after flows prev) x).1
          tag
          name
        ≡ (if after.email == name
            then (if contains after.inbounds tag then some after.client_id else none)
            else holds x tag name)
  unfolding managed_tag
  holds-push_ops-diff_ops before after flows prev change x tag name m same can h =
      let ops = diff_ops before after flows prev in
      let o = holds x tag after.email in
      ground (
        arith,
        eq_iff after.email name,
        holds-push_ops after.email change ops x tag name h,
        push_managed-push_all after.client_id tag ops o m,
        push_all-diff_ops before after flows prev tag o can,
      )
