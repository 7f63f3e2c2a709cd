-- ===== src/Roster/Diff.antt =====
-- What the plan of `diffOps` does to a running xray. Per inbound and user xray holds a credential or
-- none; a remove of an absent user and an add of a present one are the pusher's success and change
-- nothing, as roster/service.go relies on.
pub mod Idle
use xform.Base.{
  String, Bool, true, false, ◌&&◌, ◌||◌, not, List, [], ◌∷◌, ◌++◌, Option, none, some, ◌==◌,
  string_eq, if◌then◌else◌, ◌≡◌, refl, arith, ◌∙◌, ◌⊎◌, eq_iff, eq_refl,
}
use xform.Base.Lists.{contains, contains-keep, keep, is_empty}
use xform.Users.{RosterRecord}
use xform.Roster.{
  OpKind, PushOp, PendingChange, op_attach, op_detach, op_rotate, detach_ops, join_op, join_ops,
  diff_ops, attached_tags, detached_tags,
}

-- What one landed push leaves of the credential that its inbound held.
unfoldable pub landed : String → OpKind → Option String → Option String
landed id op_attach none = some id
landed id op_attach (some c) = some c
landed id op_detach o = none
landed id op_rotate o = some id

-- What the inbound `tag` holds after all the pushes.
unfoldable pub push_all : String → String → List PushOp → Option String → Option String
push_all id tag [] o = o
push_all id tag (op ∷ ops) o =
    push_all id tag ops (if op.tag == tag then landed id op.kind o else o)

push_all-append :
    (id tag : String) (xs ys : List PushOp) (o : Option String)
    → push_all id tag (xs ++ ys) o ≡ push_all id tag ys (push_all id tag xs o)
unfolding push_all
push_all-append id tag [] ys o = refl
push_all-append id tag (op ∷ xs) ys o =
    push_all-append id tag xs ys (if op.tag == tag then landed id op.kind o else o)

pub push_all-detach_ops :
    (id tag : String) (tags : List String) (o : Option String)
    → push_all id tag (detach_ops tags) o ≡ (if contains tags tag then none else o)
unfolding push_all contains landed
push_all-detach_ops id tag [] o = refl
push_all-detach_ops id tag (x ∷ tags) o =
    ground (arith, push_all-detach_ops id tag tags (if x == tag then none else o))

module _ (id : String) (id_changed : Bool) (attached prev_attached : List String) (merge : Bool)
    (flows : List (String × String)) where
  abbrev join : String → List PushOp
  join = join_op id_changed attached prev_attached merge flows

  -- The plan for one tag touches that tag only, and doing it twice is doing it once.
  push_all-join_ne :
      (tag x : String) (o : Option String) → (x == tag) ≡ false → push_all id tag (join x) o ≡ o
  unfolding join_op push_all
  push_all-join_ne tag x o ne = ground arith

  -- What the plan for one tag of the after record leaves there.
  joined : String → Option String → Option String
  joined tag o =
      if (id_changed && contains attached tag) || contains prev_attached tag
      then some id
      else if not (contains attached tag) || merge
      then landed id op_attach o
      else o

  push_all-join_self :
      (tag : String) (o : Option String) → push_all id tag (join tag) o ≡ joined tag o
  unfolding join_op joined push_all landed
  push_all-join_self tag o = ground (arith, eq_refl tag)

  joined-joined : (tag : String) (o : Option String) → joined tag (joined tag o) ≡ joined tag o
  unfolding joined landed
  joined-joined tag o = ground arith

  push_all-join_ops :
      (tag : String) (tags : List String) (o : Option String)
      → push_all id tag (join_ops join tags) o ≡ (if contains tags tag then joined tag o else o)
  unfolding contains push_all
  push_all-join_ops tag [] o = refl
  push_all-join_ops tag (x ∷ tags) o = ground (
    arith,
    eq_iff x tag,
    push_all-append id tag (join x) (join_ops join tags) o,
    push_all-join_ne tag x o,
    push_all-join_self tag o,
    joined-joined tag o,
    push_all-join_ops tag tags o,
    push_all-join_ops tag tags (joined tag o),
  )

is_empty-detached :
    (ops : List PushOp) (tag : String)
    → contains (detached_tags ops) tag ≡ true
    → is_empty ops ≡ false
unfolding contains keep
is_empty-detached [] tag h = ground arith
is_empty-detached (op ∷ ops) tag h = refl

-- What one inbound may hold of a user when an edit is planned: `o`, given the stored record before
-- the edit, the one after it, and the change `prev` that was taken off the queue.
pub record CanHold (before after : RosterRecord) (prev : PendingChange) (tag : String)
    (o : Option String) : Type 0 where
  -- No unfinished change names the tag: xray agrees with the record.
  pub untouched :
      contains (attached_tags prev.ops) tag ≡ false
      → contains (detached_tags prev.ops) tag ≡ false
      → o ≡ (if contains before.inbounds tag then some before.client_id else none)
  -- An unfinished attach or rotate may have landed or not: anything, but the tag is one that the
  -- records know or a detach is owed for.
  pub known :
      contains (attached_tags prev.ops) tag ≡ true
      → contains after.inbounds tag ≡ false
      → (contains before.inbounds tag || contains (detached_tags prev.ops) tag) ≡ true
  -- An unfinished detach of a tag that the edit gives back landed, or left the same credential.
  pub given_back :
      contains (attached_tags prev.ops) tag ≡ false
      → contains (detached_tags prev.ops) tag ≡ true
      → contains after.inbounds tag ≡ true
      → (o ≡ none) ⊎ (o ≡ some after.client_id)

push_all-detaches :
    (id tag : String) (xs ys : List String) (rest : List PushOp) (o : Option String)
    → push_all id tag (detach_ops xs ++ (detach_ops ys ++ rest)) o
      ≡ push_all id tag rest (if contains xs tag || contains ys tag then none else o)
push_all-detaches id tag xs ys rest o = simp (push_all-append, push_all-detach_ops) (ground arith)

push_all-diff_ops_shape :
    (before after : RosterRecord) (flows : List (String × String)) (prev : PendingChange)
    (tag : String) (o : Option String)
    → push_all after.client_id tag (diff_ops before after flows prev) o ≡ (
        let left = contains before.inbounds tag || contains (detached_tags prev.ops) tag in
        if contains after.inbounds tag
        then joined after.client_id
            (not (before.client_id == after.client_id))
            before.inbounds
            (attached_tags prev.ops)
            (not (is_empty prev.ops))
            flows
            tag
            o
        else if left
        then none
        else o)
unfolding diff_ops
push_all-diff_ops_shape before after flows prev tag o =
    let id = after.client_id in
    let changed = not (before.client_id == id) in
    let prev_attached = attached_tags prev.ops in
    let merge = not (is_empty prev.ops) in
    let gone = λ (t : String). not (contains after.inbounds t) in
    let left = keep gone before.inbounds in
    let owed = keep gone (detached_tags prev.ops) in
    let o' : Option String = if contains left tag || contains owed tag then none else o in
    push_all-detaches id tag left owed
      (join_ops (join_op changed before.inbounds prev_attached merge flows) after.inbounds) o
    ∙ push_all-join_ops id changed before.inbounds prev_attached merge flows tag after.inbounds o'
    ∙ ground (
      arith,
      contains-keep gone before.inbounds tag,
      contains-keep gone (detached_tags prev.ops) tag,
    )

-- From whatever an unfinished change left behind, as `CanHold` lists it: once every operation of the
-- plan has landed each inbound holds the user's credential exactly as the record after the edit says,
-- that Client ID on each of its inbounds, and nothing on the others.
pub push_all-diff_ops :
    (before after : RosterRecord) (flows : List (String × String)) (prev : PendingChange)
    (tag : String) (o : Option String)
    → CanHold before after prev tag o
    → push_all after.client_id tag (diff_ops before after flows prev) o
      ≡ (if contains after.inbounds tag then some after.client_id else none)
unfolding joined landed
push_all-diff_ops before after flows prev tag o h =
    push_all-diff_ops_shape before after flows prev tag o
    ∙ ground (
      arith,
      h.untouched,
      h.known,
      h.given_back,
      eq_iff before.client_id after.client_id,
      is_empty-detached prev.ops tag,
    )

-- The plan gives back a tag whose detach is still owed by a bare attach: a credential other than the
-- record's that xray kept there stays there, whatever the edit changed.
pub push_all-diff_ops_stale :
    (before after : RosterRecord) (flows : List (String × String)) (prev : PendingChange)
    (tag held : String)
    → contains after.inbounds tag ≡ true
    → contains before.inbounds tag ≡ false
    → contains (attached_tags prev.ops) tag ≡ false
    → contains (detached_tags prev.ops) tag ≡ true
    → push_all after.client_id tag (diff_ops before after flows prev) (some held) ≡ some held
unfolding joined landed
push_all-diff_ops_stale before after flows prev tag held a b p d =
    push_all-diff_ops_shape before after flows prev tag (some held) ∙ ground arith
