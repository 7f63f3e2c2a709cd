-- ===== src/Roster/Diff/Idle.antt =====
-- A save that carries the stored state.
use xform.Base.{String, true, false, not, List, [], ◌∷◌, string_eq, ◌≡◌, refl, arith, eq_refl}
use xform.Base.Lists.{contains, keep}
use xform.Users.{RosterRecord}
use xform.Roster.{PendingChange, join_op, join_ops, diff_ops}

-- Each element of `part` is in `all`.
IsPart : List String → List String → Type 0
IsPart part all = (tag : String) → contains part tag ≡ true → contains all tag ≡ true

keep_gone : (all part : List String) → IsPart part all → keep (λ t. not (contains all t)) part ≡ []
unfolding keep contains IsPart
keep_gone all [] h = refl
keep_gone all (t ∷ part) h =
    ground (arith, h t, eq_refl t, keep_gone all part (λ tag c. h tag (ground arith)))

join_ops_idle :
    (flows : List (String × String)) (all part : List String)
    → IsPart part all
    → join_ops (join_op false all [] false flows) part ≡ []
unfolding join_op contains IsPart
join_ops_idle flows all [] h = refl
join_ops_idle flows all (t ∷ part) h =
    ground (arith, h t, eq_refl t, join_ops_idle flows all part (λ tag c. h tag (ground arith)))

-- An edit that leaves the Client ID and the attachment set as they are plans nothing, if no
-- unfinished operation is queued.
pub diff_ops_idle :
    (before after : RosterRecord) (flows : List (String × String)) (prev : PendingChange)
    → after.client_id ≡ before.client_id
    → after.inbounds ≡ before.inbounds
    → prev.ops ≡ []
    → diff_ops before after flows prev ≡ []
unfolding diff_ops keep contains IsPart
diff_ops_idle before after flows prev id tags idle = ground (
  arith,
  eq_refl before.client_id,
  keep_gone before.inbounds before.inbounds (λ t c. c),
  join_ops_idle flows before.inbounds before.inbounds (λ t c. c),
)
