-- ===== src/Roster/Mutations/Removal.antt =====
-- What Disable and Delete queue, and what they drop.
use xform.Base.{
  ℕ, String, true, false, ◌||◌, List, [], ◌∷◌, ◌++◌, map, Option, none, ◌==◌, string_eq, nat_eq,
  if◌then◌else◌, ◌≡◌, refl, arith, ◌∙◌, eq_iff,
}
use xform.Base.Lists.{contains, contains-append, is_empty}
use xform.Base.Assoc.{lookup, lookup-delete_self, lookup-insert_self}
use xform.Base.Text.{CaseTables, trim_space}
use xform.XrayConfig.{View}
use xform.Users.{ok, RosterRecord}
use xform.Roster.{PendingChange, attached_tags, detach_ops}
use xform.Roster.Diff.{push_all, push_all-detach_ops}
use xform.Roster.Service.{StoreApi, Service, take_pending, enqueue_gen, sync, or_zero}
use xform.Roster.Mutations.{State, answered, add_missing}
use xform.Roster.Mutations.Leaving.{disable, delete_user}

contains-add_missing :
    (tags rest : List String) (tag : String)
    → contains (add_missing tags rest) tag ≡ (contains tags tag || contains rest tag)
unfolding contains
contains-add_missing tags [] tag = ground arith
contains-add_missing tags (t ∷ rest) tag = ground (
  arith,
  eq_iff t tag,
  contains-append tags (t ∷ []) tag,
  contains-add_missing tags rest tag,
  contains-add_missing (tags ++ t ∷ []) rest tag,
)

-- The change that is queued under an email.
abbrev pub queued_change : String → Service → PendingChange
queued_change email s = or_zero (lookup email s.queue)

module _ {S : Type 0} (u : CaseTables) (api : StoreApi S) (view : View) (now : ℕ) where
  delete_user-service :
      (raw : String) (r : RosterRecord) (st : State S)
      → (trim_space raw == "") ≡ false
      → api.roster_record (trim_space raw) st.store ≡ ok r
      → (api.mark_roster_deleting r.email now st.store).0 ≡ ok tt
      → (delete_user u api view now raw st).1.service ≡ (
          let (prev, svc) = take_pending (trim_space raw) st.service in
          enqueue_gen r
            (detach_ops (add_missing r.inbounds (map (λ op. op.tag) prev.ops)))
            true
            svc)
  unfolding delete_user
  delete_user-service raw r st e found marked = ground (arith, found, marked)

  -- Delete, of a live user whose row the store can mark, requested in the spelling of the email that
  -- the record has: whatever the user's unfinished change did, landing the queued operations leaves
  -- no credential on any inbound that the record or that change names and what it was on the others,
  -- and the queued change erases the user once it settles.
  pub delete_user_detaches :
      (raw : String) (r : RosterRecord) (tag : String) (o : Option String) (st : State S)
      → (trim_space raw == "") ≡ false
      → api.roster_record (trim_space raw) st.store ≡ ok r
      → (api.mark_roster_deleting r.email now st.store).0 ≡ ok tt
      → trim_space raw ≡ r.email
      → let prev = queued_change r.email st.service in
        let change = queued_change r.email (delete_user u api view now raw st).1.service in
        (change.purge ≡ true)
        × (push_all change.id tag change.ops o ≡ (
            if contains r.inbounds tag || contains (map (λ op. op.tag) prev.ops) tag
            then none
            else o))
  unfolding take_pending enqueue_gen
  delete_user_detaches raw r tag o st e found marked spelled =
      let prev = queued_change r.email st.service in
      let tags = map (λ op. op.tag) prev.ops in
      rw (delete_user-service raw r st e found marked, spelled, lookup-insert_self)
        (
          refl,
          push_all-detach_ops r.client_id tag (add_missing r.inbounds tags) o
              ∙ rw contains-add_missing,
        )

  -- Delete, of a live user whose row the store can mark, requested in a spelling of the email under
  -- which nothing is queued: the queued change takes the place of the user's unfinished one, whatever
  -- that was, and landing its operations leaves what an inbound holds that the record does not name.
  pub delete_user_strands :
      (raw : String) (r : RosterRecord) (tag : String) (o : Option String) (st : State S)
      → (trim_space raw == "") ≡ false
      → api.roster_record (trim_space raw) st.store ≡ ok r
      → (api.mark_roster_deleting r.email now st.store).0 ≡ ok tt
      → lookup (trim_space raw) st.service.queue ≡ none
      → contains r.inbounds tag ≡ false
      → let change = queued_change r.email (delete_user u api view now raw st).1.service in
        (change.purge ≡ true) × (push_all change.id tag change.ops o ≡ o)
  unfolding take_pending enqueue_gen contains
  delete_user_strands raw r tag o st e found marked unqueued other =
      rw (delete_user-service raw r st e found marked, unqueued, lookup-insert_self)
        (refl, push_all-detach_ops r.client_id tag (add_missing r.inbounds []) o ∙ rw other refl)

  disable-service :
      (raw : String) (r : RosterRecord) (st : State S)
      → (trim_space raw == "") ≡ false
      → api.roster_record (trim_space raw) st.store ≡ ok r
      → (api.disable_roster_user (trim_space raw) now st.store).0 ≡ ok tt
      → (disable u api view now raw st).1.service ≡ (
          let (prev, svc) = take_pending (trim_space raw) st.service in
          let tags = add_missing r.inbounds (attached_tags prev.ops) in
          if is_empty tags then svc else enqueue_gen r (detach_ops tags) false svc)
  unfolding disable
  disable-service raw r st e found done = ground (arith, found, done)

  -- Disable drops what is owed: where the record has no inbound and the unfinished change holds
  -- detaches alone, the user is reported disabled with nothing queued any more, so no pass pushes or
  -- renders those detaches; and a user who was marked failed stays marked, with nothing to retry.
  pub disable_drops_detaches :
      (raw : String) (r : RosterRecord) (st : State S)
      → (trim_space raw == "") ≡ false
      → api.roster_record (trim_space raw) st.store ≡ ok r
      → (api.disable_roster_user (trim_space raw) now st.store).0 ≡ ok tt
      → r.inbounds ≡ []
      → attached_tags (queued_change (trim_space raw) st.service).ops ≡ []
      → let after = disable u api view now raw st in
        (after.0 ≡ answered true (sync after.1.service))
        × (lookup (trim_space raw) after.1.service.queue ≡ none)
        × (after.1.service.failures ≡ st.service.failures)
  unfolding disable take_pending
  disable_drops_detaches raw r st e found done bare detaches =
      ground (arith, found, done, lookup-delete_self (trim_space raw) st.service.queue)
