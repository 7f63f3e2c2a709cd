-- ===== src/Users/Collector/Purge.antt =====
-- What the collector still knows of a purged user, and how it meets the store's purge.
use xform.Base.{
  ℕ, String, Bool, false, List, [], ◌∷◌, map, Option, none, some, ◌==◌, string_eq, ◌≡◌, refl, arith,
  ◌∙◌, inl, inr, Option-cases,
}
use xform.Base.Lists.{All}
use xform.Base.Assoc.{lookup, delete, lookup-delete_self}
use xform.XrayConfig.RosterParse.{RosterParse, User}
use xform.Users.{UserRow, RosterRow, Db}
use xform.Users.Store.Sql.{any, update, find}
use xform.Users.Store.Poll.{
  Delta, Presence, upsert, apply_delta, apply_deltas, apply_presence, apply_presences, sync_label,
  sync_each, sync_labels, read_roster, apply_poll, oversized,
}
use xform.Users.Collector.{Collector, PendingDelta, purge, deltas_of, delta_of}

others-deltas_of :
    (email : String) (m : List (String × PendingDelta))
    → All (λ d. (d.email == email) ≡ false) (map delta_of (delete email m))
unfolding delete
others-deltas_of email [] = tt
others-deltas_of email ((k, p) ∷ m) = ground (arith, others-deltas_of email m)

any-upsert_other :
    (email : String) (new : UserRow) (set : UserRow → UserRow) (rows : List UserRow)
    → ((r : UserRow) → (set r).email ≡ r.email)
    → (new.email == email) ≡ false
    → any (λ r. r.email == email) (upsert new set rows) ≡ any (λ r. r.email == email) rows
unfolding any upsert
any-upsert_other email new set [] h n = ground arith
any-upsert_other email new set (r ∷ rows) h n =
    ground (arith, h r, any-upsert_other email new set rows h n)

any-apply_deltas :
    (email : String) (stamp : ℕ) (ds : List Delta) (rows : List UserRow)
    → All (λ d. (d.email == email) ≡ false) ds
    → any (λ r. r.email == email) (apply_deltas stamp ds rows) ≡ any (λ r. r.email == email) rows
unfolding apply_deltas apply_delta
any-apply_deltas email stamp [] rows h = refl
any-apply_deltas email stamp (d ∷ ds) rows h =
    any-apply_deltas email stamp ds (apply_delta stamp d rows) h.1
    ∙ any-upsert_other email _ _ rows (λ r. refl) h.0

any-apply_presences :
    (email : String) (stamp : ℕ) (ps : List Presence) (rows : List UserRow)
    → any (λ p. p.email == email) ps ≡ false
    → any (λ r. r.email == email) (apply_presences stamp ps rows) ≡ any (λ r. r.email == email) rows
unfolding apply_presences apply_presence any
any-apply_presences email stamp [] rows h = refl
any-apply_presences email stamp (p ∷ ps) rows h =
    any-apply_presences email stamp ps (apply_presence stamp p rows) (ground (arith, h))
    ∙ any-upsert_other email _ _ rows (λ r. refl) (ground (arith, h))

any-update_email :
    (email : String) (p : UserRow → Bool) (set : UserRow → UserRow) (rows : List UserRow)
    → ((r : UserRow) → (set r).email ≡ r.email)
    → any (λ r. r.email == email) (update p set rows) ≡ any (λ r. r.email == email) rows
unfolding any update
any-update_email email p set [] h = refl
any-update_email email p set (r ∷ rows) h = ground (arith, h r, any-update_email email p set rows h)

module _ (lower : String → String) (email : String) where
  any-sync_each :
      (stamp : ℕ) (roster : List RosterRow) (users : List (String × User)) (rows : List UserRow)
      → any (λ l. l.0 == email) users ≡ false
      → any (λ r. r.email == email) (sync_each lower stamp roster users rows)
        ≡ any (λ r. r.email == email) rows
  unfolding sync_each sync_label any
  any-sync_each stamp roster [] rows h = refl
  any-sync_each stamp roster (l ∷ users) rows h =
      any-sync_each stamp roster users (sync_label lower stamp roster l rows) (ground (arith, h))
      ∙ any-upsert_other email _ _ rows (λ r. refl) (ground (arith, h))

  -- A parse of the config that labels the user.
  abbrev pub labels_user : Option RosterParse → Bool
  labels_user none = false
  labels_user (some parse) = any (λ l. l.0 == email) parse.labels

  any-read_roster :
      (roster : Option RosterParse) (stamp : ℕ) (db : Db)
      → labels_user roster ≡ false
      → any (λ r. r.email == email) (read_roster lower stamp roster db).users
        ≡ any (λ r. r.email == email) db.users
  unfolding sync_labels
  any-read_roster none stamp db h = refl
  any-read_roster (some parse) stamp db h =
      any-sync_each stamp db.roster parse.labels _ h
      ∙ any-update_email email _ _ db.users (λ r. refl)

  any-apply_poll :
      (deltas : List Delta) (ps : List Presence) (roster : Option RosterParse) (stamp : ℕ) (db : Db)
      → All (λ d. (d.email == email) ≡ false) deltas
      → any (λ p. p.email == email) ps ≡ false
      → labels_user roster ≡ false
      → any (λ r. r.email == email) (apply_poll lower deltas ps roster stamp db).1.users
        ≡ any (λ r. r.email == email) db.users
  unfolding apply_poll
  any-apply_poll deltas ps roster stamp db hd hp hr = elim (Option-cases (find oversized deltas)) [
    | inl fits ↦ rw fits (
        any-read_roster roster stamp _ hr
        ∙ any-apply_presences email stamp ps _ hp
        ∙ any-apply_deltas email stamp deltas db.users hd)
    | inr (d, refused) ↦ rw refused refl
  ]

  -- Purge leaves no tracker, no baseline and no pending traffic of the user in the collector, and the
  -- pending parse of the config as it is. If the store has no row of the user then, a transaction of
  -- what is pending brings none back, provided that no presence row of the poll is the user's and no
  -- label of the pending parse is.
  pub purge_forgets :
      (c : Collector) (ps : List Presence) (stamp : ℕ) (db : Db)
      → any (λ r. r.email == email) db.users ≡ false
      → any (λ p. p.email == email) ps ≡ false
      → labels_user c.pending_roster ≡ false
      → let after = purge email c in
        (lookup email after.up ≡ none)
        × (lookup email after.down ≡ none)
        × (lookup email after.seeded ≡ none)
        × (lookup email after.pending ≡ none)
        × (after.pending_roster ≡ c.pending_roster)
        × (any
              (λ r. r.email == email)
              (apply_poll lower (deltas_of after) ps after.pending_roster stamp db).1.users
            ≡ false)
  unfolding purge
  purge_forgets c ps stamp db gone away unlabelled = (
    lookup-delete_self email c.up,
    lookup-delete_self email c.down,
    lookup-delete_self email c.seeded,
    lookup-delete_self email c.pending,
    refl,
    any-apply_poll _ ps c.pending_roster stamp db (others-deltas_of email c.pending) away unlabelled
        ∙ gone,
  )
