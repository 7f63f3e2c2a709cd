-- ===== src/Users/Store/Outcome.antt =====
-- What a mutation of the roster answers against what it stores.
use xform.Base.{
  ℕ, String, Bool, true, false, ◌&&◌, not, List, [], ◌∷◌, ◌++◌, Option, none, some, string_eq, ◌≡◌,
  refl, sym, subst, arith, eq_refl,
}
use xform.Base.Text.{CaseTables}
use xform.Users.{
  email_taken, client_id_taken, Result, ok, err, refuse_if, ◌>>◌, NewRosterUser, RosterRecord,
  RosterRow, Db,
}
use xform.Users.Store.{same, roster_record_where}
use xform.Users.Store.Sql.{find, update}
use xform.Users.Store.Add.{
  add_roster_user, add_checks, store_new, stored, existing_row, revive, new_row, is_taken, created,
}

module _ (u : CaseTables) (lower : String → String) where
  abbrev is_live : String → RosterRow → Bool
  is_live email r = same lower r.email email && (not r.disabled && not r.deleting)

  find-snoc :
      (email : String) (rows : List RosterRow) (new : RosterRow)
      → find (λ r. same lower r.email email) rows ≡ none
      → is_live email new ≡ true
      → find (is_live email) (rows ++ new ∷ []) ≡ some new
  unfolding find
  find-snoc email [] new h k = ground arith
  find-snoc email (r ∷ rows) new h k = ground (arith, find-snoc email rows new)

  find-revive :
      (user : NewRosterUser) (now : ℕ) (rows : List RosterRow) (r : RosterRow)
      → find (λ r. same lower r.email user.email) rows ≡ some r
      → r.deleting ≡ false
      → find (is_live user.email) (revive u lower user now rows)
        ≡ some (record r {
          client_id = user.client_id;
          inbounds = user.inbounds;
          disabled = false;
          updated_at = now;
        })
  unfolding find update revive
  find-revive user now [] r h k = cc
  find-revive user now (q ∷ rows) r h k = ground (arith, find-revive user now rows r)

  -- The returned record, with the spelling of the row that answers for the email.
  abbrev pub respelled : Option RosterRow → RosterRecord → RosterRecord
  respelled none rec = rec
  respelled (some r) rec = record rec { email = r.email }

  abbrev returned : NewRosterUser → ℕ → Option RosterRow → RosterRecord
  returned user now o = record {
    email = user.email;
    client_id = user.client_id;
    inbounds = user.inbounds;
    created_at = created u lower o now;
    updated_at = now;
  }

  -- The email has no row, or a disabled one that is not being deleted.
  lookup-store_new :
      (user : NewRosterUser) (now : ℕ) (o : Option RosterRow) (db : Db)
      → existing_row u lower user.email db ≡ o
      → is_taken u lower o ≡ false
      → roster_record_where lower false user.email (store_new u lower user now o db)
        ≡ ok (respelled o (returned user now o))
  unfolding roster_record_where store_new
  lookup-store_new user now none db f h =
      rw
        (find-snoc user.email db.roster (new_row u lower user now) f
          (ground (arith, eq_refl (lower user.email))))
        refl
  lookup-store_new user now (some r) db f h =
      let off : r.disabled ≡ true = ground arith in
      rw (off, find-revive user now db.roster r f (ground arith)) refl

  checked-free :
      (taken conflict : Bool) (x : Unit {0})
      → (refuse_if taken email_taken >> refuse_if conflict client_id_taken) ≡ ok x
      → taken ≡ false
  checked-free true conflict x h = cc h
  checked-free false conflict x h = refl

  stored-lookup :
      (fault : Option String) (user : NewRosterUser) (now : ℕ) (o : Option RosterRow)
      (c : Result (Unit {0})) (rec : RosterRecord) (db : Db)
      → existing_row u lower user.email db ≡ o
      → add_checks u lower user db ≡ c
      → (stored u lower fault user now db c).0 ≡ ok rec
      → roster_record_where lower false user.email (stored u lower fault user now db c).1
        ≡ ok (respelled o rec)
  unfolding add_checks
  stored-lookup fault user now o (err e) rec db f c h = cc h
  stored-lookup (some message) user now o (ok x) rec db f c h = cc h
  stored-lookup none user now o (ok x) rec db f c h =
      let free = checked-free _ _ x c in
      let e : returned user now (existing_row u lower user.email db) ≡ rec = cc h in
      let found =
        lookup-store_new user now o db f (subst (λ q. is_taken u lower q ≡ false) f free) in
      subst
        (λ q.
          roster_record_where lower false user.email
            (store_new u lower user now (existing_row u lower user.email db) db)
          ≡ ok (respelled o q))
        e
        (subst
          (λ q.
            roster_record_where lower false user.email (store_new u lower user now q db)
            ≡ ok (respelled o (returned user now q)))
          (sym f) found)

  -- After an AddRosterUser that returns a record, RosterRecord finds that record under the email of
  -- the request, but with the spelling of the email that the row had before if one is revived.
  pub roster_record-add_roster_user :
      (fault : Option String) (user : NewRosterUser) (now : ℕ) (rec : RosterRecord) (db : Db)
      → (add_roster_user u lower fault user now db).0 ≡ ok rec
      → roster_record_where lower false user.email (add_roster_user u lower fault user now db).1
        ≡ ok (respelled (existing_row u lower user.email db) rec)
  unfolding add_roster_user
  roster_record-add_roster_user fault user now rec db h =
      stored-lookup fault user now _ _ rec db refl refl h
