-- ===== src/Users/Store/Purge.antt =====
-- The deletion of a user in its two halves, MarkRosterDeleting and PurgeRosterUser.
use xform.Base.{
  ℕ, String, true, false, ◌&&◌, not, List, [], ◌∷◌, ◌==◌, string_eq, ◌≡◌, refl, arith, eq_iff,
}
use xform.Base.Lists.{keep}
use xform.Users.{RosterRow, UserRow, Db}
use xform.Users.Store.{same, disable_users}
use xform.Users.Store.Sql.{update, delete_from, any}
use xform.Users.Store.Flags.{mark_roster_deleting, purge_roster_user}

module _ (lower : String → String) (email : String) where
  abbrev marked : ℕ → List RosterRow → List RosterRow
  marked now =
      update (λ r. same lower r.email email && not r.deleting)
        (λ r. record r { disabled = true; deleting = true; updated_at = now })

  purged-marked :
      (now : ℕ) (rows : List RosterRow)
      → delete_from (λ r. same lower r.email email && r.deleting) (marked now rows)
        ≡ delete_from (λ r. same lower r.email email) rows
  unfolding update delete_from keep
  purged-marked now [] = refl
  purged-marked now (r ∷ rows) = ground (arith, purged-marked now rows)

  any-marked :
      (now : ℕ) (other : String) (rows : List RosterRow)
      → (lower other == lower email) ≡ true
      → any (λ r. same lower r.email other && r.deleting) (marked now rows)
        ≡ any (λ r. same lower r.email email) rows
  unfolding update any
  any-marked now other [] h = refl
  any-marked now other (r ∷ rows) h =
      ground (arith, any-marked now other rows h, eq_iff (lower other) (lower email))

  purged-disable_users :
      (now : ℕ) (roster : List RosterRow) (rows : List UserRow)
      → any (λ r. same lower r.email email) roster ≡ true
      → delete_from
          (λ q.
            same lower q.email email
            && any (λ r. same lower r.email q.email && r.deleting) (marked now roster))
          (disable_users lower email rows)
        ≡ delete_from (λ q. same lower q.email email) rows
  unfolding update delete_from keep
  purged-disable_users now roster [] h = refl
  purged-disable_users now roster (q ∷ rows) h =
      ground (arith, purged-disable_users now roster rows h, any-marked now q.email roster)

  -- Marking a user of the roster for deletion and then purging removes the roster rows and the user
  -- rows of the email, in whatever case, and no other row and no other field changes.
  pub purge-mark_roster_deleting :
      (now : ℕ) (db : Db)
      → any (λ r. same lower r.email email) db.roster ≡ true
      → (purge_roster_user lower email (mark_roster_deleting lower email now db).1).1 ≡ record db {
        roster = delete_from (λ r. same lower r.email email) db.roster;
        users = delete_from (λ q. same lower q.email email) db.users;
      }
  unfolding purge_roster_user mark_roster_deleting
  purge-mark_roster_deleting now db h =
      rw (purged-marked now db.roster, purged-disable_users now db.roster db.users h) refl

  unmarked-delete :
      (rows : List RosterRow)
      → any (λ r. same lower r.email email && r.deleting) rows ≡ false
      → delete_from (λ r. same lower r.email email && r.deleting) rows ≡ rows
  unfolding any delete_from keep
  unmarked-delete [] h = refl
  unmarked-delete (r ∷ rows) h = ground (arith, unmarked-delete rows)

  any-other :
      (other : String) (rows : List RosterRow)
      → (lower other == lower email) ≡ true
      → any (λ r. same lower r.email email && r.deleting) rows ≡ false
      → any (λ r. same lower r.email other && r.deleting) rows ≡ false
  unfolding any
  any-other other [] h k = refl
  any-other other (r ∷ rows) h k =
      ground (arith, any-other other rows h, eq_iff (lower other) (lower email))

  unmarked-users :
      (roster : List RosterRow) (rows : List UserRow)
      → any (λ r. same lower r.email email && r.deleting) roster ≡ false
      → delete_from
          (λ q.
            same lower q.email email && any (λ r. same lower r.email q.email && r.deleting) roster)
          rows
        ≡ rows
  unfolding delete_from keep
  unmarked-users roster [] h = refl
  unmarked-users roster (q ∷ rows) h =
      ground (arith, unmarked-users roster rows h, any-other q.email roster)

  -- PurgeRosterUser removes nothing of an email that has no row marked for deletion.
  pub purge_roster_user-unmarked :
      (db : Db)
      → any (λ r. same lower r.email email && r.deleting) db.roster ≡ false
      → (purge_roster_user lower email db).1 ≡ db
  unfolding purge_roster_user
  purge_roster_user-unmarked db h =
      rw (unmarked-delete db.roster h, unmarked-users db.roster db.users h) refl
