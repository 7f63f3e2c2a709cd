-- ===== src/Users/Store/Poll/Totals.antt =====
-- What ApplyPoll does to the totals and to the last sighting of a user.
use xform.Base.{
  ℕ, String, Bool, true, false, List, [], ◌∷◌, Option, none, some, ◌==◌, string_eq, eq_iff,
  if◌then◌else◌, ◌+◌, ◌<◌, ◌≡◌, refl, arith, ◌∙◌, ◌⊎◌, inl, inr, Option-cases,
}
use Prim.Native.String.{◌++◌ as concat}
use xform.XrayConfig.RosterParse.{RosterParse, User}
use xform.Users.{UserRow, RosterRow, Db, ok, err, failure}
use xform.Users.Store.Sql.{update, find, any}
use xform.Users.Store.Unique.{any-find-none, any-find-some}
use xform.Users.Store.Poll.{
  Delta, Presence, upsert, apply_delta, apply_deltas, apply_presence, apply_presences, sync_label,
  sync_each, sync_labels, apply_poll, last_seen_grow, seen_at, read_roster, empty_row, polled,
  oversized, int64_limit,
}

-- A total of the user's row; 0 if there is none.
unfoldable pub total : (UserRow → ℕ) → String → List UserRow → ℕ
total key e [] = 0
total key e (r ∷ rows) = if r.email == e then key r else total key e rows

pub data Direction : Type 0 where
  uplink downlink : Direction

abbrev pub bytes_total : Direction → UserRow → ℕ
bytes_total uplink r = r.up_bytes_total
bytes_total downlink r = r.down_bytes_total

abbrev pub reported : Direction → Delta → ℕ
reported uplink d = d.up
reported downlink d = d.down

-- What a poll reports for the user.
unfoldable pub credited : Direction → String → List Delta → ℕ
credited way e [] = 0
credited way e (d ∷ ds) = (if d.email == e then reported way d else 0) + credited way e ds

module _ (key : UserRow → ℕ) (e : String) where
  total-upsert :
      (new : UserRow) (set : UserRow → UserRow) (n : ℕ) (rows : List UserRow)
      → ((r : UserRow) → ((set r).email ≡ r.email) × (key (set r) ≡ key r + n))
      → key new ≡ n
      → total key e (upsert new set rows) ≡ total key e rows + (if new.email == e then n else 0)
  unfolding total upsert
  total-upsert new set n [] h k = ground (arith, k)
  total-upsert new set n (r ∷ rows) h k = ground (
    arith,
    (h r).0,
    (h r).1,
    k,
    eq_iff r.email new.email,
    eq_iff r.email e,
    eq_iff new.email e,
    total-upsert new set n rows h k,
  )

  total-update :
      (p : UserRow → Bool) (set : UserRow → UserRow) (rows : List UserRow)
      → ((r : UserRow) → ((set r).email ≡ r.email) × (key (set r) ≡ key r))
      → total key e (update p set rows) ≡ total key e rows
  unfolding total update
  total-update p set [] h = refl
  total-update p set (r ∷ rows) h = ground (arith, (h r).0, (h r).1, total-update p set rows h)

module _ (way : Direction) (e : String) where
  total-apply_deltas :
      (stamp : ℕ) (ds : List Delta) (rows : List UserRow)
      → total (bytes_total way) e (apply_deltas stamp ds rows)
        ≡ total (bytes_total way) e rows + credited way e ds
  unfolding apply_deltas apply_delta credited
  total-apply_deltas stamp [] rows = ground arith
  total-apply_deltas stamp (d ∷ ds) rows = ground (
    arith,
    total-apply_deltas stamp ds (apply_delta stamp d rows),
    total-upsert (bytes_total way) e
        (record (empty_row d.email stamp) {
          up_bytes_total = d.up;
          down_bytes_total = d.down;
          last_seen = seen_at d.seen_now stamp;
        })
        (λ r. record r {
          up_bytes_total = r.up_bytes_total + d.up;
          down_bytes_total = r.down_bytes_total + d.down;
          last_seen = last_seen_grow r.last_seen (seen_at d.seen_now stamp);
        })
        (reported way d) rows (law way d) (first way d),
  )
    where
      law :
          (way : Direction) (d : Delta) (r : UserRow)
          → ((record r {
            up_bytes_total = r.up_bytes_total + d.up;
            down_bytes_total = r.down_bytes_total + d.down;
            last_seen = last_seen_grow r.last_seen (seen_at d.seen_now stamp);
          }).email
              ≡ r.email)
            × (bytes_total way (record r {
              up_bytes_total = r.up_bytes_total + d.up;
              down_bytes_total = r.down_bytes_total + d.down;
              last_seen = last_seen_grow r.last_seen (seen_at d.seen_now stamp);
            })
                ≡ bytes_total way r + reported way d)
      law uplink d r = (refl, refl)
      law downlink d r = (refl, refl)

      first :
          (way : Direction) (d : Delta)
          → bytes_total way (record (empty_row d.email stamp) {
            up_bytes_total = d.up;
            down_bytes_total = d.down;
            last_seen = seen_at d.seen_now stamp;
          })
            ≡ reported way d
      first uplink d = refl
      first downlink d = refl

  bytes-kept :
      (way : Direction) (r q : UserRow)
      → q.up_bytes_total ≡ r.up_bytes_total
      → q.down_bytes_total ≡ r.down_bytes_total
      → bytes_total way q ≡ bytes_total way r
  bytes-kept uplink r q u d = u
  bytes-kept downlink r q u d = d

  -- An upsert that touches other columns.
  total-upsert_kept :
      (new : UserRow) (set : UserRow → UserRow) (rows : List UserRow)
      → ((r : UserRow) → (set r).email ≡ r.email)
      → ((r : UserRow) → bytes_total way (set r) ≡ bytes_total way r)
      → bytes_total way new ≡ 0
      → total (bytes_total way) e (upsert new set rows) ≡ total (bytes_total way) e rows
  total-upsert_kept new set rows email bytes z = ground (
    arith,
    total-upsert (bytes_total way) e new set 0 rows (λ r. (email r, ground (arith, bytes r))) z,
  )

  none_sent : (email : String) (stamp : ℕ) → bytes_total way (empty_row email stamp) ≡ 0
  none_sent email stamp = go way
    where
      go : (way : Direction) → bytes_total way (empty_row email stamp) ≡ 0
      go uplink = refl
      go downlink = refl

  total-apply_presences :
      (stamp : ℕ) (ps : List Presence) (rows : List UserRow)
      → total (bytes_total way) e (apply_presences stamp ps rows) ≡ total (bytes_total way) e rows
  unfolding apply_presences apply_presence
  total-apply_presences stamp [] rows = refl
  total-apply_presences stamp (p ∷ ps) rows =
      total-apply_presences stamp ps (apply_presence stamp p rows)
      ∙ total-upsert_kept _ _ rows (λ r. refl) (λ r. bytes-kept way r _ refl refl)
          (bytes-kept way (empty_row p.email stamp) _ refl refl ∙ none_sent p.email stamp)

  total-sync_each :
      (lower : String → String) (stamp : ℕ) (roster : List RosterRow) (users : List (String × User))
      (rows : List UserRow)
      → total (bytes_total way) e (sync_each lower stamp roster users rows)
        ≡ total (bytes_total way) e rows
  unfolding sync_each sync_label
  total-sync_each lower stamp roster [] rows = refl
  total-sync_each lower stamp roster (user ∷ users) rows =
      total-sync_each lower stamp roster users (sync_label lower stamp roster user rows)
      ∙ total-upsert_kept _ _ rows (λ r. refl) (λ r. bytes-kept way r _ refl refl)
          (bytes-kept way (empty_row user.0 stamp) _ refl refl ∙ none_sent user.0 stamp)

  total-read_roster :
      (lower : String → String) (stamp : ℕ) (roster : Option RosterParse) (db : Db)
      → total (bytes_total way) e (read_roster lower stamp roster db).users
        ≡ total (bytes_total way) e db.users
  unfolding sync_labels
  total-read_roster lower stamp none db = refl
  total-read_roster lower stamp (some parse) db =
      total-sync_each lower stamp db.roster parse.labels _
      ∙ total-update (bytes_total way) e _ _ db.users (λ r. (refl, bytes-kept way r _ refl refl))

  polled-total :
      (lower : String → String) (deltas : List Delta) (presence : List Presence)
      (roster : Option RosterParse) (stamp : ℕ) (db : Db)
      → total (bytes_total way) e (polled lower deltas presence roster stamp db none).1.users
        ≡ total (bytes_total way) e db.users + credited way e deltas
  polled-total lower deltas presence roster stamp db =
      total-read_roster lower stamp roster _
      ∙ total-apply_presences stamp presence _
      ∙ total-apply_deltas stamp deltas db.users

  pub total-apply_poll :
      (lower : String → String) (deltas : List Delta) (presence : List Presence)
      (roster : Option RosterParse) (stamp : ℕ) (db : Db)
      → (apply_poll lower deltas presence roster stamp db).0 ≡ ok tt
      → total (bytes_total way) e (apply_poll lower deltas presence roster stamp db).1.users
        ≡ total (bytes_total way) e db.users + credited way e deltas
  unfolding apply_poll
  total-apply_poll lower deltas presence roster stamp db h =
      elim (Option-cases (find oversized deltas)) [
        | inl fits ↦ rw fits (polled-total lower deltas presence roster stamp db)
        | inr (d, refused) ↦ cc (rw refused at h)
      ]

  -- ApplyPoll, where the total that a user should come to is below 2^63: if every delta is below 2^63
  -- it succeeds and adds to the user's up and down total exactly what the poll reports for the user,
  -- whatever presence and roster come with it, a user without a row starting from zero; if some delta
  -- is not, it answers an error and leaves the database as it was.
  pub apply_poll-total :
      (lower : String → String) (deltas : List Delta) (presence : List Presence)
      (roster : Option RosterParse) (stamp : ℕ) (db : Db)
      → total (bytes_total way) e db.users + credited way e deltas < int64_limit
      → let after = apply_poll lower deltas presence roster stamp db in
        let sum = total (bytes_total way) e after.1.users in
        ((any oversized deltas ≡ false)
          × (after.0 ≡ ok tt)
          × (sum ≡ total (bytes_total way) e db.users + credited way e deltas)
          × (sum < int64_limit))
        ⊎ ((any oversized deltas ≡ true)
            × ((d : Delta) × (after.0 ≡ err (failure (concat "apply delta for " d.email))))
            × (after.1 ≡ db))
  unfolding apply_poll
  apply_poll-total lower deltas presence roster stamp db bound =
      elim (Option-cases (find oversized deltas)) [
        | inl fits ↦
            let sum = polled-total lower deltas presence roster stamp db in
            rw fits (inl (any-find-none oversized deltas fits, refl, sum, rw sum bound))
        | inr (d, refused) ↦
            rw refused (inr (any-find-some oversized deltas d refused, (d, refl), refl))
      ]
