-- ===== src/Users/Store/Poll/Adoption.antt =====
-- What the adoption of a config's clients leaves alone.
use xform.Base.{
  ℕ, String, true, false, List, [], ◌∷◌, ◌++◌, Option, none, some, ◌==◌, string_eq, nat_eq, eq_iff,
  ◌≡◌, refl, sym, subst, arith, ◌∙◌, inl, inr, Bool-cases,
}
use xform.Base.Lists.{contains, length}
use xform.XrayConfig.RosterParse.{Client}
use xform.Users.{RosterRow}
use xform.Users.Store.Sql.{find, update, order_by}
use xform.Users.Store.Poll.{adopt_client, adopt_each, adopt_clients, grow_tags, merge_tags}

-- Every tag of the first list is one of the second.
abbrev pub Within : List String → List String → Type 0
Within xs ys = (t : String) → contains xs t ≡ true → contains ys t ≡ true

contains-grown :
    (tags : List String) (c t : String)
    → contains tags t ≡ true
    → contains (tags ++ c ∷ []) t ≡ true
unfolding contains
contains-grown [] c t h = ground arith
contains-grown (x ∷ xs) c t h = ground (arith, contains-grown xs c t)

Within-merge_tags : (tags config : List String) → Within tags (merge_tags tags config)
unfolding merge_tags
Within-merge_tags tags [] t h = h
Within-merge_tags tags (c ∷ config) t h = elim (Bool-cases (contains tags c)) [
  | inl known ↦ rw known (Within-merge_tags tags config t h)
  | inr new ↦ rw new (Within-merge_tags (tags ++ c ∷ []) config t (contains-grown tags c t h))
]

-- What may become of a row: a disabled one stays as it is, another keeps all but its attachments and
-- the stamp of the update, and loses no attachment.
pub record Kept (r q : RosterRow) : Type 0 where
  pub email : q.email ≡ r.email
  pub client_id : q.client_id ≡ r.client_id
  pub disabled : q.disabled ≡ r.disabled
  pub deleting : q.deleting ≡ r.deleting
  pub created : q.created_at ≡ r.created_at
  pub attached : Within r.inbounds q.inbounds
  pub untouched : r.disabled ≡ true → q ≡ r

abbrev row_of : String → List RosterRow → Option RosterRow
row_of e = find (λ r. r.email == e)

module _ (e : String) where
  row_of-append :
      (rows more : List RosterRow) (r : RosterRow)
      → row_of e rows ≡ some r
      → row_of e (rows ++ more) ≡ some r
  unfolding find
  row_of-append [] more r h = cc
  row_of-append (q ∷ rows) more r h = ground (arith, row_of-append rows more r)

  row_of-update_other :
      (other : String) (set : RosterRow → RosterRow) (rows : List RosterRow)
      → (other == e) ≡ false
      → ((r : RosterRow) → (set r).email ≡ r.email)
      → row_of e (update (λ r. r.email == other) set rows) ≡ row_of e rows
  unfolding find update
  row_of-update_other other set [] n h = refl
  row_of-update_other other set (q ∷ rows) n h = ground (
    arith,
    h q,
    eq_iff q.email other,
    eq_iff q.email e,
    eq_iff other e,
    row_of-update_other other set rows n h,
  )

  row_of-update :
      (set : RosterRow → RosterRow) (rows : List RosterRow) (r : RosterRow)
      → ((r : RosterRow) → (set r).email ≡ r.email)
      → row_of e rows ≡ some r
      → row_of e (update (λ r. r.email == e) set rows) ≡ some (set r)
  unfolding find update
  row_of-update set [] r h f = cc
  row_of-update set (q ∷ rows) r h f =
      ground (arith, h q, eq_iff q.email e, row_of-update set rows r h)

-- The email's row among `rows`, and what it was when the loop began.
abbrev Held : String → RosterRow → List RosterRow → Type 0
Held e r rows = (q : RosterRow) × (row_of e rows ≡ some q) × Kept r q

Held-grow_tags :
    (e : String) (r : RosterRow) (stamp : ℕ) (config : List String) (rows : List RosterRow)
    → r.disabled ≡ false
    → Held e r rows
    → Held e r (grow_tags stamp e r.inbounds config rows)
unfolding grow_tags
Held-grow_tags e r stamp config rows on (q, f, k) =
    elim (Bool-cases (length (merge_tags r.inbounds config) == length r.inbounds)) [
      | inl same ↦ rw same (q, f, k)
      | inr grown ↦ rw grown (
        _,
        row_of-update e _ rows q (λ r. refl) f,
        record {
          email = k.email;
          client_id = k.client_id;
          disabled = k.disabled;
          deleting = k.deleting;
          created = k.created;
          attached = Within-merge_tags r.inbounds config;
          untouched = λ off. absurd (ground arith);
        },
      )
    ]

Held-grow_other :
    (e other : String) (r : RosterRow) (stamp : ℕ) (tags config : List String)
    (rows : List RosterRow)
    → (other == e) ≡ false
    → Held e r rows
    → Held e r (grow_tags stamp other tags config rows)
unfolding grow_tags
Held-grow_other e other r stamp tags config rows n (q, f, k) =
    elim (Bool-cases (length (merge_tags tags config) == length tags)) [
      | inl same ↦ rw same (q, f, k)
      | inr grown ↦ rw grown (q, row_of-update_other e other _ rows n (λ r. refl) ∙ f, k)
    ]

Held-adopt_other :
    (e other : String) (r : RosterRow) (stamp : ℕ) (client : Client) (row : Option RosterRow)
    (rows : List RosterRow)
    → (other == e) ≡ false
    → Held e r rows
    → Held e r (adopt_client stamp other client row rows)
unfolding adopt_client
Held-adopt_other e other r stamp client none rows n (q, f, k) = (q, row_of-append e rows _ q f, k)
Held-adopt_other e other r stamp client (some s) rows n h = elim (Bool-cases s.disabled) [
  | inl off ↦ rw off h
  | inr on ↦ rw on (Held-grow_other e other r stamp s.inbounds client.inbounds rows n h)
]

Held-adopt_own :
    (e : String) (r : RosterRow) (stamp : ℕ) (client : Client) (rows : List RosterRow)
    → Held e r rows
    → Held e r (adopt_client stamp e client (some r) rows)
unfolding adopt_client
Held-adopt_own e r stamp client rows h = elim (Bool-cases r.disabled) [
  | inl off ↦
      let skip : adopt_client stamp e client (some r) rows ≡ rows = ground arith in
      subst (Held e r) (sym skip) h
  | inr on ↦
      let grow : adopt_client stamp e client (some r) rows
          ≡ grow_tags stamp e r.inbounds client.inbounds rows =
        ground arith in
      subst (Held e r) (sym grow) (Held-grow_tags e r stamp client.inbounds rows on h)
]

Held-adopt_each :
    (e : String) (r : RosterRow) (stamp : ℕ) (stored : List RosterRow)
    (clients : List (String × Client)) (rows : List RosterRow)
    → row_of e stored ≡ some r
    → Held e r rows
    → Held e r (adopt_each stamp stored clients rows)
unfolding adopt_each
Held-adopt_each e r stamp stored [] rows f h = h
Held-adopt_each e r stamp stored ((c, client) ∷ cs) rows f h = elim (Bool-cases (c == e)) [
  | inl own ↦
      let same_email = (eq_iff c e).0 own in
      Held-adopt_each e r stamp stored cs _ f
        (rw (same_email, f) (Held-adopt_own e r stamp client rows h))
  | inr other ↦
      Held-adopt_each e r stamp stored cs _ f (Held-adopt_other e c r stamp client _ rows other h)
]

-- Adopting a config's clients keeps every row of the roster: an email that has a row has one after it
-- with the same Client ID, the same flags and the same creation time and without the loss of an
-- attachment, and a disabled row is the same in every field.
pub adopt_clients-Kept :
    (e : String) (r : RosterRow) (stamp : ℕ) (clients : List (String × Client))
    (rows : List RosterRow)
    → find (λ q. q.email == e) rows ≡ some r
    → (q : RosterRow) × (find (λ q. q.email == e) (adopt_clients stamp clients rows) ≡ some q)
      × Kept r q
unfolding adopt_clients
adopt_clients-Kept e r stamp clients rows f =
    Held-adopt_each e r stamp rows (order_by (λ c. c.0) clients) rows f (
      r,
      f,
      record {
        email = refl;
        client_id = refl;
        disabled = refl;
        deleting = refl;
        created = refl;
        attached = λ t h. h;
        untouched = λ off. refl;
      },
    )
