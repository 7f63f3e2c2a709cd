-- ===== src/SnapshotCache.antt =====
-- internal/snapshot/snapshot.go: the cache in front of a collector. What the source would answer is a
-- value; the calls that hold `refreshMu` run one after another.
use xform.Base.{
  String, Bool, true, false, List, [], ◌∷◌, Option, none, some, if◌then◌else◌, ◌≡◌, refl, ap, ◌∙◌,
  arith,
}

pub data Answer (T : Type 0) : Type 0 where
  collected : T → Answer T
  failed : String → Answer T

pub record Cache (T : Type 0) : Type 0 where
  pub latest : T
  pub ok : Bool

-- A tick of Start's loop, or a call of Latest; each with what the source answers if it is asked then.
pub data Call (T : Type 0) : Type 0 where
  tick : Answer T → Call T
  ask : Answer T → Call T

module _ {T : Type 0} where
  -- New, with the zero value
  abbrev pub new_cache : T → Cache T
  new_cache zero_value = record { latest = zero_value; ok = false }

  -- collect
  unfoldable pub collect : Answer T → Cache T → Answer T × Cache T
  collect (collected s) c = (collected s, record { latest = s; ok = true })
  collect (failed e) c = (if c.ok then collected c.latest else failed e, c)

  -- Latest
  unfoldable pub latest : Answer T → Cache T → Answer T × Cache T
  unfolding collect
  latest a c = let fresh = collect a c in if c.ok then (collected c.latest, c) else fresh

  -- What the calls of Latest return, and the cache after all.
  unfoldable pub serve : List (Call T) → Cache T → List (Answer T) × Cache T
  unfolding collect latest
  serve [] c = ([], c)
  serve (tick a ∷ calls) c = serve calls (collect a c).1
  serve (ask a ∷ calls) c =
      let rest = serve calls (latest a c).1 in ((latest a c).0 ∷ rest.0, rest.1)

-- What the cache promises: it remembers the last good snapshot, if any.
module _ {T : Type 0} where
  abbrev pub view : Cache T → Option T
  view c = if c.ok then some c.latest else none

  abbrev pub renewed : Answer T → Option T → Option T
  renewed (collected s) o = some s
  renewed (failed e) o = o

  abbrev pub remembered : Answer T → Option T → Option T
  remembered a none = renewed a none
  remembered a (some s) = some s

  abbrev pub shown : Answer T → Option T → Answer T
  shown a none = a
  shown a (some s) = collected s

  abbrev pub promised : List (Call T) → Option T → List (Answer T) × Option T
  promised [] o = ([], o)
  promised (tick a ∷ calls) o = promised calls (renewed a o)
  promised (ask a ∷ calls) o =
      let rest = promised calls (remembered a o) in (shown a o ∷ rest.0, rest.1)

  collect-renewed : (a : Answer T) (c : Cache T) → view (collect a c).1 ≡ renewed a (view c)
  unfolding collect
  collect-renewed (collected s) c = refl
  collect-renewed (failed e) c = refl

  latest-shown : (a : Answer T) (c : Cache T) → (latest a c).0 ≡ shown a (view c)
  unfolding latest
  latest-shown (collected s) c = ground arith
  latest-shown (failed e) c = ground arith

  latest-remembered : (a : Answer T) (c : Cache T) → view (latest a c).1 ≡ remembered a (view c)
  unfolding latest
  latest-remembered (collected s) c = ground arith
  latest-remembered (failed e) c = ground arith

  -- Whatever calls are made, Latest shows the last good snapshot once there is one, and before that what
  -- the source answers then; no failure of the source loses it.
  pub serve-promised :
      (calls : List (Call T)) (c : Cache T)
      → ((serve calls c).0 ≡ (promised calls (view c)).0)
        × (view (serve calls c).1 ≡ (promised calls (view c)).1)
  unfolding serve
  serve-promised [] c = (refl, refl)
  serve-promised (tick a ∷ calls) c =
      let later = serve-promised calls (collect a c).1 in
      let same = collect-renewed a c in
      (later.0 ∙ ap (λ o. (promised calls o).0) same, later.1 ∙ ap (λ o. (promised calls o).1) same)
  serve-promised (ask a ∷ calls) c =
      let later = serve-promised calls (latest a c).1 in
      let same = latest-remembered a c in
      (
        ap (λ x. x ∷ (serve calls (latest a c).1).0) (latest-shown a c)
            ∙ ap (λ l. shown a (view c) ∷ l) (later.0 ∙ ap (λ o. (promised calls o).0) same),
        later.1 ∙ ap (λ o. (promised calls o).1) same,
      )
