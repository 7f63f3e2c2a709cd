-- ===== src/FileSource/Runs.antt =====
-- internal/filesource/watcher.go: what a snapshot says after any events.
use xform.Base.{
  ℕ, String, Bool, true, false, List, [], ◌∷◌, Option, none, some, ◌==◌, string_eq, ◌≡◌, refl, sym,
  ◌∙◌, subst, arith,
}
use xform.Base.Lists.{All}
use xform.FileSource.{
  Watcher, Attempt, Read, contents, unreadable, Parsed, parsed, rejected, SourceError, Event,
  touched, watch_error, fired, message, record_failure, publish, settle, reload, turns, start,
}

-- Without an error the value is a current one; with one, the value is stale if there is any, and the
-- error's text is the one for that case.
abbrev pub Tells : {T : Type 0} → Watcher T → Option SourceError → Type 0
Tells w none = (w.stale ≡ false) × (w.loaded ≡ true)
Tells w (some e) = (w.stale ≡ w.loaded) × (e.message ≡ message w.messages e.reason w.loaded)

abbrev pub Accurate : {T : Type 0} → Watcher T → Type 0
Accurate w = Tells w w.source_err

-- The last valid value, its time and whether there is one.
abbrev pub Same : {T : Type 0} → Watcher T → Watcher T → Type 0
Same w v = (v.value ≡ w.value) × ((v.loaded_at ≡ w.loaded_at) × (v.loaded ≡ w.loaded))

abbrev pub is_valid : {T : Type 0} → Parsed T → Bool
is_valid (parsed v) = true
is_valid (rejected reason diagnostic) = false

module _ {T D : Type 0} (parse : T → D → Parsed T) (clean : String → String) where
  settle-Accurate : (p : Parsed T) (now : ℕ) (w : Watcher T) → Accurate (settle parse p now w)
  unfolding record_failure publish
  settle-Accurate (parsed v) now w = (refl, refl)
  settle-Accurate (rejected reason diagnostic) now w = (refl, refl)

  reload-Accurate : (a : Attempt D) (w : Watcher T) → Accurate (reload parse a w)
  unfolding reload
  reload-Accurate a w = go a.read
    where
      go : (r : Read D) → Accurate (reload parse (record { read = r; now = a.now }) w)
      go (contents d) = settle-Accurate (parse w.value d) a.now w
      go (unreadable e) = (refl, refl)

  turns-Accurate :
      (es : List (Event D)) (armed : Bool) (w : Watcher T)
      → Accurate w
      → Accurate (turns parse clean es (armed, w)).1
  unfolding turns
  turns-Accurate [] armed w h = h
  turns-Accurate (touched name ∷ es) armed w h = turns-Accurate es _ w h
  turns-Accurate (watch_error e ∷ es) armed w h = turns-Accurate es armed w h
  turns-Accurate (fired a ∷ es) true w h = turns-Accurate es false _ (reload-Accurate a w)
  turns-Accurate (fired a ∷ es) false w h = turns-Accurate es false w h

  -- After the start of a configured source and any events: no error means a current value, and an error
  -- means that the value shown, if there is one, is marked stale, with the text for that case.
  pub start-Accurate :
      (first : Attempt D) (es : List (Event D)) (w : Watcher T)
      → (w.path == "") ≡ false
      → Accurate (start parse clean first es w)
  unfolding start
  start-Accurate first es w h =
      rw h (turns-Accurate es false (reload parse first w) (reload-Accurate first w))

  abbrev pub NoValue : T → Read D → Type 0
  NoValue v (contents d) = is_valid (parse v d) ≡ false
  NoValue v (unreadable e) = Unit

  -- If the event is a reload, it fails after a last valid value `v`.
  abbrev pub Fails : T → Event D → Type 0
  Fails v (touched name) = Unit
  Fails v (watch_error e) = Unit
  Fails v (fired a) = NoValue v a.read

  settle-Same :
      (p : Parsed T) (now : ℕ) (w : Watcher T) → is_valid p ≡ false → Same w (settle parse p now w)
  unfolding record_failure
  settle-Same (parsed v) now w h = ground arith
  settle-Same (rejected reason diagnostic) now w h = (refl, (refl, refl))

  reload-Same : (a : Attempt D) (w : Watcher T) → NoValue w.value a.read → Same w (reload parse a w)
  unfolding reload record_failure
  reload-Same a w h = go a.read h
    where
      go :
          (r : Read D)
          → NoValue w.value r
          → Same w (reload parse (record { read = r; now = a.now }) w)
      go (contents d) h = settle-Same (parse w.value d) a.now w h
      go (unreadable e) h = (refl, (refl, refl))

  -- Whatever touches and errors of the watch come, and reloads that cannot read the file or whose
  -- parse rejects it: the last valid value, its time and whether there is one stay as they were.
  pub turns-Same :
      (es : List (Event D)) (armed : Bool) (w : Watcher T)
      → All (Fails w.value) es
      → Same w (turns parse clean es (armed, w)).1
  unfolding turns
  turns-Same [] armed w h = (refl, (refl, refl))
  turns-Same (touched name ∷ es) armed w h = turns-Same es _ w h.1
  turns-Same (watch_error e ∷ es) armed w h = turns-Same es armed w h.1
  turns-Same (fired a ∷ es) true w h =
      let once = reload-Same a w h.0 in
      let later =
        turns-Same es false (reload parse a w) (subst (λ v. All (Fails v) es) (sym once.0) h.1) in
      (later.0 ∙ once.0, (later.1.0 ∙ once.1.0, later.1.1 ∙ once.1.1))
  turns-Same (fired a ∷ es) false w h = turns-Same es false w h.1
