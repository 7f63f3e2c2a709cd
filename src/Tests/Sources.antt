-- ===== src/Tests/Sources.antt =====
-- A watched file and a cache at concrete events: the witnesses of their theorems.
use xform.Base.{ℕ, String, true, false, List, [], ◌∷◌, ◌≡◌, ◌==◌, string_eq, refl, if◌then◌else◌}
use xform.FileSource.{
  Watcher, Event, touched, fired, watch_error, contents, unreadable, Parsed, parsed, rejected,
  new_watcher, start, turns,
}
use xform.SnapshotCache.{
  Call, tick, ask, collected, failed, new_cache, serve, promised, view, serve-promised,
}
use xform.FileSource.Runs.{Accurate, start-Accurate, Same, turns-Same}

-- A file that holds one text; an empty one is rejected.
abbrev parse_text : String → String → Parsed String
parse_text before document = if document == "" then rejected "empty" "no text" else parsed document

abbrev watcher : Watcher String
watcher =
    new_watcher "" "/etc/a"
      (("empty", record { fresh = "nothing yet"; stale = "kept the last text" }) ∷ [])

abbrev events : List (Event String)
events =
    touched "/etc/b"
    ∷ fired (record { read = contents "lost"; now = 2 })
    ∷ touched "/etc/a"
    ∷ fired (record { read = contents ""; now = 3 })
    ∷ []

start-Accurate_example :
    Accurate (start parse_text (λ p. p) (record { read = contents "one"; now = 1 }) events watcher)
start-Accurate_example =
    start-Accurate parse_text (λ p. p) (record { read = contents "one"; now = 1 }) events watcher
      refl

-- A reload that reads an empty file and one that cannot read it.
abbrev failures : List (Event String)
failures =
    touched "/etc/a"
    ∷ fired (record { read = contents ""; now = 3 })
    ∷ watch_error "overflow"
    ∷ touched "/etc/a"
    ∷ fired (record { read = unreadable "gone"; now = 4 })
    ∷ []

abbrev holding : Watcher String
holding = record watcher { value = "one"; loaded = true; loaded_at = 1 }

turns-Same_example : Same holding (turns parse_text (λ p. p) failures (false, holding)).1
turns-Same_example =
    turns-Same parse_text (λ p. p) failures false holding (tt, (refl, (tt, (tt, (tt, tt)))))

abbrev calls : List (Call ℕ)
calls = ask (failed "early") ∷ tick (collected 5) ∷ tick (failed "late") ∷ ask (collected 6) ∷ []

serve-promised_example :
    ((serve calls (new_cache 0)).0 ≡ (promised calls (view (new_cache 0))).0)
    × (view (serve calls (new_cache 0)).1 ≡ (promised calls (view (new_cache 0))).1)
serve-promised_example = serve-promised calls (new_cache 0)

served : (serve calls (new_cache 0)).0 ≡ failed "early" ∷ collected 5 ∷ []
unfolding serve
served = refl
