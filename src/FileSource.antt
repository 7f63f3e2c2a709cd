-- ===== src/FileSource.antt =====
-- internal/filesource/filesource.go and watcher.go: one watched file and its last valid parse. Reading
-- the file and the clock are values, one reload an `Attempt`; `parse` is the seam to the sources. The
-- watch of the directory is a sequence of events. A subscriber is its buffered channel, full or not.
pub mod Runs
use xform.Base.{
  ℕ, String, Bool, true, false, ◌&&◌, ◌||◌, not, List, [], ◌∷◌, ◌++◌, map, Option, none, some, ◌==◌,
  string_eq, if◌then◌else◌, ◌≡◌, refl, arith,
}
use Prim.Native.String.{◌++◌ as concat}
use xform.Base.Assoc.{lookup}

abbrev pub Reason : Type 0
Reason = String

abbrev pub read_failed : Reason
read_failed = "read_failed"

pub record SourceError : Type 0 where
  pub reason : Reason
  pub message : String

pub record Message : Type 0 where
  pub fresh : String
  pub stale : String

abbrev pub Messages : Type 0
Messages = List (Reason × Message)

abbrev text_of : Bool → Option Message → String
text_of stale none = ""
text_of true (some m) = m.stale
text_of false (some m) = m.fresh

-- Messages.message
unfoldable pub message : Messages → Reason → Bool → String
unfolding lookup
message m reason stale = text_of stale (lookup reason m)

-- What Parse returns: the value, or the reason and the text of the error.
pub data Parsed {ℓ} (T : Type ℓ) : Type ℓ where
  parsed : T → Parsed T
  rejected : Reason → String → Parsed T

pub data Read {ℓ} (D : Type ℓ) : Type ℓ where
  contents : D → Read D
  unreadable : String → Read D

pub record Attempt {ℓ} (D : Type ℓ) : Type ℓ where
  pub read : Read D
  pub now : ℕ

pub record Watcher (T : Type 0) : Type 0 where
  pub path : String
  pub messages : Messages
  pub value : T
  pub loaded_at : ℕ
  pub loaded : Bool
  pub stale : Bool
  pub source_err : Option SourceError
  pub last_err : String
  pub subscribers : List Bool

pub record Snapshot (T : Type 0) : Type 0 where
  pub value : T
  pub loaded_at : ℕ
  pub stale : Bool
  pub error : Option SourceError
  pub configured : Bool
  pub available : Bool

-- The channels after a send to each that does not wait.
abbrev pub notify : List Bool → List Bool
notify = map (λ full. true)

module _ {T : Type 0} where
  -- New, with the zero value
  abbrev pub new_watcher : T → String → Messages → Watcher T
  new_watcher zero_value path messages = record {
    path = path;
    messages = messages;
    value = zero_value;
    loaded_at = 0;
    loaded = false;
    stale = false;
    source_err = none;
    last_err = "";
    subscribers = [];
  }

  -- recordFailure
  unfoldable pub record_failure : Reason → String → Watcher T → Watcher T
  unfolding message
  record_failure reason diagnostic w = record w {
    stale = w.loaded;
    source_err = some (record { reason = reason; message = message w.messages reason w.loaded });
    last_err = concat reason (concat ": " diagnostic);
  }

  -- The end of reload, after a parse that succeeded.
  unfoldable pub publish : T → ℕ → Watcher T → Watcher T
  publish v now w = record w {
    value = v;
    loaded_at = now;
    loaded = true;
    stale = false;
    source_err = none;
    last_err = "";
    subscribers = notify w.subscribers;
  }

  -- Snapshot
  abbrev pub snapshot : Watcher T → Snapshot T
  snapshot w = record {
    value = w.value;
    loaded_at = w.loaded_at;
    stale = w.stale;
    error = w.source_err;
    configured = not (w.path == "");
    available = w.loaded;
  }

  -- Changes
  abbrev pub subscribe : Watcher T → Watcher T
  subscribe w = record w { subscribers = w.subscribers ++ (false ∷ []) }

  module _ {D : Type 0} (parse : T → D → Parsed T) where
    abbrev pub settle : Parsed T → ℕ → Watcher T → Watcher T
    settle (parsed v) now w = publish v now w
    settle (rejected reason diagnostic) now w = record_failure reason diagnostic w

    -- reload
    unfoldable pub reload : Attempt D → Watcher T → Watcher T
    unfolding record_failure publish
    reload attempt w = elim attempt.read [
      | unreadable diagnostic ↦ record_failure read_failed diagnostic w
      | contents document ↦ settle (parse w.value document) attempt.now w
    ]

-- What the loop of Start receives: an event of the directory, on a file of that name; an error of the
-- watch; a tick of the timer, with what the reload then finds. `clean` is filepath.Clean.
pub data Event (D : Type 0) : Type 0 where
  touched : String → Event D
  watch_error : String → Event D
  fired : Attempt D → Event D

module _ {T D : Type 0} (parse : T → D → Parsed T) (clean : String → String) where
  -- One turn of the loop. The timer is armed or not; a tick without it is none.
  unfoldable pub turn : Event D → Bool × Watcher T → Bool × Watcher T
  unfolding reload
  turn (touched name) (armed, w) = ((clean name == clean w.path) || armed, w)
  turn (watch_error e) (armed, w) = (armed, w)
  turn (fired attempt) (armed, w) = if armed then (false, reload parse attempt w) else (false, w)

  unfoldable pub turns : List (Event D) → Bool × Watcher T → Bool × Watcher T
  unfolding turn
  turns [] st = st
  turns (e ∷ es) st = turns es (turn e st)

  -- Start, with the reload before the loop
  unfoldable pub start : Attempt D → List (Event D) → Watcher T → Watcher T
  unfolding turns reload
  start first events w = if w.path == "" then w else (turns events (false, reload parse first w)).1
