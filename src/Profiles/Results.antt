-- ===== src/Profiles/Results.antt =====
-- internal/profiles/profiles.go: what an evaluation takes and gives. A time is a number, zero the zero
-- time.
use xform.Base.{
  ℕ, String, Bool, not, ◌&&◌, ◌||◌, List, [], ◌∷◌, ◌++◌, Option, none, some, ◌==◌, nat_eq,
  string_eq, if◌then◌else◌, ltb,
}
use xform.FileSource.{SourceError, Snapshot}
use xform.XrayConfig.{Inbound, InboundUser}
use xform.XrayConfig as Xray
use xform.Advertisements.{Advertisement}
use xform.Advertisements as Advertised
use xform.Profiles.Values.{Profile}

pub data State : Type 0 where
  ready disabled_user no_matching_inbound source_unavailable : State

pub data Reason : Type 0 where
  source_unavailable advertisement_missing advertisement_invalid duplicate_inbound_tag : Reason
  duplicate_user inbound_tag_missing reverse_user unsupported_transport : Reason
  unsupported_security unsupported_encryption insecure_connection inbound_mismatch : Reason
  invalid_client_id : Reason

pub data Source : Type 0 where
  xray_config advertisements : Source

-- profiles.SourceError
pub record Failure : Type 0 where
  pub source : Source
  pub error : SourceError

pub record Sources : Type 0 where
  pub xray_view : Xray.View
  pub xray_available : Bool
  pub xray_loaded_at : ℕ
  pub xray_stale : Bool
  pub xray_error : Option SourceError
  pub advertisements_view : Advertised.View
  pub advertisements_configured : Bool
  pub advertisements_available : Bool
  pub advertisements_loaded_at : ℕ
  pub advertisements_stale : Bool
  pub advertisements_error : Option SourceError

-- SourcesFromSnapshots; the value of the xray source is its view here
unfoldable pub sources_from_snapshots : Snapshot Xray.View → Snapshot Advertised.View → Sources
sources_from_snapshots xray advertised = record {
  xray_view = xray.value;
  xray_available = xray.available;
  xray_loaded_at = xray.loaded_at;
  xray_stale = xray.stale;
  xray_error = xray.error;
  advertisements_view = advertised.value;
  advertisements_configured = advertised.configured;
  advertisements_available = advertised.available;
  advertisements_loaded_at = advertised.loaded_at;
  advertisements_stale = advertised.stale;
  advertisements_error = advertised.error;
}

pub record Unavailable : Type 0 where
  pub inbound_tag : Option String
  pub name : Option String
  pub reason : Reason
  pub message : String

pub data Item : Type 0 where
  available : Profile → Item
  unavailable : Unavailable → Item

pub record Collection : Type 0 where
  pub state : State
  pub loaded_at : Option ℕ
  pub stale : Bool
  pub errors : List Failure
  pub items : List Item

abbrev failures : Source → Option SourceError → List Failure
failures source none = []
failures source (some e) = record { source = source; error = e } ∷ []

abbrev earlier : ℕ → Bool → ℕ → ℕ
earlier xray loaded advertised =
    if loaded && not (advertised == 0) && ltb advertised xray then advertised else xray

-- sourceState, in the given state and with no items
unfoldable pub source_state : Sources → State → Collection
source_state s state = record {
  state = state;
  loaded_at =
      if s.xray_available && not (s.xray_loaded_at == 0)
      then some (earlier s.xray_loaded_at s.advertisements_available s.advertisements_loaded_at)
      else none;
  stale = s.xray_stale || s.advertisements_stale;
  errors = failures xray_config s.xray_error ++ failures advertisements s.advertisements_error;
  items = [];
}
