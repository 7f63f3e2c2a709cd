-- ===== src/Profiles/Built.antt =====
-- The profile that buildAvailable of internal/profiles/profiles.go makes.
use xform.Base.{String, Option, none, some, string_eq, ◌≡◌, refl, ap, sym, arith}
use xform.Base.Slices.{utf8}
use xform.Hosts.{canonical_host}
use xform.Hosts.Canonical.{IsDocumented, canonical_host_idempotent}
use xform.Advertisements.{Advertisement}
use xform.Profiles.Uri.{Available, Bytes, serialize_uri}
use xform.Profiles.Values.{
  Libraries, Profile, assembled, transformed, verified, available_fields, build_available,
}

some-injective {ℓ} : {A : Type ℓ} {x y : A} → some x ≡ some y → x ≡ y
some-injective h = cc

-- The profile of an advertisement with its hosts and its extra object in canonical form.
pub record IsBuilt (l : Libraries) (email client_id flow : String) (a : Advertisement) (p : Profile)
    : Type 0 where
  pub host : String
  pub extra : Option Bytes
  pub server_name : String
  pub verify_name : String
  pub hosted : canonical_host l.tables l.resolver a.host ≡ some host
  pub extended : transformed l a.transport.extra ≡ some extra
  pub served : canonical_host l.tables l.resolver a.security.server_name ≡ some server_name
  pub checked : verified l a.security.verify_name ≡ some verify_name
  pub tag : p.inbound_tag ≡ a.inbound_tag
  pub topology : p.topology ≡ a.topology
  pub fields : p.fields ≡ available_fields client_id flow a host extra server_name verify_name
  pub uri : p.uri ≡ serialize_uri (utf8 email) p.fields

module _ (l : Libraries) (email client_id flow : String) (a : Advertisement) (p : Profile) where
  assembled-IsBuilt :
      (h : Option String) (e : Option (Option Bytes)) (s v : Option String)
      → canonical_host l.tables l.resolver a.host ≡ h
      → transformed l a.transport.extra ≡ e
      → canonical_host l.tables l.resolver a.security.server_name ≡ s
      → verified l a.security.verify_name ≡ v
      → assembled email client_id flow a h e s v ≡ some p
      → IsBuilt l email client_id flow a p
  assembled-IsBuilt none e s v i j k m b = absurd (ground arith)
  assembled-IsBuilt (some host) none s v i j k m b = absurd (ground arith)
  assembled-IsBuilt (some host) (some e) none v i j k m b = absurd (ground arith)
  assembled-IsBuilt (some host) (some e) (some s) none i j k m b = absurd (ground arith)
  assembled-IsBuilt (some host) (some e) (some s) (some v) i j k m b =
      let same = some-injective b in
      record {
        host = host;
        extra = e;
        server_name = s;
        verify_name = v;
        hosted = i;
        extended = j;
        served = k;
        checked = m;
        tag = ap (λ (q : Profile). q.inbound_tag) (sym same);
        topology = ap (λ (q : Profile). q.topology) (sym same);
        fields = ap (λ (q : Profile). q.fields) (sym same);
        uri = rw (← same) refl;
      }

  pub build_available-IsBuilt :
      build_available l email client_id flow a ≡ some p → IsBuilt l email client_id flow a p
  unfolding build_available
  build_available-IsBuilt = assembled-IsBuilt _ _ _ _ refl refl refl refl

  -- Where netip and idna answer as they document, a profile that is built connects to the canonical
  -- form of the advertised host and names that of the advertised server, and both are canonical forms
  -- of themselves.
  pub build_available-canonical_host :
      IsDocumented l.tables l.resolver
      → build_available l email client_id flow a ≡ some p
      → (host : String) × (server_name : String) × (canonical_host l.tables l.resolver a.host
          ≡ some host)
        × (canonical_host l.tables l.resolver a.security.server_name ≡ some server_name)
        × (canonical_host l.tables l.resolver host ≡ some host)
        × (canonical_host l.tables l.resolver server_name ≡ some server_name)
        × (p.fields.endpoint.host ≡ utf8 host)
        × (p.fields.security.server_name ≡ utf8 server_name)
  unfolding available_fields
  build_available-canonical_host d h =
      let b = build_available-IsBuilt h in
      (
        b.host,
        b.server_name,
        b.hosted,
        b.served,
        canonical_host_idempotent l.tables l.resolver d a.host b.host b.hosted,
        canonical_host_idempotent l.tables l.resolver d a.security.server_name b.server_name
            b.served,
        ap (λ (q : Available). q.endpoint.host) b.fields,
        ap (λ (q : Available). q.security.server_name) b.fields,
      )
