-- ===== src/XrayConfig/RosterParse/Clients.antt =====
-- What one parse says of an email: the Client ID of its first VLESS entry, the tags of all of them.
use xform.Base.{
  String, ◌&&◌, ◌||◌, not, List, [], ◌∷◌, ◌++◌, Option, none, some, ◌==◌, string_eq, if◌then◌else◌,
  ◌≡◌, refl, arith, ◌∙◌, eq_iff,
}
use xform.Base.Lists.{contains}
use xform.Base.Assoc.{lookup, lookup-insert}
use xform.Base.Text.{CaseTables, to_upper}
use xform.XrayConfig.RosterParse.{
  ClientConfig, InboundConfig, Client, RosterParse, collected, add_tag, collect_client,
  collect_clients, collect_inbounds, build_roster_parse,
}

-- An entry of one email in a VLESS inbound: the tag of the inbound, the id of the entry.
abbrev pub Entry : Type 0
Entry = String × String

entries_in : String → String → List ClientConfig → List Entry
entries_in email tag [] = []
entries_in email tag (c ∷ cs) =
    let rest = entries_in email tag cs in
    if c.email == email && not (c.email == "") then (tag, c.id) ∷ rest else rest

-- Every entry of one email in the VLESS inbounds of a config, in config order.
unfoldable pub vless_entries : CaseTables → String → List InboundConfig → List Entry
unfolding entries_in
vless_entries u email [] = []
vless_entries u email (i ∷ rest) =
    (if not (i.protocol == "") && to_upper u i.protocol == "VLESS"
      then entries_in email i.tag i.clients
      else [])
    ++ vless_entries u email rest

-- The tags in order, without empty ones and repetitions.
unfoldable pub distinct_tags : List String → List Entry → List String
distinct_tags acc [] = acc
distinct_tags acc ((tag, id) ∷ rest) =
    distinct_tags (if tag == "" || contains acc tag then acc else acc ++ tag ∷ []) rest

unfoldable pub client_of : List Entry → Option Client
client_of [] = none
client_of ((tag, id) ∷ rest) =
    some (record { client_id = id; inbounds = distinct_tags [] ((tag, id) ∷ rest) })

-- One entry after another onto what is collected so far.
absorb : Option Client → List Entry → Option Client
absorb o [] = o
absorb o ((tag, id) ∷ rest) = absorb (some (add_tag tag (collected o id))) rest

absorb-append :
    (o : Option Client) (xs ys : List Entry) → absorb o (xs ++ ys) ≡ absorb (absorb o xs) ys
unfolding absorb
absorb-append o [] ys = refl
absorb-append o ((tag, id) ∷ xs) ys = absorb-append (some (add_tag tag (collected o id))) xs ys

absorb-some :
    (c : Client) (es : List Entry)
    → absorb (some c) es ≡ some (record c { inbounds = distinct_tags c.inbounds es })
unfolding absorb distinct_tags add_tag collected
absorb-some c [] = refl
absorb-some c ((tag, id) ∷ rest) = ground (arith, absorb-some (add_tag tag c) rest)

absorb-none : (es : List Entry) → absorb none es ≡ client_of es
unfolding absorb client_of distinct_tags add_tag collected contains
absorb-none [] = refl
absorb-none ((tag, id) ∷ rest) = ground (arith, absorb-some (add_tag tag (collected none id)) rest)

module _ (u : CaseTables) (email : String) where
  clients-collect_client :
      (i : InboundConfig) (c : ClientConfig) (acc : RosterParse)
      → lookup email (collect_client u i c acc).clients ≡ (
          let old = lookup email acc.clients in
          if to_upper u i.protocol == "VLESS" && (c.email == email && not (c.email == ""))
          then some (add_tag i.tag (collected old c.id))
          else old)
  unfolding collect_client
  clients-collect_client i c acc = ground (
    arith,
    eq_iff c.email email,
    lookup-insert c.email email (add_tag i.tag (collected (lookup c.email acc.clients) c.id))
        acc.clients,
  )

  clients-collect_clients :
      (i : InboundConfig) (cs : List ClientConfig) (acc : RosterParse)
      → lookup email (collect_clients u i cs acc).clients
        ≡ absorb
            (lookup email acc.clients)
            (if to_upper u i.protocol == "VLESS" then entries_in email i.tag cs else [])
  unfolding collect_clients entries_in absorb
  clients-collect_clients i [] acc = ground arith
  clients-collect_clients i (c ∷ cs) acc = ground (
    arith,
    clients-collect_client i c acc,
    clients-collect_clients i cs (collect_client u i c acc),
  )

  clients-collect_inbounds :
      (cfg : List InboundConfig) (acc : RosterParse)
      → lookup email (collect_inbounds u cfg acc).clients
        ≡ absorb (lookup email acc.clients) (vless_entries u email cfg)
  unfolding collect_inbounds vless_entries absorb
  clients-collect_inbounds [] acc = refl
  clients-collect_inbounds (i ∷ rest) acc =
      let old = lookup email acc.clients in
      ground (
        arith,
        clients-collect_clients i i.clients acc,
        clients-collect_inbounds rest acc,
        clients-collect_inbounds rest (collect_clients u i i.clients acc),
        absorb-append old (entries_in email i.tag i.clients) (vless_entries u email rest),
      )

  -- The client that a parse hands over for an email has the Client ID of the email's first entry in
  -- a VLESS inbound, and the tags of all its entries in config order, each once and none empty; an
  -- email with no such entry has none.
  pub lookup-build_roster_parse :
      (cfg : List InboundConfig)
      → lookup email (build_roster_parse u cfg).clients ≡ client_of (vless_entries u email cfg)
  unfolding build_roster_parse lookup
  lookup-build_roster_parse cfg =
      clients-collect_inbounds cfg _ ∙ absorb-none (vless_entries u email cfg)
