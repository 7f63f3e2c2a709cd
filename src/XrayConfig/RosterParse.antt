-- ===== src/XrayConfig/RosterParse.antt =====
-- internal/xrayconfig/xrayconfig.go, buildRosterParse: the labels and the VLESS clients that one
-- parse of the xray config hands to the roster store. The input is the decoded `config`, of which
-- the fields that this function reads are modelled.
pub mod Clients
use xform.Base.{
  String, Bool, true, ◌&&◌, not, List, [], ◌∷◌, ◌++◌, Option, none, some, ◌==◌, string_eq,
  if◌then◌else◌,
}
use xform.Base.Lists.{contains}
use xform.Base.Assoc.{lookup, insert}
use xform.Base.Text.{CaseTables, to_upper}
use xform.XrayConfig.{Label, label_eq, transport_label, security_label}

pub record ClientConfig : Type 0 where
  pub email : String
  pub id : String
  pub flow : String

pub record InboundConfig : Type 0 where
  pub tag : String
  pub protocol : String
  pub clients : List ClientConfig
  pub network : String
  pub security : String

-- User: the labels of one email
abbrev pub User : Type 0
User = List Label

pub record Client : Type 0 where
  pub client_id : String
  pub inbounds : List String

pub record RosterParse : Type 0 where
  pub labels : List (String × User)
  pub clients : List (String × Client)

abbrev pub or_empty {ℓ} : {A : Type ℓ} → Option (List A) → List A
or_empty none = []
or_empty (some xs) = xs

unfoldable pub label_of : CaseTables → InboundConfig → ClientConfig → Label
label_of u inbound client = record {
  protocol = to_upper u inbound.protocol;
  security = security_label u inbound.security client.flow;
  transport = transport_label u inbound.network;
}

add_label : String → Label → List (String × User) → List (String × User)
add_label email label labels =
    let user = or_empty (lookup email labels) in
    if not (contains user label) then insert email (user ++ label ∷ []) labels else labels

-- `collected, exists := clients[client.Email]`
unfoldable pub collected : Option Client → String → Client
collected none id = record { client_id = id; inbounds = [] }
collected (some c) id = c

unfoldable pub add_tag : String → Client → Client
add_tag tag c =
    if not (tag == "") && not (contains c.inbounds tag)
    then record c { inbounds = c.inbounds ++ tag ∷ [] }
    else c

add_client : String → String → String → List (String × Client) → List (String × Client)
add_client email id tag clients =
    insert email (add_tag tag (collected (lookup email clients) id)) clients

-- The body of the inner loop.
collect_client : CaseTables → InboundConfig → ClientConfig → RosterParse → RosterParse
unfolding add_label add_client
collect_client u inbound client acc =
    if client.email == ""
    then acc
    else (let labels = add_label client.email (label_of u inbound client) acc.labels in
        if not (to_upper u inbound.protocol == "VLESS")
        then record acc { labels = labels }
        else record acc {
          labels = labels;
          clients = add_client client.email client.id inbound.tag acc.clients;
        })

collect_clients : CaseTables → InboundConfig → List ClientConfig → RosterParse → RosterParse
collect_clients u inbound [] acc = acc
collect_clients u inbound (c ∷ cs) acc =
    collect_clients u inbound cs (collect_client u inbound c acc)

collect_inbounds : CaseTables → List InboundConfig → RosterParse → RosterParse
collect_inbounds u [] acc = acc
collect_inbounds u (i ∷ rest) acc =
    collect_inbounds u rest (if i.protocol == "" then acc else collect_clients u i i.clients acc)

unfoldable pub build_roster_parse : CaseTables → List InboundConfig → RosterParse
unfolding collect_inbounds collect_clients collect_client
build_roster_parse u cfg = collect_inbounds u cfg (record { labels = []; clients = [] })
