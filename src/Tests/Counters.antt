-- ===== src/Tests/Counters.antt =====
-- Runs of the counters' tracker and of the config parse.
use xform.Base.{String, true, List, [], ◌∷◌, some, ◌≡◌, arith, string_eq}
use xform.Base.Lists.{contains}
use xform.Base.Assoc.{lookup}
use xform.Reconcile.{new_tracker}
use xform.Reconcile.Totals.{run, run-total, epoch_peaks}
use xform.XrayConfig.RosterParse.{ClientConfig, InboundConfig, build_roster_parse}
use xform.XrayConfig.RosterParse.Clients.{
  lookup-build_roster_parse, client_of, vless_entries, distinct_tags,
}
use xform.Tests.{letters}

run-total_example : (run (new_tracker true) ((5, 0) ∷ (9, 4) ∷ (3, 4) ∷ [])).total ≡ 12
unfolding epoch_peaks
run-total_example = run-total true 5 0 ((9, 4) ∷ (3, 4) ∷ []) (omega arith)

abbrev entry : String → String → ClientConfig
entry email id = record { email = email; id = id; flow = "" }

abbrev inbound : String → List ClientConfig → InboundConfig
inbound tag clients = record {
  tag = tag;
  protocol = "vless";
  clients = clients;
  network = "tcp";
  security = "";
}

lookup-build_roster_parse_example :
    lookup "alice"
      (build_roster_parse letters (
        inbound "in1" (entry "alice" "1" ∷ [])
        ∷ inbound "in2" (entry "bob" "2" ∷ entry "alice" "3" ∷ [])
        ∷ [])).clients
    ≡ some (record { client_id = "1"; inbounds = "in1" ∷ "in2" ∷ [] })
unfolding client_of vless_entries distinct_tags contains
lookup-build_roster_parse_example = lookup-build_roster_parse letters "alice" (
    inbound "in1" (entry "alice" "1" ∷ [])
    ∷ inbound "in2" (entry "bob" "2" ∷ entry "alice" "3" ∷ [])
    ∷ [])
