-- ===== src/XrayConfig/Render/Document.antt =====
-- internal/xrayconfig/render.go: RenderClients: the edits of every managed inbound, and their
-- application from the last to the first. On so much fuel, that of the scan.
use xform.Base.{
  ℕ, String, Bool, true, false, not, ◌||◌, List, [], ◌∷◌, ◌++◌, Option, none, some, nat_eq,
  string_eq, if◌then◌else◌, ltb, leb,
}
use xform.Base.Lists.{length, is_empty, contains, keep, take, drop}
use xform.Base.Assoc.{lookup}
use xform.Base.Text.{CaseTables, equal_fold}
use xform.XrayConfig.Jsonc.{
  Node, Props, Nodes, object, array, text, no_nodes, item, get, get_prop, out_of_fuel, failed,
  parsed,
}
use xform.XrayConfig.Jsonc.Parser.{parse_jsonc}
use xform.XrayConfig.Render.{
  ClientOp, RenderPlan, is_idle, TextEdit, nth_item, Refusal, scan_failed, no_inbounds, not_vless,
  no_settings, clients_no_array, out_of_range, Plan, refused, planned, ◌>>=◌, in_range,
  plan_entry_removal, by_email_of, by_email_from, drop_emails, emails_of,
}
use xform.XrayConfig.Render.Edits.{plan_id_set, plan_clients_insert}

-- What RenderClients returns: the document as it is, or another, or an error.
pub data Rendering : Type 0 where
  unfinished : Rendering
  failed_by : Refusal → Rendering
  unchanged : Rendering
  changed : List ℕ → Rendering

abbrev value_of : Node → String
value_of (text start end value) = value
value_of _ = ""

-- The protocol, if there is one, is VLESS.
abbrev pub is_vless : CaseTables → Option Node → Bool
is_vless fold none = false
is_vless fold (some protocol) = equal_fold fold (value_of protocol) "vless"

abbrev is_some {ℓ} : {A : Type ℓ} → Option A → Bool
is_some none = false
is_some (some a) = true

-- The plan has an entry for the tag.
unfoldable pub is_managed : RenderPlan → String → Bool
unfolding lookup
is_managed plan tag =
    is_some (lookup tag plan.adds)
    || (is_some (lookup tag plan.removes) || is_some (lookup tag plan.sets))

abbrev pub to_list {ℓ} : {A : Type ℓ} → Option A → List A
to_list none = []
to_list (some a) = a ∷ []

abbrev pub or_empty {ℓ} : {A : Type ℓ} → Option (List A) → List A
or_empty none = []
or_empty (some list) = list

-- The loop over the removals of one inbound.
unfoldable pub removal_edits :
    Nodes → List ℕ → List (String × ℕ) → List String → Plan (List TextEdit)
unfolding plan_entry_removal lookup
removal_edits items commas by_email [] = planned []
removal_edits items commas by_email (email ∷ emails) = do
  rest ← removal_edits items commas by_email emails
  elim (lookup email by_email) [
    | none ↦ planned rest
    | some index ↦ plan_entry_removal items commas index >>= λ edit. planned (edit ∷ rest)
  ]

module _ (marshal : String → List ℕ) where
  -- The loop over the rewrites of one inbound: what is to be appended, and the edits in place.
  unfoldable pub set_edits :
      Nodes → List (String × ℕ) → List ClientOp → Plan (List ClientOp × List TextEdit)
  unfolding plan_id_set lookup
  set_edits items by_email [] = planned ([], [])
  set_edits items by_email (op ∷ ops) = do
    rest ← set_edits items by_email ops
    elim (lookup op.email by_email) [
      | none ↦ planned (op ∷ rest.0, rest.1)
      | some index ↦ in_range (nth_item index items) >>= λ entry.
          planned (rest.0, to_list (plan_id_set marshal entry op.id) ++ rest.1)
    ]

  -- RenderClients on the settings of one inbound, an object of the span `start` to `end`
  unfoldable pub settings_edits :
      List ℕ → List ClientOp → List String → List ClientOp → ℕ → ℕ → Props → Plan (List TextEdit)
  unfolding keep contains by_email_from plan_clients_insert removal_edits set_edits
  settings_edits document adds removes sets start end props = elim (get_prop "clients" props) [
    | none ↦
        let ops = adds ++ sets in
        plan_clients_insert marshal document start end props
          (if is_empty removes then ops else drop_emails ops removes)
        >>= λ edit. planned (to_list edit)
    | some (array at close items commas trailing) ↦ do
      let by_email = by_email_of items
      removals ← removal_edits items commas by_email removes
      placed ← set_edits items by_email sets
      let ops = adds ++ placed.0
      inserted ←
          (if is_empty ops
            then planned none
            else plan_clients_insert marshal document start end props
                (drop_emails ops (emails_of by_email)))
      planned (removals ++ placed.1 ++ to_list inserted)
    | some _ ↦ refused clients_no_array
  ]

  module _ (fold : CaseTables) where
    -- The body of the loop over the inbounds, once its tag is known to be managed.
    unfoldable pub managed_edits :
        List ℕ → List ClientOp → List String → List ClientOp → String → Node → Plan (List TextEdit)
    unfolding settings_edits
    managed_edits document adds removes sets tag inbound =
        if not (is_vless fold (get "protocol" inbound))
        then refused (not_vless tag)
        else elim (get "settings" inbound) [
          | some (object start end props trailing) ↦
              settings_edits document adds removes sets start end props
          | _ ↦ refused (no_settings tag)
        ]

    -- The body of the loop over the inbounds, on the value of `tag`.
    unfoldable pub tagged_edits : List ℕ → RenderPlan → Node → Option Node → Plan (List TextEdit)
    unfolding managed_edits is_managed
    tagged_edits document plan inbound (some (text start end tag)) = elim (is_managed plan tag) [
      | false ↦ planned []
      | true ↦
          managed_edits document (or_empty (lookup tag plan.adds))
            (or_empty (lookup tag plan.removes)) (or_empty (lookup tag plan.sets)) tag inbound
    ]
    tagged_edits document plan inbound _ = planned []

    unfoldable pub inbounds_edits : List ℕ → RenderPlan → Nodes → Plan (List TextEdit)
    unfolding tagged_edits
    inbounds_edits document plan no_nodes = planned []
    inbounds_edits document plan (item n ns) = do
      edits ← tagged_edits document plan n (get "tag" n)
      rest ← inbounds_edits document plan ns
      planned (edits ++ rest)

-- slices.SortFunc, from the last offset to the first; equal offsets keep their order here.
unfoldable pub insert_edit : TextEdit → List TextEdit → List TextEdit
insert_edit e [] = e ∷ []
insert_edit e (f ∷ fs) =
    let rest = insert_edit e fs in if ltb e.at f.at then f ∷ rest else e ∷ f ∷ fs

unfoldable pub sort_edits : List TextEdit → List TextEdit
unfolding insert_edit
sort_edits [] = []
sort_edits (e ∷ es) = insert_edit e (sort_edits es)

-- rendered[:at] + text + rendered[end:]; past the end the program panics
unfoldable pub splice : TextEdit → List ℕ → Plan (List ℕ)
splice e document =
    if leb e.end (length document)
    then planned (take e.at document ++ e.text ++ drop e.end document)
    else refused out_of_range

unfoldable pub splice_all : List TextEdit → List ℕ → Plan (List ℕ)
unfolding splice
splice_all [] document = planned document
splice_all (e ∷ es) document = splice e document >>= splice_all es

abbrev pub of_edits : List ℕ → List TextEdit → Plan Rendering
of_edits document [] = planned unchanged
of_edits document (e ∷ es) =
    splice_all (sort_edits (e ∷ es)) document >>= λ rendered. planned (changed rendered)

abbrev pub rendering_of : Plan Rendering → Rendering
rendering_of (refused e) = failed_by e
rendering_of (planned r) = r

module _ (marshal : String → List ℕ) (unmarshal : List ℕ → Option String) (fold : CaseTables) where
  abbrev pub render_root : List ℕ → RenderPlan → Option Node → Rendering
  render_root document plan (some (array start end inbounds commas trailing)) =
      rendering_of (inbounds_edits marshal fold document plan inbounds >>= of_edits document)
  render_root document plan _ = failed_by no_inbounds

  -- RenderClients
  unfoldable pub render_clients : ℕ → List ℕ → RenderPlan → Rendering
  unfolding parse_jsonc inbounds_edits sort_edits splice_all
  render_clients fuel document plan = elim (is_idle plan) [
    | true ↦ unchanged
    | false ↦ elim (parse_jsonc unmarshal fuel document) [
      | out_of_fuel ↦ unfinished
      | failed e ↦ failed_by (scan_failed e)
      | parsed root c ↦ render_root document plan (get "inbounds" root)
    ]
  ]
