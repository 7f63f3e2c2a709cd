-- ===== src/XrayConfig/Render/Settled.antt =====
-- internal/xrayconfig/render.go: a plan that the document already satisfies.
use xform.Base.{
  ℕ, String, Bool, true, false, List, [], ◌∷◌, Option, none, some, nat_eq, string_eq, eq_refl, ◌≡◌,
  refl, arith, ◌⊎◌, inl, inr, Bool-cases,
}
use xform.Base.Lists.{append-nil, keep, contains, All}
use xform.Base.Assoc.{lookup}
use xform.Base.Text.{CaseTables}
use xform.XrayConfig.Jsonc.{
  Node, Props, Nodes, object, array, text, literal, no_nodes, item, get, get_prop, Cursor, parsed,
}
use xform.XrayConfig.Jsonc.Parser.{parse_jsonc}
use xform.XrayConfig.Render.{
  ClientOp, RenderPlan, nth_item, planned, by_email_of, drop_emails, emails_of,
}
use xform.XrayConfig.Render.Edits.{plan_id_set, plan_clients_insert}
use xform.XrayConfig.Render.Document.{
  removal_edits, set_edits, settings_edits, managed_edits, tagged_edits, inbounds_edits,
  render_clients, unchanged, is_vless, is_managed, or_empty,
}

-- An entry of the array has the operation's email and ID.
pub record HasId (items : Nodes) (op : ClientOp) : Type 0 where
  pub index : ℕ
  pub entry : Node
  pub at : ℕ
  pub end : ℕ
  pub known : lookup op.email (by_email_of items) ≡ some index
  pub here : nth_item index items ≡ some entry
  pub same : get "id" entry ≡ some (text at end op.id)

abbrev pub HasEmail : Nodes → ClientOp → Type 0
HasEmail items op = contains (emails_of (by_email_of items)) op.email ≡ true

abbrev pub Gone : Nodes → String → Type 0
Gone items email = lookup email (by_email_of items) ≡ none

removal_edits-Gone :
    (items : Nodes) (commas : List ℕ) (emails : List String)
    → All (Gone items) emails
    → removal_edits items commas (by_email_of items) emails ≡ planned []
unfolding removal_edits
removal_edits-Gone items commas [] h = refl
removal_edits-Gone items commas (email ∷ emails) h =
    rw (removal_edits-Gone items commas emails h.1, h.0) refl

module _ (marshal : String → List ℕ) where
  set_edits-HasId :
      (items : Nodes) (ops : List ClientOp)
      → All (HasId items) ops
      → set_edits marshal items (by_email_of items) ops ≡ planned ([], [])
  unfolding set_edits plan_id_set
  set_edits-HasId items [] h = refl
  set_edits-HasId items (op ∷ ops) h =
      rw (set_edits-HasId items ops h.1, h.0.known, h.0.here, plan_id_set, h.0.same, eq_refl op.id)
        refl

  drop_emails-HasEmail :
      (items : Nodes) (ops : List ClientOp)
      → All (HasEmail items) ops
      → drop_emails ops (emails_of (by_email_of items)) ≡ []
  unfolding keep
  drop_emails-HasEmail items [] h = refl
  drop_emails-HasEmail items (op ∷ ops) h = rw (drop_emails-HasEmail items ops h.1, h.0) refl

  module _ (document : List ℕ) (start end : ℕ) (props : Props) where
    nothing_to_add :
        (at close : ℕ) (items : Nodes) (commas : List ℕ) (trailing : Bool)
        → get_prop "clients" props ≡ some (array at close items commas trailing)
        → plan_clients_insert marshal document start end props [] ≡ planned none
    unfolding plan_clients_insert
    nothing_to_add at close items commas trailing h = rw (plan_clients_insert, h) refl

    settings_edits_settled :
        (adds : List ClientOp) (removes : List String) (sets : List ClientOp) (at close : ℕ)
        (items : Nodes) (commas : List ℕ) (trailing : Bool)
        → get_prop "clients" props ≡ some (array at close items commas trailing)
        → All (HasEmail items) adds
        → All (Gone items) removes
        → All (HasId items) sets
        → settings_edits marshal document adds removes sets start end props ≡ planned []
    unfolding settings_edits
    settings_edits_settled adds removes sets at close items commas trailing h ha hr hs =
        rw
          (
            settings_edits,
            h,
            removal_edits-Gone items commas removes hr,
            set_edits-HasId items sets hs,
            append-nil adds,
            drop_emails-HasEmail items adds ha,
            nothing_to_add at close items commas trailing h,
          )
          (ground arith)

-- A managed inbound whose clients array has every entry that the plan adds, none that it removes, and
-- the ID of every rewrite.
pub record Settled (fold : CaseTables) (plan : RenderPlan) (inbound : Node) : Type 0 where
  pub tag_at : ℕ
  pub tag_end : ℕ
  pub tag : String
  pub tagged : get "tag" inbound ≡ some (text tag_at tag_end tag)
  pub vless : is_vless fold (get "protocol" inbound) ≡ true
  pub start : ℕ
  pub end : ℕ
  pub props : Props
  pub comma : Bool
  pub settings : get "settings" inbound ≡ some (object start end props comma)
  pub at : ℕ
  pub close : ℕ
  pub items : Nodes
  pub commas : List ℕ
  pub trailing : Bool
  pub clients : get_prop "clients" props ≡ some (array at close items commas trailing)
  pub added : All (HasEmail items) (or_empty (lookup tag plan.adds))
  pub removed : All (Gone items) (or_empty (lookup tag plan.removes))
  pub rewritten : All (HasId items) (or_empty (lookup tag plan.sets))

-- A value of `tag` for which the plan has an entry.
abbrev pub has_entry : RenderPlan → Option Node → Bool
has_entry plan (some (text start end tag)) = is_managed plan tag
has_entry plan _ = false

-- Every inbound is settled or is none of the plan's.
abbrev pub AllSettled : CaseTables → RenderPlan → Nodes → Type 0
AllSettled fold plan no_nodes = Unit
AllSettled fold plan (item n ns) =
    (Settled fold plan n ⊎ (has_entry plan (get "tag" n) ≡ false)) × AllSettled fold plan ns

module _ (marshal : String → List ℕ) (fold : CaseTables) (document : List ℕ)
    (plan : RenderPlan) where
  tagged_edits-Settled :
      (n : Node)
      → Settled fold plan n
      → tagged_edits marshal fold document plan n (get "tag" n) ≡ planned []
  unfolding tagged_edits
  tagged_edits-Settled n h =
      let quiet =
        settings_edits_settled marshal document h.start h.end h.props
          (or_empty (lookup h.tag plan.adds)) (or_empty (lookup h.tag plan.removes))
          (or_empty (lookup h.tag plan.sets)) h.at h.close h.items h.commas h.trailing h.clients
          h.added h.removed h.rewritten in
      rw h.tagged (elim (Bool-cases (is_managed plan h.tag)) [
        | inl ours ↦ rw (tagged_edits, ours, managed_edits, h.vless, h.settings, quiet) refl
        | inr other ↦ rw (tagged_edits, other) refl
      ])

  tagged_edits_other :
      (n : Node) (t : Option Node)
      → has_entry plan t ≡ false
      → tagged_edits marshal fold document plan n t ≡ planned []
  unfolding tagged_edits
  tagged_edits_other n none h = refl
  tagged_edits_other n (some (object start end props trailing)) h = refl
  tagged_edits_other n (some (array start end items commas trailing)) h = refl
  tagged_edits_other n (some (text start end tag)) h =
      let other : is_managed plan tag ≡ false = h in rw (tagged_edits, other) refl
  tagged_edits_other n (some (literal start end)) h = refl

  inbounds_edits-AllSettled :
      (ns : Nodes)
      → AllSettled fold plan ns
      → inbounds_edits marshal fold document plan ns ≡ planned []
  unfolding inbounds_edits
  inbounds_edits-AllSettled no_nodes h = refl
  inbounds_edits-AllSettled (item n ns) (inl settled, h) =
      rw (tagged_edits-Settled n settled, inbounds_edits-AllSettled ns h) refl
  inbounds_edits-AllSettled (item n ns) (inr other, h) =
      rw (tagged_edits_other n (get "tag" n) other, inbounds_edits-AllSettled ns h) refl

-- Where a document scans to a root with an array of inbounds, and each inbound either is one that the
-- plan has no entry for, or has a tag of text, the protocol vless, an object of settings and in it a
-- clients array that has every entry the plan adds, none it removes and the ID of every rewrite, the
-- document is left as it is.
pub render_clients-AllSettled :
    (marshal : String → List ℕ) (unmarshal : List ℕ → Option String) (fold : CaseTables) (fuel : ℕ)
    (document : List ℕ) (plan : RenderPlan) (root : Node) (rest : Cursor) (start end : ℕ)
    (inbounds : Nodes) (commas : List ℕ) (trailing : Bool)
    → parse_jsonc unmarshal fuel document ≡ parsed root rest
    → get "inbounds" root ≡ some (array start end inbounds commas trailing)
    → AllSettled fold plan inbounds
    → render_clients marshal unmarshal fold fuel document plan ≡ unchanged
unfolding render_clients
render_clients-AllSettled marshal unmarshal fold fuel document plan root rest start end inbounds
      commas trailing scanned found h =
    ground (arith, scanned, found, inbounds_edits-AllSettled marshal fold document plan inbounds h)
