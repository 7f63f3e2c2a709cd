-- ===== src/XrayConfig/Render/Edits.antt =====
-- internal/xrayconfig/render.go: RenderClients.
use xform.Base.{
  ℕ, ◌+◌, ◌-◌, String, Bool, true, false, List, [], ◌∷◌, ◌++◌, map, Option, none, some, ◌==◌,
  nat_eq, string_eq, if◌then◌else◌,
}
use xform.Base.Lists.{is_empty, contains, keep, take, drop}
use xform.Base.Text.{codes}
use xform.XrayConfig.Jsonc.{
  start_of, end_of, Node, Props, Nodes, object, array, text, no_props, prop, no_nodes, item, get,
  get_prop,
}
use xform.XrayConfig.Render.{
  ClientOp, TextEdit, insertion, last_item, multiline, line_start, line_indent, join,
  clients_no_array, Plan, refused, planned, by_email_of, by_email_from, drop_emails, emails_of,
}

abbrev has_props : Node → Bool
has_props (object start end (prop key at v ps) trailing) = true
has_props (array start end (item n ns) commas trailing) = true
has_props _ = false

-- The last key's offset, and its value.
abbrev last_prop : Props → Option (ℕ × Node)
last_prop no_props = none
last_prop (prop key at v no_props) = some (at, v)
last_prop (prop key at v (prop k a w ps)) = last_prop (prop k a w ps)

-- document[start:end]
abbrev pub slice : ℕ → ℕ → List ℕ → List ℕ
slice start end document = take (end - start) (drop start document)

-- The offset behind the first `b`: bytes.IndexByte + 1, and 0 where there is none.
abbrev behind_first : ℕ → ℕ → List ℕ → ℕ
behind_first i b [] = 0
behind_first i b (c ∷ s) = if c == b then i + 1 else behind_first (i + 1) b s

module _ (marshal : String → List ℕ) where
  abbrev pub flow_field : String → List ℕ
  flow_field flow = if flow == "" then [] else codes ", \"flow\": " ++ marshal flow

  -- One turn of renderEntries.
  abbrev pub render_entry : ClientOp → List ℕ
  render_entry c =
      codes "{\"email\": "
      ++ marshal c.email
      ++ codes ", \"id\": "
      ++ marshal c.id
      ++ flow_field c.flow
      ++ codes "}"

  -- renderEntries
  unfoldable pub render_entries : List ClientOp → List (List ℕ)
  render_entries = map render_entry

  -- renderClientsValue
  abbrev pub render_clients_value : List ℕ → List ClientOp → List ℕ
  render_clients_value key_indent add =
      codes "[\n"
      ++ key_indent
      ++ codes "  "
      ++ join (codes ",\n" ++ key_indent ++ codes "  ") (render_entries add)
      ++ codes "\n"
      ++ key_indent
      ++ codes "]"

  -- planIDSet
  unfoldable pub plan_id_set : Node → String → Option TextEdit
  plan_id_set entry id = elim (get "id" entry) [
    | some (text start end value) ↦
        if value == id then none else some (record { at = start; end = end; text = marshal id })
    | _ ↦
        let key = codes "\"id\": " ++ marshal id in
        some (insertion (start_of entry + 1) (if has_props entry then key ++ codes ", " else key))
  ]

  -- planClientsInsert for settings without a clients key, of the span `start` to `end`
  unfoldable pub new_clients_key : List ℕ → ℕ → ℕ → Props → List ClientOp → TextEdit
  unfolding render_entries
  new_clients_key document start end props add =
      let key = marshal "clients" ++ codes ": " in
      let inline = key ++ codes "[" ++ join (codes ", ") (render_entries add) ++ codes "]" in
      elim (last_prop props) [
        | none ↦
            let base = line_indent document start in
            let deeper = base ++ codes "  " in
            insertion (start + 1) (
              if multiline document start end
              then codes "\n"
                ++ deeper
                ++ key
                ++ render_clients_value deeper add
                ++ codes "\n"
                ++ base
              else inline)
        | some (key_at, last) ↦
            let base = line_indent document key_at in
            insertion (end_of last) (
              if multiline document start end
              then codes ",\n" ++ base ++ key ++ render_clients_value base add
              else codes ", " ++ inline)
      ]

  -- planClientsInsert for a clients array of the span `start` to `end`, on the entries that remain
  unfoldable pub more_clients : List ℕ → ℕ → ℕ → Nodes → Bool → List (List ℕ) → TextEdit
  more_clients document start end no_nodes trailing entries =
      let base = line_indent document start in
      let lines = codes "\n" ++ base ++ codes "  " in
      insertion (start + 1) (
        if multiline document start end
        then lines ++ join (codes "," ++ lines) entries ++ codes "\n" ++ base
        else join (codes ", ") entries)
  more_clients document start end (item first others) trailing entries =
      let last = last_item first others in
      let base = line_indent document (start_of last) in
      let lines = join (codes ",\n" ++ base) entries in
      let inline = join (codes ", ") entries in
      if trailing
      then (if multiline document start end
          then insertion (line_start 0 0 (end - 1) document) (base ++ lines ++ codes "\n")
          else insertion (end_of last + behind_first 0 b',' (slice (end_of last) end document))
              (codes " " ++ inline))
      else insertion (end_of last) (
          if multiline document start end
          then codes ",\n" ++ base ++ lines
          else codes ", " ++ inline)

  -- planClientsInsert; none when nothing remains to add
  unfoldable pub plan_clients_insert :
      List ℕ → ℕ → ℕ → Props → List ClientOp → Plan (Option TextEdit)
  unfolding new_clients_key more_clients keep contains by_email_from
  plan_clients_insert document start end props add = elim (get_prop "clients" props) [
    | none ↦ planned (some (new_clients_key document start end props add))
    | some (array at close items commas trailing) ↦
        let remaining = drop_emails add (emails_of (by_email_of items)) in
        planned (
          if is_empty remaining
          then none
          else some (more_clients document at close items trailing (render_entries remaining)))
    | some _ ↦ refused clients_no_array
  ]
