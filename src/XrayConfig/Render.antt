-- ===== src/XrayConfig/Render.antt =====
-- internal/xrayconfig/render.go: the edits that one plan makes in the clients arrays of a config. A
-- text is its bytes. `marshal` is json.Marshal of a string, `unmarshal` its inverse on the bytes of one
-- string, and `fold` the fold that strings.EqualFold compares by. Where an index is out of range,
-- there is no result.
pub mod Edits
pub mod Document
pub mod Settled
pub mod Splice
use xform.Base.{
  ℕ, zero, suc, ◌+◌, ◌-◌, String, Bool, true, false, not, ◌&&◌, ◌||◌, List, [], ◌∷◌, ◌++◌, map,
  Option, none, some, ◌==◌, nat_eq, string_eq, if◌then◌else◌, ltb, leb,
}
use xform.Base.Lists.{length, is_empty, contains, keep, take, drop, get_elem?}
use xform.Base.Assoc.{insert, delete}
use xform.Base.Text.{codes}
use xform.XrayConfig.Jsonc.{
  start_of, end_of, Node, Props, Nodes, object, array, text, literal, no_nodes, item, get, Problem,
}

pub record ClientOp : Type 0 where
  pub email : String
  pub id : String
  pub flow : String

pub record RenderPlan : Type 0 where
  pub adds : List (String × List ClientOp)
  pub removes : List (String × List String)
  pub sets : List (String × List ClientOp)

-- empty
abbrev pub is_idle : RenderPlan → Bool
is_idle p = is_empty p.adds && (is_empty p.removes && is_empty p.sets)

-- textEdit; an insertion has `end = at`.
pub record TextEdit : Type 0 where
  pub at : ℕ
  pub end : ℕ
  pub text : List ℕ

abbrev pub insertion : ℕ → List ℕ → TextEdit
insertion at new = record { at = at; end = at; text = new }

-- items[index]
abbrev pub nth_item : ℕ → Nodes → Option Node
nth_item index no_nodes = none
nth_item zero (item n ns) = some n
nth_item (suc index) (item n ns) = nth_item index ns

abbrev pub last_item : Node → Nodes → Node
last_item n no_nodes = n
last_item n (item m ns) = last_item m ns

-- multiline
abbrev pub multiline : List ℕ → ℕ → ℕ → Bool
multiline document start end = contains (take (end - start) (drop start document)) 10

-- The offset behind the last line break before `pos`, on a walk that is at `i`.
abbrev pub line_start : ℕ → ℕ → ℕ → List ℕ → ℕ
line_start i found zero s = found
line_start i found (suc pos) [] = found
line_start i found (suc pos) (c ∷ s) = line_start (i + 1) (if c == 10 then i + 1 else found) pos s

abbrev pub indent : List ℕ → List ℕ
indent [] = []
indent (c ∷ s) = let rest = indent s in if c == b' ' || c == 9 then c ∷ rest else []

-- lineIndent
abbrev pub line_indent : List ℕ → ℕ → List ℕ
line_indent document pos = indent (drop (line_start 0 0 pos document) document)

-- strings.Join
abbrev pub join : List ℕ → List (List ℕ) → List ℕ
join sep [] = []
join sep (t ∷ []) = t
join sep (t ∷ u ∷ ts) = t ++ sep ++ join sep (u ∷ ts)

-- The errors of RenderClients, and an index or a slice out of range, on which the program panics.
pub data Refusal : Type 0 where
  scan_failed : Problem → Refusal
  no_inbounds : Refusal
  not_vless : String → Refusal
  no_settings : String → Refusal
  clients_no_array : Refusal
  out_of_range : Refusal

pub data Plan {ℓ} (A : Type ℓ) : Type ℓ where
  refused : Refusal → Plan A
  planned : A → Plan A

module _ {ℓ κ} {A : Type ℓ} {B : Type κ} where
  infixl 1 ◌>>=◌
  abbrev pub ◌>>=◌ : Plan A → (A → Plan B) → Plan B
  refused e >>= k = refused e
  planned a >>= k = k a

abbrev pub in_range {ℓ} : {A : Type ℓ} → Option A → Plan A
in_range none = refused out_of_range
in_range (some a) = planned a

abbrev deletion : ℕ → ℕ → Plan TextEdit
deletion at end = planned (record { at = at; end = end; text = [] })

-- planEntryRemoval
unfoldable pub plan_entry_removal : Nodes → List ℕ → ℕ → Plan TextEdit
plan_entry_removal items commas index = do
  entry ← in_range (nth_item index items)
  elim (nth_item (index + 1) items) [
    | some next ↦ deletion (start_of entry) (start_of next)
    | none ↦ elim (get_elem? commas index) [
      | some comma ↦ deletion (start_of entry) (comma + 1)
      | none ↦ elim index [
        | zero ↦ deletion (start_of entry) (end_of entry)
        | suc before ↦ in_range (get_elem? commas before) >>= λ comma. deletion comma (end_of entry)
      ]
    ]
  ]

abbrev note_email : ℕ → Option Node → List (String × ℕ) → List (String × ℕ)
note_email index (some (text start end email)) m = insert email index m
note_email index _ m = m

-- byEmailOf: the loop from `index` on
unfoldable pub by_email_from : ℕ → Nodes → List (String × ℕ) → List (String × ℕ)
unfolding insert delete
by_email_from index no_nodes m = m
by_email_from index (item n ns) m =
    by_email_from (index + 1) ns (note_email index (get "email" n) m)

abbrev pub by_email_of : Nodes → List (String × ℕ)
by_email_of items = by_email_from 0 items []

-- dropEmails and emailsOf
abbrev pub drop_emails : List ClientOp → List String → List ClientOp
drop_emails ops present = keep (λ op. not (contains present op.email)) ops

abbrev pub emails_of : List (String × ℕ) → List String
emails_of = map (λ e. e.0)
