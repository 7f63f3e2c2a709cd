-- ===== src/Tests/Render.antt =====
-- The config renderer on small documents: the witnesses of its theorems.
use xform.Base.{
  ℕ, ◌+◌, String, Bool, true, false, ◌&&◌, List, [], ◌∷◌, ◌++◌, Option, none, some, ◌==◌, nat_eq,
  string_eq, if◌then◌else◌, ◌≡◌, refl, ◌*◌, arith, inl,
}
use xform.Base.Text.{codes, CaseTables}
use xform.Base.Lists.{length, contains}
use xform.Base.Assoc.{lookup, insert}
use xform.XrayConfig.Jsonc.{
  literal, Node, Props, object, array, text, no_props, prop, no_nodes, item, get, out_of_fuel,
  parsed, mode_after, ends_literal,
}
use xform.XrayConfig.Render.{RenderPlan, TextEdit, planned, by_email_from}
use xform.XrayConfig.Render.Document.{render_clients, changed, unchanged, of_edits}
use xform.XrayConfig.Jsonc.Parser.{parse_jsonc}
use xform.XrayConfig.Jsonc.Enough.{parse_jsonc_decided, parse_jsonc_stuck}
use xform.XrayConfig.Jsonc.Spans.{InSpan}
use xform.XrayConfig.Jsonc.Spans.Bounds.{parse_jsonc-InSpan}
use xform.XrayConfig.Render.Splice.{woven, Descending, of_edits-woven}
use mathlib.Core.List.{Perm}
use xform.XrayConfig.Render.Settled.{Settled, render_clients-AllSettled}

-- JSON strings without escapes, of the words that the documents below use.
abbrev quoted : String → List ℕ
quoted s = b'"' ∷ codes s ++ (b'"' ∷ [])

abbrev same_bytes : List ℕ → List ℕ → Bool
same_bytes [] [] = true
same_bytes [] (d ∷ t) = false
same_bytes (c ∷ s) [] = false
same_bytes (c ∷ s) (d ∷ t) = c == d && same_bytes s t

abbrev word_among : List String → List ℕ → Option String
word_among [] s = none
word_among (w ∷ ws) s = if same_bytes (quoted w) s then some w else word_among ws s

abbrev words : List String
words =
    "inbounds" ∷ "tag" ∷ "in" ∷ "protocol" ∷ "vless" ∷ "settings" ∷ "clients" ∷ "email" ∷ "id" ∷ "a"
    ∷ "b" ∷ "c" ∷ []

abbrev unquoted : List ℕ → Option String
unquoted = word_among words

abbrev ascii : CaseTables
ascii = record { upper = λ c. c; lower = λ c. c; fold = λ c. c }

abbrev document : String → List ℕ
document clients =
    codes "{\"inbounds\":[{\"tag\":\"in\",\"protocol\":\"vless\",\"settings\":{\"clients\":"
    ++ codes clients
    ++ codes "}}]}"

abbrev remove : List String → RenderPlan
remove emails = record { adds = []; removes = ("in", emails) ∷ []; sets = [] }

scanned :
    parse_jsonc
      (λ s. some "")
      20
      (b'{' ∷ b'"' ∷ b'"' ∷ b':' ∷ b'[' ∷ b'1' ∷ b',' ∷ b']' ∷ b'}' ∷ [])
    ≡ parsed
        (object 0 9
          (prop "" 1 (array 4 8 (item (literal 5 6) no_nodes) (6 ∷ []) true) no_props)
          false)
        (9, [])
unfolding parse_jsonc mode_after ends_literal
scanned = refl

drops_one :
    render_clients quoted unquoted ascii 250
      (document "[{\"email\":\"a\"},{\"email\":\"b\"}]")
      (remove ("b" ∷ []))
    ≡ changed (document "[{\"email\":\"a\"}]")
unfolding render_clients mode_after ends_literal get
drops_one = refl

-- Removing the last two clients takes the closing bracket with them.
drops_both :
    render_clients quoted unquoted ascii 250
      (document "[{\"email\":\"a\"},{\"email\":\"b\"}]")
      (remove ("a" ∷ "b" ∷ []))
    ≡ changed (document "[")
unfolding render_clients mode_after ends_literal get
drops_both = refl

-- Replacing the only client leaves a comma at the front.
swaps :
    render_clients quoted unquoted ascii 250 (document "[{\"email\":\"a\"}]") (record {
      adds = ("in", record { email = "b"; id = "c"; flow = "" } ∷ []) ∷ [];
      removes = ("in", "a" ∷ []) ∷ [];
      sets = [];
    })
    ≡ changed (document "[, {\"email\": \"b\", \"id\": \"c\"}]")
unfolding render_clients mode_after ends_literal get
swaps = refl

-- A removal where there is no clients key yet writes an empty one.
adds_a_key :
    render_clients quoted unquoted ascii 250
      (codes "{\"inbounds\":[{\"tag\":\"in\",\"protocol\":\"vless\",\"settings\":{}}]}")
      (remove ("a" ∷ []))
    ≡ changed (
        codes
          "{\"inbounds\":[{\"tag\":\"in\",\"protocol\":\"vless\",\"settings\":{\"clients\": []}}]}")
unfolding render_clients mode_after ends_literal get
adds_a_key = refl

parse_jsonc_decided_example :
    parse_jsonc unquoted (2 * length (codes "[1,{}]") + 1 + 7) (codes "[1,{}]")
    ≡ parse_jsonc unquoted (2 * length (codes "[1,{}]") + 1) (codes "[1,{}]")
parse_jsonc_decided_example = parse_jsonc_decided unquoted (codes "[1,{}]") 7

parse_jsonc_stuck_example : parse_jsonc unquoted 9 (codes "[}") ≡ out_of_fuel
parse_jsonc_stuck_example = parse_jsonc_stuck unquoted 9 b'}' [] refl

abbrev edit : ℕ → ℕ → String → TextEdit
edit at end new = record { at = at; end = end; text = codes new }

of_edits-woven_example :
    (order : List TextEdit) × Perm order (edit 1 3 "X" ∷ edit 4 4 "Y" ∷ [])
    × Descending 6 order
    × (of_edits (codes "abcdef") (edit 1 3 "X" ∷ edit 4 4 "Y" ∷ [])
        ≡ planned (changed (woven (codes "abcdef") 6 order)))
of_edits-woven_example = of_edits-woven (codes "abcdef") (edit 1 3 "X") (edit 4 4 "Y" ∷ []) (
  omega arith,
  (omega arith, ((inl (omega arith, omega arith), tt), (omega arith, (omega arith, (tt, tt))))),
)

woven_edits : woven (codes "abcdef") 6 (edit 4 4 "Y" ∷ edit 1 3 "X" ∷ []) ≡ codes "aXdYef"
unfolding woven
woven_edits = refl

-- A client with an ID, and a plan that it satisfies.
abbrev settled_document : List ℕ
settled_document = document "[{\"email\":\"a\",\"id\":\"b\"}]"

abbrev settled_plan : RenderPlan
settled_plan = record {
  adds = ("in", record { email = "a"; id = "c"; flow = "" } ∷ []) ∷ [];
  removes = ("in", "c" ∷ []) ∷ [];
  sets = ("in", record { email = "a"; id = "b"; flow = "" } ∷ []) ∷ [];
}

abbrev client : Node
client =
    object 67 89 (prop "email" 68 (text 76 79 "a") (prop "id" 80 (text 85 88 "b") (no_props))) false

abbrev client_props : Props
client_props = prop "clients" 56 (array 66 90 (item client no_nodes) [] false) no_props

abbrev settings_prop : Props
settings_prop = prop "settings" 44 (object 55 91 client_props false) no_props

abbrev inbound : Node
inbound =
    object 13 92
      (prop "tag" 14 (text 20 24 "in") (prop "protocol" 25 (text 36 43 "vless") settings_prop))
      false

abbrev settled_root : Node
settled_root =
    object 0 94 (prop "inbounds" 1 (array 12 93 (item inbound no_nodes) [] false) no_props) false

settled_scan : parse_jsonc unquoted 300 settled_document ≡ parsed settled_root (94, [])
unfolding parse_jsonc mode_after ends_literal
settled_scan = refl

inbound-Settled : Settled ascii settled_plan inbound
unfolding get lookup by_email_from insert contains
inbound-Settled = record {
  tag_at = 20;
  tag_end = 24;
  tag = "in";
  tagged = refl;
  vless = refl;
  start = 55;
  end = 91;
  props = client_props;
  comma = false;
  settings = refl;
  at = 66;
  close = 90;
  items = item client no_nodes;
  commas = [];
  trailing = false;
  clients = refl;
  added = (refl, tt);
  removed = (refl, tt);
  rewritten = (
    record { index = 0; entry = client; at = _; end = _; known = refl; here = refl; same = refl },
    tt,
  );
}

render_clients-AllSettled_example :
    render_clients quoted unquoted ascii 300 settled_document settled_plan ≡ unchanged
unfolding get
render_clients-AllSettled_example =
    render_clients-AllSettled quoted unquoted ascii 300 settled_document settled_plan settled_root
      (94, []) 12 93 (item inbound no_nodes) [] false settled_scan refl (inl inbound-Settled, tt)

parse_jsonc-InSpan_example : InSpan 0 94 settled_root
parse_jsonc-InSpan_example =
    parse_jsonc-InSpan unquoted 300 settled_document settled_root (94, []) settled_scan
