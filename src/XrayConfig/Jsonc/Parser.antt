-- ===== src/XrayConfig/Jsonc/Parser.antt =====
-- internal/xrayconfig/render.go: the recursive descent. The recursion of value, object and array, and
-- the loops of the latter two, are on fuel.
use xform.Base.{
  ℕ, zero, suc, ◌+◌, String, Bool, true, false, ◌||◌, List, [], ◌∷◌, Option, none, some, ◌==◌,
  nat_eq, if◌then◌else◌,
}
use xform.Base.Lists.{length}
use xform.XrayConfig.Jsonc.{
  Node, Props, Nodes, object, array, text, no_props, prop, no_nodes, item, Cursor, Parse,
  out_of_fuel, failed, parsed, bind, unterminated_object, missing_colon, unterminated_array,
  malformed_string, unterminated_string, trailing_content, unexpected_end, skip, blank, scan_string,
  literal_at, separator_at, separator,
}

-- What the loops have collected when they return: the end, and whether a comma came last.
pub record Members : Type 0 where
  pub props : Props
  pub close : ℕ
  pub comma_last : Bool

pub record Elements : Type 0 where
  pub items : Nodes
  pub commas : List ℕ
  pub close : ℕ
  pub comma_last : Bool

abbrev pub joined : List ℕ → List ℕ → List ℕ
joined [] cs = cs
joined (c ∷ _) cs = c ∷ cs

-- The `:` behind a key.
abbrev pub colon : ℕ → Cursor → Parse (Unit {0})
colon key_end (p, []) = failed (missing_colon key_end)
colon key_end (p, b ∷ s) =
    if b == b':' then parsed tt (p + 1, s) else failed (missing_colon key_end)

-- The nodes of an object, an array and a string whose first byte is at `p`.
abbrev pub object_from : ℕ → Parse Members → Parse Node
object_from p members = bind members λ m c. parsed (object p m.close m.props m.comma_last) c

abbrev pub array_from : ℕ → Parse Elements → Parse Node
array_from p elements =
    bind elements λ e c. parsed (array p e.close e.items e.commas e.comma_last) c

abbrev pub text_from : ℕ → Parse (String × ℕ) → Parse Node
text_from p scanned = bind scanned λ t c. parsed (text p t.1 t.0) c

module _ (unmarshal : List ℕ → Option String) where
  -- str: the value and the end
  unfoldable pub str : Cursor → Parse (String × ℕ)
  unfolding scan_string
  str (p, []) = failed (unterminated_string p)
  str (p, b ∷ s) = elim (scan_string false s) [
    | none ↦ failed (unterminated_string p)
    | some (body, after) ↦
        let end = p + 1 + length body in
        elim (unmarshal (b ∷ body)) [
          | none ↦ failed (malformed_string p)
          | some value ↦ parsed (value, end) (end, after)
        ]
  ]

  -- One turn of the loop in object and in array, and value after its blank, over what they call.
  unfoldable pub object_entry :
      (Cursor → Parse Node) → (Cursor → Parse Members) → Cursor → Parse Members
  unfolding str separator_at
  object_entry read more at = bind (str at) λ key c. bind (colon key.1 (blank c)) λ _ c.
      bind (read c) λ v c.
        let sep = separator b'}' c in
        bind (more sep.1) λ rest c.
          parsed
            (record {
              props = prop key.0 at.0 v rest.props;
              close = rest.close;
              comma_last = sep.0.1 || rest.comma_last;
            })
            c

  unfoldable pub object_turn :
      (Cursor → Parse Node) → (Cursor → Parse Members) → ℕ → Cursor → Parse Members
  object_turn read more start (p, []) = failed (unterminated_object start)
  object_turn read more start (p, b ∷ s) = elim (b == b'}') [
    | true ↦ parsed (record { props = no_props; close = p + 1; comma_last = false }) (p + 1, s)
    | false ↦ object_entry read more (p, b ∷ s)
  ]

  unfoldable pub array_entry :
      (Cursor → Parse Node) → (Cursor → Parse Elements) → Cursor → Parse Elements
  unfolding separator_at
  array_entry read more at = bind (read at) λ v c.
      let sep = separator b']' c in
      bind (more sep.1) λ rest c.
        parsed
          (record {
            items = item v rest.items;
            commas = joined sep.0.0 rest.commas;
            close = rest.close;
            comma_last = sep.0.1 || rest.comma_last;
          })
          c

  unfoldable pub array_turn :
      (Cursor → Parse Node) → (Cursor → Parse Elements) → ℕ → Cursor → Parse Elements
  array_turn read more start (p, []) = failed (unterminated_array start)
  array_turn read more start (p, b ∷ s) = elim (b == b']') [
    | true ↦
        parsed (record { items = no_nodes; commas = []; close = p + 1; comma_last = false })
          (p + 1, s)
    | false ↦ array_entry read more (p, b ∷ s)
  ]

  unfoldable pub value_turn :
      (ℕ → Cursor → Parse Members) → (ℕ → Cursor → Parse Elements) → Cursor → Parse Node
  unfolding str literal_at
  value_turn members elements (p, []) = failed unexpected_end
  value_turn members elements (p, b ∷ s) = elim (b == b'{') [
    | true ↦ object_from p (members p (p + 1, s))
    | false ↦ elim (b == b'[') [
      | true ↦ array_from p (elements p (p + 1, s))
      | false ↦ elim (b == b'"') [
        | true ↦ text_from p (str (p, b ∷ s))
        | false ↦ literal_at (p, b ∷ s)
      ]
    ]
  ]

  unfoldable mutual
    unfolding value_turn object_turn array_turn object_entry array_entry skip

    pub value : ℕ → Cursor → Parse Node
    value zero c = out_of_fuel
    value (suc f) c = value_turn (object_loop f) (array_loop f) (blank c)

    pub object_loop : ℕ → ℕ → Cursor → Parse Members
    object_loop zero start c = out_of_fuel
    object_loop (suc f) start c = object_turn (value f) (object_loop f start) start (blank c)

    pub array_loop : ℕ → ℕ → Cursor → Parse Elements
    array_loop zero start c = out_of_fuel
    array_loop (suc f) start c = array_turn (value f) (array_loop f start) start (blank c)

  -- parseJSONC on so much fuel
  unfoldable pub parse_jsonc : ℕ → List ℕ → Parse Node
  unfolding value skip
  parse_jsonc fuel document = bind (value fuel (0, document)) λ root c.
      let end = blank c in
      if end.0 == length document then parsed root end else failed (trailing_content end.0)
