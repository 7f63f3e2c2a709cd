-- ===== src/XrayConfig/Render/Splice.antt =====
-- internal/xrayconfig/render.go: the application of the edits, from the last to the first.
use xform.Base.{
  ℕ, zero, suc, ◌-◌, ◌≤◌, ◌<◌, true, false, List, [], ◌∷◌, ◌++◌, nat_eq, ltb, leb, ◌≡◌, refl, sym,
  ap, ◌∙◌, arith, ◌⊎◌, inl, inr, Bool-cases,
}
use xform.Base.Lists.{append_assoc, append-nil, length, take, drop, All}
use mathlib.Core.List.{Perm}
use mathlib.Core.List.Perm
use xform.XrayConfig.Render.{TextEdit, planned, ◌>>=◌}
use xform.XrayConfig.Render.Edits.{slice}
use xform.XrayConfig.Render.Document.{
  splice, splice_all, sort_edits, insert_edit, of_edits, changed,
}

module _ {ℓ} {A : Type ℓ} where
  length-take_append : (n : ℕ) (xs ys : List A) → n ≤ length xs → n ≤ length (take n xs ++ ys)
  length-take_append zero xs ys h = omega arith
  length-take_append (suc n) [] ys h = ground arith
  length-take_append (suc n) (x ∷ xs) ys h = omega (arith, length-take_append n xs ys (omega arith))

  -- The parts of what stands before `n`, with something behind it.
  take-take_append :
      (i n : ℕ) (xs ys : List A) → i ≤ n → n ≤ length xs → take i (take n xs ++ ys) ≡ take i xs
  take-take_append zero n xs ys h k = refl
  take-take_append (suc i) zero xs ys h k = ground arith
  take-take_append (suc i) (suc n) [] ys h k = ground arith
  take-take_append (suc i) (suc n) (x ∷ xs) ys h k =
      ap (λ l. x ∷ l) (take-take_append i n xs ys (omega arith) (omega arith))

  drop-take_append :
      (i n : ℕ) (xs ys : List A)
      → i ≤ n
      → n ≤ length xs
      → drop i (take n xs ++ ys) ≡ take (n - i) (drop i xs) ++ ys
  drop-take_append zero n xs ys h k =
      let whole : n ≡ n - 0 = omega arith in ap (λ m. take m xs ++ ys) whole
  drop-take_append (suc i) zero xs ys h k = ground arith
  drop-take_append (suc i) (suc n) [] ys h k = ground arith
  drop-take_append (suc i) (suc n) (x ∷ xs) ys h k =
      let same : n - i ≡ suc n - suc i = omega arith in
      drop-take_append i n xs ys (omega arith) (omega arith)
      ∙ ap (λ m. take m (drop i xs) ++ ys) same

-- What the document becomes: the pieces between the edits, which are listed from the last to the
-- first, with the new texts in the gaps; up to `limit`.
unfoldable pub woven : List ℕ → ℕ → List TextEdit → List ℕ
woven document limit [] = take limit document
woven document limit (e ∷ es) = woven document e.at es ++ e.text ++ slice e.end limit document

-- From the last to the first, and none reaches into the one behind it or past `limit`.
abbrev pub Descending : ℕ → List TextEdit → Type 0
Descending limit [] = Unit
Descending limit (e ∷ es) = (e.at ≤ e.end) × ((e.end ≤ limit) × Descending e.at es)

splice_all-append :
    (document : List ℕ) (limit : ℕ) (behind : List ℕ) (es : List TextEdit)
    → limit ≤ length document
    → Descending limit es
    → splice_all es (take limit document ++ behind) ≡ planned (woven document limit es ++ behind)
unfolding splice_all splice woven
splice_all-append document limit behind [] h d = refl
splice_all-append document limit behind (e ∷ es) h d =
    let kept = slice e.end limit document in
    let fits : e.end ≤ length (take limit document ++ behind) =
      omega (arith, length-take_append limit document behind h) in
    let in_bounds : leb e.end (length (take limit document ++ behind)) ≡ true = ground arith in
    let cut : splice e (take limit document ++ behind)
        ≡ planned (take e.at document ++ e.text ++ (kept ++ behind)) =
      rw
        (
          in_bounds,
          take-take_append e.at limit document behind (omega arith) h,
          drop-take_append e.end limit document behind (omega arith) h,
        )
        refl in
    let assoc : woven document e.at es ++ (e.text ++ (kept ++ behind))
        ≡ woven document e.at es ++ e.text ++ kept ++ behind =
      sym (append_assoc (woven document e.at es) e.text (kept ++ behind))
      ∙ sym (append_assoc (woven document e.at es ++ e.text) kept behind) in
    ap (λ p. p >>= splice_all es) cut
    ∙ ap (splice_all es) (append_assoc (take e.at document) e.text (kept ++ behind))
    ∙ splice_all-append document e.at (e.text ++ (kept ++ behind)) es (omega arith) d.1.1
    ∙ ap planned assoc

take-length {ℓ} : {A : Type ℓ} (xs : List A) → take (length xs) xs ≡ xs
take-length [] = refl
take-length (x ∷ xs) = ap (λ l. x ∷ l) (take-length xs)

pub splice_all-woven :
    (document : List ℕ) (es : List TextEdit)
    → Descending (length document) es
    → splice_all es document ≡ planned (woven document (length document) es)
splice_all-woven document es d =
    let whole : document ≡ take (length document) document ++ [] =
      sym (append-nil (take (length document) document) ∙ take-length document) in
    ap (splice_all es) whole
    ∙ splice_all-append document (length document) [] es (omega arith) d
    ∙ ap planned (append-nil (woven document (length document) es))

-- Two edits that begin at different offsets, and the first of which ends before the other begins.
abbrev pub Apart : TextEdit → TextEdit → Type 0
Apart e f = ((e.at < f.at) × (e.end ≤ f.at)) ⊎ ((f.at < e.at) × (f.end ≤ e.at))

abbrev pub AllApart : ℕ → List TextEdit → Type 0
AllApart limit [] = Unit
AllApart limit (e ∷ es) =
    (e.at ≤ e.end) × ((e.end ≤ limit) × (All (Apart e) es × AllApart limit es))

insert_edit-Descending :
    (limit : ℕ) (e : TextEdit) (es : List TextEdit)
    → e.at ≤ e.end
    → e.end ≤ limit
    → All (Apart e) es
    → Descending limit es
    → Descending limit (insert_edit e es)
unfolding insert_edit
insert_edit-Descending limit e [] h k a d = (h, (k, tt))
insert_edit-Descending limit e (f ∷ fs) h k a d = elim a.0 [
  | inl before ↦
      let rest = insert_edit-Descending f.at e fs h before.1 a.1 d.1.1 in
      let first : ltb e.at f.at ≡ true = ground arith in rw first (d.0, (d.1.0, rest))
  | inr behind ↦
      let last : ltb e.at f.at ≡ false = ground arith in rw last (h, (k, (d.0, (behind.1, d.1.1))))
]

module _ (P : TextEdit → Type 0) where
  insert_edit-All : (e : TextEdit) (es : List TextEdit) → P e → All P es → All P (insert_edit e es)
  unfolding insert_edit
  insert_edit-All e [] h a = (h, tt)
  insert_edit-All e (f ∷ fs) h a =
      let rest = insert_edit-All e fs h a.1 in
      elim (Bool-cases (ltb e.at f.at)) [
        | inl before ↦ rw before (a.0, rest)
        | inr behind ↦ rw behind (h, a)
      ]

  sort_edits-All : (es : List TextEdit) → All P es → All P (sort_edits es)
  unfolding sort_edits
  sort_edits-All [] a = tt
  sort_edits-All (e ∷ es) a = insert_edit-All e (sort_edits es) a.0 (sort_edits-All es a.1)

sort_edits-Descending :
    (limit : ℕ) (es : List TextEdit) → AllApart limit es → Descending limit (sort_edits es)
unfolding sort_edits
sort_edits-Descending limit [] a = tt
sort_edits-Descending limit (e ∷ es) a =
    insert_edit-Descending limit e (sort_edits es) a.0 a.1.0 (sort_edits-All (Apart e) es a.1.1.0)
      (sort_edits-Descending limit es a.1.1.1)

insert_edit-Perm : (e : TextEdit) (es : List TextEdit) → Perm (insert_edit e es) (e ∷ es)
unfolding insert_edit
insert_edit-Perm e [] = Perm.refl (e ∷ [])
insert_edit-Perm e (f ∷ fs) =
    let rest = insert_edit-Perm e fs in
    elim (Bool-cases (ltb e.at f.at)) [
      | inl before ↦ rw before (Perm.trans (Perm.cons f rest) (Perm.swap e f fs))
      | inr behind ↦ rw behind (Perm.refl (e ∷ f ∷ fs))
    ]

sort_edits-Perm : (es : List TextEdit) → Perm (sort_edits es) es
unfolding sort_edits
sort_edits-Perm [] = Perm.refl []
sort_edits-Perm (e ∷ es) =
    Perm.trans (insert_edit-Perm e (sort_edits es)) (Perm.cons e (sort_edits-Perm es))

-- Where the planned edits begin at different offsets and none reaches into another or past the end:
-- applying them gives, for the very edits that were planned, put in order from the last to the first,
-- the pieces of the document between them, each unchanged, with the new text of each edit in its gap.
pub of_edits-woven :
    (document : List ℕ) (e : TextEdit) (es : List TextEdit)
    → AllApart (length document) (e ∷ es)
    → (order : List TextEdit) × Perm order (e ∷ es)
      × Descending (length document) order
      × (of_edits document (e ∷ es) ≡ planned (changed (woven document (length document) order)))
of_edits-woven document e es apart =
    let order = sort_edits (e ∷ es) in
    let descending = sort_edits-Descending (length document) (e ∷ es) apart in
    (
      order,
      sort_edits-Perm (e ∷ es),
      descending,
      rw (splice_all-woven document order descending) refl,
    )
