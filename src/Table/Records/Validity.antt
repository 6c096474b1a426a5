-- ===== src/Table/Records/Validity.antt =====
-- What buildInsertData lets through.
use flagbase.Prelude.{
  String, true, ◌||◌, ◌≡◌, ◌≢◌, refl, ap, ◌∙◌, ◌⊎◌, inl, inr, List, [], ◌∷◌, All, lookup, none,
  some, arith, Option-cases,
}
use flagbase.Db.{Result, ok, err}
use flagbase.Table.{Column, Value}
use flagbase.Table.Schema.{column_map, has_default}
use flagbase.Table.Records.{
  validate_value, check_names, supplied, insert_values, then_values, build_insert_data,
}

-- The input names a column of the table.
abbrev pub Known : List Column → String × Value → Type 0
Known cols a = column_map cols a.0 ≢ none

-- A column without a value in the input can do without, and a value that is there is valid.
abbrev pub Suits : List (String × Value) → Column → Type 0
Suits input c =
    ((lookup c.name input ≡ none) × ((c.nullable || has_default c) ≡ true))
    ⊎ ((v : Value) × (lookup c.name input ≡ some v) × (validate_value c v ≡ ok tt))

-- The input in the order of the columns.
abbrev pub in_order : List Column → List (String × Value) → List (String × Value)
in_order [] input = []
in_order (c ∷ cs) input =
    let rest = in_order cs input in
    elim (lookup c.name input) [ none ↦ rest | some v ↦ (c.name, v) ∷ rest ]

check_names-Known :
    (cols : List Column) (input : List (String × Value))
    → check_names cols input ≡ ok tt
    → All (Known cols) input
unfolding check_names
check_names-Known cols [] h = tt
check_names-Known cols ((k, v) ∷ input) h = elim (Option-cases (column_map cols k)) [
  | inl e ↦ absurd (ground arith)
  | inr (c, e) ↦ (λ n. cc, check_names-Known cols input (ground arith))
]

supplied-ok :
    (name : String) (v : Value) (r : Result (Unit {0})) (rest : Result (List (String × Value)))
    (vs : List (String × Value))
    → supplied name v r rest ≡ ok vs
    → (ws : List (String × Value)) × (r ≡ ok tt) × (rest ≡ ok ws) × (vs ≡ (name, v) ∷ ws)
supplied-ok name v (err e) rest vs h = absurd (cc)
supplied-ok name v (ok u) (err e) vs h = absurd (cc)
supplied-ok name v (ok u) (ok ws) vs h = (ws, refl, refl, cc)

insert_values-Suits :
    (cols : List Column) (input vs : List (String × Value))
    → insert_values cols input ≡ ok vs
    → All (Suits input) cols × (vs ≡ in_order cols input)
unfolding insert_values
insert_values-Suits [] input vs h = (tt, cc)
insert_values-Suits (c ∷ cs) input vs h = elim (Option-cases (lookup c.name input)) [
  | inl e ↦
      let fine : (c.nullable || has_default c) ≡ true = ground arith in
      let rest = insert_values-Suits cs input vs (ground arith) in
      ((inl (e, fine), rest.0), rw (e, in_order) rest.1)
  | inr (v, e) ↦
      let s =
        supplied-ok c.name v (validate_value c v) (insert_values cs input) vs (ground arith) in
      let rest = insert_values-Suits cs input s.0 s.2 in
      ((inr (v, e, s.1), rest.0), s.3 ∙ (ap (λ x. (c.name, v) ∷ x) rest.1 ∙ rw (e, in_order) refl))
]

then_values-ok :
    (r : Result (Unit {0})) (s : Result (List (String × Value))) (vs : List (String × Value))
    → then_values r s ≡ ok vs
    → (r ≡ ok tt) × (s ≡ ok vs)
then_values-ok (err e) s vs h = absurd (cc)
then_values-ok (ok u) s vs h = (refl, h)

-- If the input of an insert is accepted, each of its names is a column, each column that it leaves
-- out is nullable or has a default, each value that it gives is valid for its column, and what goes
-- into the statement are exactly these values, in the order of the columns.
pub build_insert_data-Suits :
    (cols : List Column) (input vs : List (String × Value))
    → build_insert_data cols input ≡ ok vs
    → All (Known cols) input × All (Suits input) cols × (vs ≡ in_order cols input)
unfolding build_insert_data
build_insert_data-Suits cols input vs h =
    let s = then_values-ok (check_names cols input) (insert_values cols input) vs h in
    let t = insert_values-Suits cols input vs s.1 in (check_names-Known cols input s.0, t.0, t.1)
