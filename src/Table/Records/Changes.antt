-- ===== src/Table/Records/Changes.antt =====
-- What the statements on a physical table change, and what not.
use flagbase.Prelude.{
  ℕ, String, Bool, false, not, ◌≡◌, ◌≢◌, refl, ap, ◌∙◌, inl, inr, List, [], ◌∷◌, ◌++◌, keep, lookup,
  Option, none, some, arith, ◌==◌, eq_iff, Bool-cases, Option-cases,
}
use flagbase.Db.{Result, ok, err}
use flagbase.Table.{Value}
use flagbase.Table.Schema.{Row, Physical, Tables, put_physical}
use flagbase.Table.Records.Rows.{
  Sqlite, is_tagged, on_physical, on_found, put_back, insert_row, stored_values,
}

-- The rows of a table.
abbrev pub rows_of : Option Physical → List Row
rows_of none = []
rows_of (some p) = p.rows

abbrev pub rows_at : String → Tables → List Row
rows_at key t = rows_of (lookup key t.physical)

lookup-put :
    (key : String) (q : Physical) (m : List (String × Physical)) {p : Physical}
    → lookup key m ≡ some p
    → lookup key (put_physical key q m) ≡ some q
lookup-put key q [] h = absurd (cc)
lookup-put key q ((k, x) ∷ m) {p} h = elim (Bool-cases (k == key)) [
  | inl e ↦ ground arith
  | inr e ↦ ground (arith, lookup-put key q m {p = p})
]

lookup-put_other :
    (key other : String) (q : Physical) (m : List (String × Physical))
    → key ≢ other
    → lookup other (put_physical key q m) ≡ lookup other m
lookup-put_other key other q [] n = refl
lookup-put_other key other q ((k, x) ∷ m) n = elim (Bool-cases (k == key)) [
  | inl e ↦ ground (arith, eq_iff k key, eq_iff k other)
  | inr e ↦ ground (arith, lookup-put_other key other q m)
]

-- What a statement on a physical table has done.
pub record Changed {A : Type 0} (key : String) (f : Physical → Result (A × Physical)) (t : Tables)
    (a : A) (u : Tables) : Type 0 where
  pub before : Physical
  pub after : Physical
  pub was : lookup key t.physical ≡ some before
  pub done : f before ≡ ok (a, after)
  pub now : u ≡ record t { physical = put_physical key after t.physical }

pub on_physical-Changed :
    {A : Type 0} (key : String) (f : Physical → Result (A × Physical)) (t : Tables) {a : A}
    {u : Tables}
    → on_physical key f t ≡ ok (a, u)
    → Changed key f t a u
on_physical-Changed {A} key f t {a} {u} h = go (lookup key t.physical) refl h
  where
    inner :
        (p : Physical) (r : Result (A × Physical))
        → lookup key t.physical ≡ some p
        → f p ≡ r
        → put_back key t r ≡ ok (a, u)
        → Changed key f t a u
    inner p (err x) e g h = absurd (cc)
    inner p (ok (b, q)) e g h =
        let same : b ≡ a = cc in
        record { before = p; after = q; was = e; done = g ∙ ap (λ x. ok (x, q)) same; now = cc }

    go :
        (o : Option Physical)
        → lookup key t.physical ≡ o
        → on_found key f t o ≡ ok (a, u)
        → Changed key f t a u
    go none e h = absurd (cc)
    go (some p) e h = inner p (f p) e refl h

-- What a statement has left under the key, and elsewhere.
pub rows-after :
    {A : Type 0} (key : String) (f : Physical → Result (A × Physical)) (t : Tables) (a : A)
    (u : Tables)
    → (c : Changed key f t a u) → rows_at key u ≡ c.after.rows
rows-after key f t a u c =
    ap (rows_at key) c.now ∙ ap rows_of (lookup-put key c.after t.physical c.was)

pub rows-before :
    {A : Type 0} (key : String) (f : Physical → Result (A × Physical)) (t : Tables) (a : A)
    (u : Tables)
    → (c : Changed key f t a u) → rows_at key t ≡ c.before.rows
rows-before key f t a u c = ap rows_of c.was

pub other-after :
    {A : Type 0} (key other : String) (f : Physical → Result (A × Physical)) (t : Tables) (a : A)
    (u : Tables)
    → key ≢ other
    → Changed key f t a u
    → lookup other u.physical ≡ lookup other t.physical
other-after key other f t a u n c =
    ap (λ (v : Tables). lookup other v.physical) c.now
    ∙ lookup-put_other key other c.after t.physical n

keep-append :
    (p : Row → Bool) (rows : List Row) (r : Row)
    → p r ≡ false
    → keep p (rows ++ r ∷ []) ≡ keep p rows
keep-append p [] r h = rw h refl
keep-append p (x ∷ rows) r h = ground (arith, keep-append p rows r h)

module _ (sqlite : Sqlite) where
  -- A row that goes in with a tag leaves the rows without the tag as they were.
  pub insert_row-untagged :
      (id : String) (now : ℕ) (tag : String) (args : List (String × Value)) (p q : Physical)
      {a : Unit {0}}
      → insert_row sqlite id now (some tag) args p ≡ ok (a, q)
      → keep (λ r. not (is_tagged tag r)) q.rows ≡ keep (λ r. not (is_tagged tag r)) p.rows
  unfolding insert_row
  insert_row-untagged id now tag args p q h =
      elim (Option-cases (stored_values sqlite p.columns args)) [
        | inl e ↦ absurd (ground arith)
        | inr (vs, e) ↦
            let new : Row = record {
              id = id;
              created_at = now;
              updated_at = now;
              flag_ctx = some tag;
              values = vs;
            } in
            let same : q.rows ≡ p.rows ++ new ∷ [] = ground arith in
            ap (keep (λ r. not (is_tagged tag r))) same
            ∙ keep-append (λ r. not (is_tagged tag r)) p.rows new (ground (arith, eq_iff tag tag))
      ]
