-- ===== src/Table/Ddl/Literals.antt =====
-- DEFAULT literals, read back as SQLite's tokenizer reads them.
use flagbase.Prelude.{
  ℕ, String, Bool, true, false, ◌||◌, ◌≡◌, ◌≢◌, refl, ap, ◌∙◌, List, [], ◌∷◌, ◌++◌, all, All, arith,
  eqb, ◌==◌, eq_iff, Option, none, some, if◌then◌else◌, Bool-cases, inl, inr, ◌⊎◌,
}
use mathlib.Core.List.{append_assoc}
use flagbase.Text.{codes, trim_space, replace_all}
use flagbase.Table.{ColumnType, column_type_integer, column_type_real, column_type_boolean}
use flagbase.Table.Ddl.{is_numeric_char, is_numeric, sql_literal}

abbrev pub push : ℕ → Option (List ℕ × List ℕ) → Option (List ℕ × List ℕ)
push c none = none
push c (some (s, rest)) = some (c ∷ s, rest)

-- The rest of a string literal: two quotes stand for one, a single one ends it.
abbrev pub read_quoted : List ℕ → Option (List ℕ × List ℕ)
read_quoted [] = none
read_quoted (c ∷ []) = if eqb c 0x27 then some ([], []) else none
read_quoted (c ∷ d ∷ s) =
    let escaped = push 0x27 (read_quoted s) in
    let plain = push c (read_quoted (d ∷ s)) in
    if eqb c 0x27 then if eqb d 0x27 then escaped else some ([], d ∷ s) else plain

-- A string literal and what follows it.
abbrev pub read_literal : List ℕ → Option (List ℕ × List ℕ)
read_literal [] = none
read_literal (c ∷ s) = if eqb c 0x27 then read_quoted s else none

abbrev pub NoQuote : List ℕ → Type 0
NoQuote [] = Unit
NoQuote (c ∷ s) = c ≢ 0x27

read_quoted-plain :
    (c : ℕ) (s : List ℕ) → c ≢ 0x27 → s ≢ [] → read_quoted (c ∷ s) ≡ push c (read_quoted s)
read_quoted-plain c [] n m = absurd (m refl)
read_quoted-plain c (d ∷ s) n m = ground arith

append-ne-nil : (s t : List ℕ) (c : ℕ) → s ++ (c ∷ t) ≢ []
append-ne-nil [] t c e = cc
append-ne-nil (x ∷ s) t c e = cc

read_quoted-escaped :
    (s rest : List ℕ)
    → NoQuote rest
    → read_quoted (replace_all 0x27 (0x27 ∷ 0x27 ∷ []) s ++ (0x27 ∷ rest)) ≡ some (s, rest)
unfolding replace_all
read_quoted-escaped [] [] h = refl
read_quoted-escaped [] (d ∷ rest) h = ground arith
read_quoted-escaped (c ∷ s) rest h = elim (Bool-cases (eqb c 0x27)) [
  | inl e ↦ rw e (ground (arith, read_quoted-escaped s rest h))
  | inr e ↦ rw e (
      read_quoted-plain c _ (ground arith) (append-ne-nil _ rest 0x27)
      ∙ ap (push c) (read_quoted-escaped s rest h))
]

sql_literal-text :
    (t : ColumnType) (v : String)
    → t ≢ column_type_integer
    → t ≢ column_type_real
    → t ≢ column_type_boolean
    → sql_literal t v ≡ 0x27 ∷ (replace_all 0x27 (0x27 ∷ 0x27 ∷ []) (codes v) ++ (0x27 ∷ []))
unfolding sql_literal
sql_literal-text t v n m b =
    ground
      (arith, eq_iff t column_type_integer, eq_iff t column_type_real, eq_iff t column_type_boolean)

-- The default of a text column reads back as the text itself, and what follows it in the
-- statement is left as it is: no default value can end the literal early.
pub read_literal-sql_literal :
    (t : ColumnType) (v : String) (rest : List ℕ)
    → t ≢ column_type_integer
    → t ≢ column_type_real
    → t ≢ column_type_boolean
    → NoQuote rest
    → read_literal (sql_literal t v ++ rest) ≡ some (codes v, rest)
read_literal-sql_literal t v rest n m b h =
    rw (sql_literal-text t v n m b) (rw append_assoc (read_quoted-escaped (codes v) rest h))

abbrev pub IsPlain : ℕ → Type 0
IsPlain c = (is_numeric_char c ≡ true) ⊎ (c ≡ b'N') ⊎ (c ≡ b'U') ⊎ (c ≡ b'L')

all-IsPlain : (s : List ℕ) → all is_numeric_char s ≡ true → All IsPlain s
all-IsPlain [] h = tt
all-IsPlain (c ∷ s) h = (inl (ground arith), all-IsPlain s (ground arith))

null-IsPlain : All IsPlain (codes "NULL")
null-IsPlain =
    (inr (inl refl), (inr (inr (inl refl)), (inr (inr (inr refl)), (inr (inr (inr refl)), tt))))

number-IsPlain : (s : List ℕ) → All IsPlain (if is_numeric s then s else codes "NULL")
number-IsPlain [] = null-IsPlain
number-IsPlain (c ∷ s) = elim (Bool-cases (is_numeric (c ∷ s))) [
  | inl e ↦ rw e (all-IsPlain (c ∷ s) e)
  | inr e ↦ rw e null-IsPlain
]

bit-IsPlain : (b : Bool) → All IsPlain (if b then codes "1" else codes "0")
bit-IsPlain true = (inl refl, tt)
bit-IsPlain false = (inl refl, tt)

-- The default of a column of another type holds digits, dots, minus signs and the word NULL alone:
-- no quote, comma, semicolon, parenthesis or space.
pub sql_literal-IsPlain :
    (t : ColumnType) (v : String)
    → (t ≡ column_type_integer) ⊎ (t ≡ column_type_real) ⊎ (t ≡ column_type_boolean)
    → All IsPlain (sql_literal t v)
unfolding sql_literal
sql_literal-IsPlain t v h = elim (Bool-cases (t == column_type_boolean)) [
  | inl e ↦ rw e (bit-IsPlain (v == "true" || v == "1"))
  | inr e ↦
      let number : (t == column_type_integer || t == column_type_real) ≡ true = ground (
        arith,
        h,
        eq_iff t column_type_integer,
        eq_iff t column_type_real,
        eq_iff t column_type_boolean,
      ) in
      rw e (rw number (number-IsPlain (trim_space (codes v))))
]
