-- ===== src/Function/Numbering.antt =====
-- internal/function/store.go, createVersion: how versions are numbered.
use flagbase.Prelude.{
  Some, ℕ, ◌+◌, Bool, true, ◌<◌, String, ◌≡◌, refl, ◌⊎◌, List, [], ◌∷◌, ◌++◌, All, arith,
}
use flagbase.Db.{driver, Result, ok, err}
use flagbase.Db.Ensures.{Ensures, by_pure, by_statement, by_tried}
use flagbase.Ids.{encode_to_string}
use flagbase.Ids.Laws.{by_new_id}
use flagbase.Function.{FunctionVersion, Site, insert_version, max_version}
use flagbase.Function.Source.{Codec, compress_source, decompress_source}
use flagbase.Function.Store.{
  or_zero, or_blank, created_of, source_of, dated, record_version, numbered_from, create_version,
}

-- Each version of the function in the list has a smaller number.
abbrev pub Above : String → ℕ → List FunctionVersion → Type 0
Above function_id n vs = All (λ w. w.function_id ≡ function_id → w.version < n) vs

insert_version-rows :
    (v : FunctionVersion) (t u : Site) {a : Unit {0}}
    → insert_version v t ≡ ok (a, u)
    → (u.function_versions ≡ t.function_versions ++ v ∷ []) × (u.storage ≡ t.storage)
insert_version-rows v t u h = ground arith

-- The next number of a function: above all of its versions, and 1 or one more than one of theirs.
abbrev pub IsNext : String → ℕ → List FunctionVersion → Type 0
IsNext function_id n vs =
    Above function_id n vs
    × ((n ≡ 1) ⊎ Some (λ w. (w.function_id ≡ function_id) × (w.version + 1 ≡ n)) vs)

-- The number of a new version: the next one, or 1 where the query for the highest, which is the
-- first call, fails.
abbrev pub Numbered : List Bool → String → List FunctionVersion → ℕ → Type 0
Numbered faults function_id vs n =
    IsNext function_id n vs ⊎ ((n ≡ 1) × ((rest : List Bool) × (faults ≡ true ∷ rest)))

module _ (codec : Codec) where
  -- What a version is once it is recorded, with a number that suits.
  abbrev pub Recorded : (ℕ → Type 0) → ℕ → Site → FunctionVersion → Site → Type 0
  Recorded Suits now t v u =
      Suits v.version
      × (u.function_versions
          ≡ t.function_versions
            ++ record v { source = compress_source codec v.source; created_at = now } ∷ [])
      × (u.storage ≡ t.storage)

  record_version-Recorded :
      (Suits : ℕ → Type 0) (now : ℕ) (function_id id : String) (number : ℕ)
      (stored : Result (List ℕ)) (t : Site)
      → Suits number
      → Ensures t
          (record_version codec now function_id id number stored)
          (Recorded Suits now t)
          (λ _ u. u ≡ t)
  record_version-Recorded Suits now function_id id number stored t h =
      by_statement _ refl (λ _ _. refl)
        λ _ u k.
          let rows = insert_version-rows _ t u k in
          by_tried (dated codec version) (created_of codec id) (by_pure _ (h, rows.0, rows.1))
            (by_pure _ (h, rows.0, rows.1))
    where
      version : FunctionVersion
      version = record {
        id = id;
        function_id = function_id;
        version = number;
        source = decompress_source codec (or_blank stored);
        created_at = 0;
      }

  numbered_from-Recorded :
      (Suits : ℕ → Type 0) (now : ℕ) (function_id : String) (highest : Result ℕ) (t : Site)
      → Suits (or_zero highest + 1)
      → Ensures t
          (numbered_from codec now function_id highest)
          (Recorded Suits now t)
          (λ _ u. u ≡ t)
  numbered_from-Recorded Suits now function_id highest t h = by_new_id _ refl λ b.
      let id = encode_to_string b in
      let number = or_zero highest + 1 in
      by_tried (record_version codec now function_id id number) (source_of codec function_id)
        (record_version-Recorded Suits now function_id id number
          (ok (source_of codec function_id t)) t h)
        (record_version-Recorded Suits now function_id id number (err driver) t h)

  -- Whatever its number.
  pub create_version-Recorded :
      (now : ℕ) (function_id : String) (t : Site)
      → Ensures t
          (create_version codec now function_id)
          (Recorded (λ _. Unit {0}) now t)
          (λ _ u. u ≡ t)
  unfolding create_version
  create_version-Recorded now function_id t =
      by_tried (numbered_from codec now function_id)
        (λ x. max_version function_id x.function_versions)
        (numbered_from-Recorded _ now function_id (ok (max_version function_id t.function_versions))
          t tt)
        (numbered_from-Recorded _ now function_id (err driver) t tt)
