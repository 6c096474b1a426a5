-- ===== src/Packages/Fetching.antt =====
-- internal/packages/packages.go: where bundles and type definitions come from.
use flagbase.Prelude.{ℕ, List, [], ◌∷◌, ◌++◌, Option, none, some, if◌then◌else◌}
use flagbase.Text.{codes, contains, trim_prefix}
use flagbase.Db.{http_failed, no_types, Result, ok, err}
use flagbase.Packages.{Task}

-- The fields of package.json that name the type definitions; none where it does not decode.
pub record Meta : Type 0 where
  pub types : List ℕ
  pub typings : List ℕ

abbrev pub cdn : List ℕ
cdn = codes "https://cdn.jsdelivr.net/npm/"

abbrev pub at_version : Task → List ℕ
at_version t = cdn ++ codes t.name ++ codes "@" ++ codes t.version

abbrev pub or_typings : Meta → List ℕ
or_typings m = elim m.types [ [] ↦ m.typings | c ∷ cs ↦ c ∷ cs ]

-- `http_get` is httpGet on the network, `decode` is json.Unmarshal.
module _ (http_get : List ℕ → Result (List ℕ)) (decode : List ℕ → Option Meta) where
  abbrev pub not_blank : Result (List ℕ) → Result (List ℕ)
  not_blank (ok []) = err http_failed
  not_blank (ok (c ∷ cs)) = ok (c ∷ cs)
  not_blank (err e) = err e

  unfoldable pub fetch_bundle : Task → Result (List ℕ)
  fetch_bundle task = not_blank (http_get (at_version task))

  -- A body that declares something, or the next attempt.
  abbrev pub declared : Result (List ℕ) → Result (List ℕ) → Result (List ℕ)
  declared (err e) other = other
  declared (ok dts) other = if contains dts (codes "declare") then ok dts else other

  abbrev pub types_at : Task → List ℕ → Result (List ℕ) → Result (List ℕ)
  types_at task [] other = other
  types_at task (c ∷ cs) other =
      declared (http_get (at_version task ++ codes "/" ++ trim_prefix (c ∷ cs) (codes "./"))) other

  abbrev pub types_in : Task → Option Meta → Result (List ℕ) → Result (List ℕ)
  types_in task none other = other
  types_in task (some m) other = types_at task (or_typings m) other

  abbrev pub types_by : Task → Result (List ℕ) → Result (List ℕ) → Result (List ℕ)
  types_by task (err e) other = other
  types_by task (ok []) other = other
  types_by task (ok (c ∷ cs)) other = types_in task (decode (c ∷ cs)) other

  unfoldable pub fetch_types : Task → Result (List ℕ)
  unfolding contains trim_prefix
  fetch_types task = types_by task (http_get (at_version task ++ codes "/package.json")) (
      declared (http_get (at_version task ++ codes "/index.d.ts")) (
        declared (http_get (cdn ++ codes "@types/" ++ codes task.name ++ codes "/index.d.ts"))
          (err no_types)))
