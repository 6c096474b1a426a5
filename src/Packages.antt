-- ===== src/Packages.antt =====
-- internal/packages/packages.go: packages that JavaScript functions may require.
pub mod Fetching
pub mod Approval
mod Tests
use Prim.Native.String.{◌++◌ as ◌<>◌}
use flagbase.Prelude.{
  ℕ, String, Bool, true, false, not, ◌&&◌, ◌||◌, List, [], ◌∷◌, ◌++◌, map, first, any, keep,
  update_where, leb, length, Option, none, some, ◌==◌, if◌then◌else◌,
}
use flagbase.Text.{codes}
use flagbase.Db.{
  Error, unique, package_not_found, package_exists, name_required, object_not_found, Result, ok,
  err, Op, pure, raise, lift, require, modify, renamed, zoom, statement, execute, query, ignore,
  attempt, ◌>>=◌, ◌>>◌,
}
use flagbase.Ids.{new_id}
use flagbase.Sorting.{Sorting, leb_text}
use flagbase.Storage.{Storage, put_object, get_object, delete_object}

-- A row of packages.
pub record PackageRow : Type 0 where
  pub id : String
  pub name : String
  pub version : String
  pub status : String
  pub error : String
  pub bundle_size : ℕ
  pub requested_by : String
  pub approved_by : Option String
  pub requested_at : ℕ
  pub approved_at : Option ℕ

pub record Package : Type 0 where
  pub id : String
  pub name : String
  pub version : String
  pub status : String
  pub error : String
  pub bundle_size : ℕ
  pub requested_by : String
  pub approved_by : String
  pub requested_at : ℕ
  pub approved_at : Option ℕ

-- The goroutine of an approval, with the package that it has read.
pub record Task : Type 0 where
  pub id : String
  pub name : String
  pub version : String

-- `tasks` are the goroutines that have been started.
pub record Registry : Type 0 where
  pub packages : List PackageRow
  pub storage : Storage
  pub tasks : List Task

abbrev pub on_storage : {A : Type 0} → Op Storage A → Op Registry A
on_storage = zoom (λ t. t.storage) (λ s t. record t { storage = s })

abbrev pub packages_bucket : List ℕ
packages_bucket = codes "packages"

abbrev pub or_empty : Option String → String
or_empty none = ""
or_empty (some s) = s

abbrev pub package_of : PackageRow → Package
package_of p = record {
  id = p.id;
  name = p.name;
  version = p.version;
  status = p.status;
  error = p.error;
  bundle_size = p.bundle_size;
  requested_by = p.requested_by;
  approved_by = or_empty p.approved_by;
  requested_at = p.requested_at;
  approved_at = p.approved_at;
}

abbrev pub insert_package : PackageRow → Registry → Result (Unit {0} × Registry)
insert_package p t =
    if any (λ q. q.id == p.id || (q.name == p.name && q.version == p.version)) t.packages
    then err unique
    else ok (tt, record t { packages = t.packages ++ p ∷ [] })

abbrev pub update_packages : String → (PackageRow → PackageRow) → Registry → Registry
update_packages id f t = record t { packages = update_where (λ p. p.id == id) f t.packages }

abbrev pub delete_package : String → Registry → Registry
delete_package id t = record t { packages = keep (λ p. not (p.id == id)) t.packages }

abbrev pub package_with : String → Registry → Option Package
package_with id t = elim (first (λ p. p.id == id) t.packages) [
  | none ↦ none
  | some p ↦ some (package_of p)
]

unfoldable pub get : String → Op Registry (Option Package)
get id = query (package_with id)

abbrev pub newest : PackageRow → PackageRow → Bool
newest p q = leb q.requested_at p.requested_at

abbrev pub by_name : PackageRow → PackageRow → Bool
by_name p q = leb_text p.name q.name

abbrev pub is_available : PackageRow → Bool
is_available p = p.status == "available"

unfoldable pub list : Sorting → Op Registry (List Package)
list order = query (λ t. map package_of (order.sort PackageRow newest t.packages))

unfoldable pub list_available : Sorting → Op Registry (List Package)
list_available order =
    query (λ t. map package_of (order.sort PackageRow by_name (keep is_available t.packages)))

unfoldable pub request : ℕ → String → String → String → Op Registry (Option Package)
unfolding new_id get
request now name version requested_by = do
  require (not (name == "" || version == "")) name_required
  id ← new_id
  renamed package_exists (
      statement (
        insert_package (record {
          id = id;
          name = name;
          version = version;
          status = "pending";
          error = "";
          bundle_size = 0;
          requested_by = requested_by;
          approved_by = none;
          requested_at = now;
          approved_at = none;
        })))
  get id

-- `go func() { ... }()`
abbrev pub spawn : Task → Registry → Registry
spawn task t = record t { tasks = t.tasks ++ task ∷ [] }

abbrev pub approve_found : ℕ → String → String → Option Package → Op Registry (Option Package)
approve_found now id approved_by none = raise package_not_found
approve_found now id approved_by (some pkg) = do
  execute (
      update_packages id (λ p. record p {
        status = "bundling";
        approved_by = some approved_by;
        approved_at = some now;
      }))
  modify (spawn (record { id = id; name = pkg.name; version = pkg.version }))
  get id

unfoldable pub approve : ℕ → String → String → Op Registry (Option Package)
unfolding get
approve now id approved_by = do pkg ← get id; approve_found now id approved_by pkg

module _ (base : List ℕ) where
  unfoldable pub delete : String → Op Registry (Unit {0})
  unfolding delete_object
  delete id = do
    ignore (on_storage (delete_object base packages_bucket (codes (id <> ".js"))))
    ignore (on_storage (delete_object base packages_bucket (codes (id <> ".d.ts"))))
    execute (delete_package id)

  unfoldable pub load_bundle : String → Op Registry (List ℕ)
  unfolding get_object
  load_bundle id = on_storage (get_object base packages_bucket (codes (id <> ".js")))

  abbrev pub or_none : Result (List ℕ) → Op Registry (List ℕ)
  or_none (ok dts) = pure dts
  or_none (err object_not_found) = pure []
  or_none (err e) = raise e

  -- No types are no error.
  unfoldable pub load_types : String → Op Registry (List ℕ)
  unfolding get_object
  load_types id =
      attempt (on_storage (get_object base packages_bucket (codes (id <> ".d.ts")))) or_none

  -- `describe` is the text of an error; `fetch_bundle` and `fetch_types` are below.
  module _ (describe : Error → String) (fetch_bundle fetch_types : Task → Result (List ℕ)) where
    abbrev pub failed : Task → String → Op Registry (Unit {0})
    failed task message =
        ignore
          (execute (update_packages task.id (λ p. record p { status = "error"; error = message })))

    abbrev pub store_types : Task → Result (List ℕ) → Op Registry (Unit {0})
    store_types task (err e) = pure tt
    store_types task (ok dts) =
        ignore (on_storage (put_object base packages_bucket (codes (task.id <> ".d.ts")) dts))

    abbrev pub bundle_stored : Task → List ℕ → Result (Unit {0}) → Op Registry (Unit {0})
    bundle_stored task bundle (err e) = failed task ("storing bundle: " <> describe e)
    bundle_stored task bundle (ok u) = do
      ignore (
          execute (
            update_packages task.id
              (λ p. record p { status = "available"; bundle_size = length bundle })))
      store_types task (fetch_types task)

    abbrev pub bundle_fetched : Task → Result (List ℕ) → Op Registry (Unit {0})
    bundle_fetched task (err e) = failed task (describe e)
    bundle_fetched task (ok bundle) =
        attempt (on_storage (put_object base packages_bucket (codes (task.id <> ".js")) bundle))
          (bundle_stored task bundle)

    -- The goroutine of an approval.
    unfoldable pub bundle_task : Task → Op Registry (Unit {0})
    unfolding put_object
    bundle_task task = bundle_fetched task (fetch_bundle task)
