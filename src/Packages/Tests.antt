-- ===== src/Packages/Tests.antt =====
-- Runs of internal/packages/packages.go at small inputs.
use flagbase.Prelude.{
  ℕ, String, true, false, ◌≡◌, ◌≢◌, refl, List, [], ◌∷◌, arith, eq_iff, Option, none, some,
}
use flagbase.Text.{codes, split, contains, has_prefix, trim_prefix}
use flagbase.Db.{Error, Session, Result, ok, statement, draw}
use flagbase.Db.Ensures.{Ensures}
use flagbase.Ids.{new_id, encode_to_string}
use flagbase.Sorting.Insertion.{insertion}
use flagbase.Storage.{
  mkdir_all, create_file, write_file, read_file, remove, is_system_bucket, put_object, get_object,
  delete_object,
}
use flagbase.Storage.Paths.{clean}
use flagbase.Packages.{
  Task, Registry, get, request, approve, list_available, delete, load_bundle, load_types,
  bundle_task,
}
use flagbase.Packages.Fetching.{Meta, fetch_bundle, fetch_types}
use flagbase.Packages.Approval.{
  offered, Event, approves, deletes, bundles, happen_all, happen_all-offered,
}

abbrev registry : Registry
registry = record {
  packages = [];
  storage = record {
    disk = record { files = []; dirs = record { rooted = true; stack = [] } ∷ [] };
    published = none;
  };
  tasks = [];
}

abbrev session : Session Registry
session = record { state = registry; faults = []; draws = some (1 ∷ []) ∷ [] }

abbrev base : List ℕ
base = codes "/d"

abbrev describe : Error → String
describe e = "failed"

-- A network that answers each request with the same text.
abbrev http_get : List ℕ → Result (List ℕ)
http_get url = ok (codes "declare")

abbrev decode : List ℕ → Option Meta
decode s = none

abbrev bundle : Task → Result (List ℕ)
bundle = fetch_bundle http_get decode

abbrev types : Task → Result (List ℕ)
types = fetch_types http_get decode

abbrev task : Task
task = record { id = "01"; name = "left-pad"; version = "1.0.0" }

-- What a run looks into.
running : Unit {0}
unfolding request approve get list_available delete load_bundle load_types bundle_task fetch_bundle
    fetch_types put_object get_object delete_object mkdir_all create_file write_file read_file
    remove is_system_bucket clean split contains has_prefix trim_prefix statement draw new_id
    encode_to_string insertion
running = tt

abbrev requested : Session Registry
requested = (request 5 "left-pad" "1.0.0" "ann" session).1

abbrev approved : Session Registry
approved = (approve 6 "01" "root" requested).1

abbrev bundled : Session Registry
bundled = (bundle_task base describe bundle types task approved).1

not_yet : offered "01" approved.state ≡ false
unfolding running
not_yet = refl

now_offered : offered "01" bundled.state ≡ true
unfolding running
now_offered = refl

loads : (load_bundle base "01" bundled).0 ≡ ok (codes "declare")
unfolding running
loads = refl

other : ◌≢◌ {A = String} "02" "01"
other = ground (arith, eq_iff "02" "01")

abbrev history : List (Event base describe bundle types "01")
history =
    approves 7 "01" "root"
    ∷ bundles (record { id = "02"; name = "x"; version = "1" })
    ∷ deletes "02"
    ∷ []

happen_all-offered_example :
    Ensures requested.state
      (happen_all base describe bundle types "01" history)
      (λ _ u. offered "01" u ≡ false)
      (λ _ u. offered "01" u ≡ false)
unfolding running
happen_all-offered_example =
    happen_all-offered base describe bundle types "01" history requested.state
      (tt, (other, (tt, tt))) refl
