-- ===== src/Storage/Tests.antt =====
-- Runs of internal/storage/local.go at small inputs.
use flagbase.Prelude.{ℕ, true, ◌≡◌, refl, List, [], ◌∷◌, some}
use flagbase.Text.{codes, split}
use flagbase.Db.{Session, ok, statement, ◌>>◌}
use flagbase.Db.Ensures.{Ensures}
use flagbase.Storage.{
  Storage, mkdir_all, create_file, write_file, read_file, remove, is_system_bucket, object_path,
  put_object, get_object, delete_object,
}
use flagbase.Storage.Paths.{clean}
use flagbase.Storage.Files.{Others, get_object-put_object}

abbrev pub empty_storage : Storage
empty_storage = record {
  disk = record { files = []; dirs = record { rooted = true; stack = [] } ∷ [] };
  published = some [];
}

abbrev session : Session Storage
session = record { state = empty_storage; faults = []; draws = [] }

-- What a run looks into.
running : Unit {0}
unfolding put_object get_object delete_object mkdir_all create_file write_file read_file remove
    is_system_bucket clean split statement
running = tt

abbrev data_dir : List ℕ
data_dir = codes "/data"

abbrev stored : Session Storage
stored = (put_object data_dir (codes "pics") (codes "a") (7 ∷ 8 ∷ []) session).1

reads_back : (get_object data_dir (codes "pics") (codes "a") stored).0 ≡ ok (7 ∷ 8 ∷ [])
unfolding running
reads_back = refl

announced : stored.state.published ≡ some ((codes "pics", codes "a") ∷ [])
unfolding running
announced = refl

-- A name with two dots leaves the base path.
escapes : object_path data_dir (codes "pics") (codes "../../etc/a") ≡ clean (codes "/etc/a")
unfolding running
escapes = refl

removed : (delete_object data_dir (codes "pics") (codes "a") stored).1.state.disk.files ≡ []
unfolding running
removed = refl

get_object-put_object_example :
    Ensures empty_storage
      (put_object data_dir (codes "pics") (codes "a") (7 ∷ 8 ∷ [])
        >> get_object data_dir (codes "pics") (codes "a"))
      (λ c u.
        (c ≡ 7 ∷ 8 ∷ []) × Others (object_path data_dir (codes "pics") (codes "a")) empty_storage u)
      (λ _ u. Others (object_path data_dir (codes "pics") (codes "a")) empty_storage u)
get_object-put_object_example =
    get_object-put_object data_dir (codes "pics") (codes "a") (7 ∷ 8 ∷ []) empty_storage
