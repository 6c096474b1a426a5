-- ===== src/Storage.antt =====
-- internal/storage/local.go: objects as files below a base path.
pub mod Paths
pub mod Files
pub mod Removing
mod Tests
use flagbase.Prelude.{
  ℕ, Bool, true, false, not, ◌&&◌, ◌||◌, List, [], ◌∷◌, ◌++◌, map, any, keep, Option, none, some,
  if◌then◌else◌,
}
use flagbase.Text.{codes, same_codes}
use flagbase.Db.{
  driver, object_not_found, Result, ok, err, Op, pure, raise, ignore, statement, query, execute,
  ◌>>=◌, ◌>>◌,
}
use flagbase.Sorting.{Sorting, leb_codes}
use flagbase.Storage.Paths.{Segment, CleanPath, join_paths}

abbrev pub same_stack : List Segment → List Segment → Bool
same_stack [] [] = true
same_stack [] (t ∷ ts) = false
same_stack (s ∷ ss) [] = false
same_stack (s ∷ ss) (t ∷ ts) = same_codes s t && same_stack ss ts

abbrev pub same_path : CleanPath → CleanPath → Bool
same_path p q = (if p.rooted then q.rooted else not q.rooted) && same_stack p.stack q.stack

-- The file system, as far as the adapter looks at it.
pub record Disk : Type 0 where
  pub files : List (CleanPath × List ℕ)
  pub dirs : List CleanPath

abbrev pub file_at : CleanPath → List (CleanPath × List ℕ) → Option (List ℕ)
file_at p [] = none
file_at p ((q, c) ∷ fs) = if same_path q p then some c else file_at p fs

abbrev pub is_file : CleanPath → Disk → Bool
is_file p d = any (λ f. same_path f.0 p) d.files

abbrev pub is_dir : CleanPath → Disk → Bool
is_dir p d = any (λ q. same_path q p) d.dirs

abbrev pub tail_of : List Segment → List Segment
tail_of [] = []
tail_of (s ∷ st) = st

-- filepath.Dir
abbrev pub parent : CleanPath → CleanPath
parent p = record p { stack = tail_of p.stack }

-- A directory and those above it.
abbrev pub upwards : Bool → List Segment → List CleanPath
upwards r [] = record { rooted = r; stack = [] } ∷ []
upwards r (s ∷ st) = record { rooted = r; stack = s ∷ st } ∷ upwards r st

-- os.MkdirAll
unfoldable pub mkdir_all : CleanPath → Disk → Result (Unit {0} × Disk)
mkdir_all p d =
    if any (λ q. is_file q d) (upwards p.rooted p.stack)
    then err driver
    else ok
        (tt, record d { dirs = d.dirs ++ keep (λ q. not (is_dir q d)) (upwards p.rooted p.stack) })

abbrev pub set_file : CleanPath → List ℕ → List (CleanPath × List ℕ) → List (CleanPath × List ℕ)
set_file p c [] = (p, c) ∷ []
set_file p c ((q, b) ∷ fs) =
    let rest = set_file p c fs in if same_path q p then (q, c) ∷ fs else (q, b) ∷ rest

-- os.Create, which empties a file that is there.
unfoldable pub create_file : CleanPath → Disk → Result (Unit {0} × Disk)
create_file p d =
    if is_dir p d || not (is_dir (parent p) d)
    then err driver
    else ok (tt, record d { files = set_file p [] d.files })

-- io.Copy to the file
unfoldable pub write_file : CleanPath → List ℕ → Disk → Disk
write_file p c d = record d { files = set_file p c d.files }

-- os.Open and the reading of the file
unfoldable pub read_file : CleanPath → Disk → Result (List ℕ × Disk)
read_file p d = elim (file_at p d.files) [
  | none ↦ if is_dir p d then err driver else err object_not_found
  | some c ↦ ok (c, d)
]

abbrev pub starts_with : List Segment → List Segment → Bool
starts_with dir [] = same_stack dir []
starts_with dir (s ∷ st) = same_stack dir (s ∷ st) || starts_with dir st

-- The path is the directory or lies below it.
abbrev pub is_below : CleanPath → CleanPath → Bool
is_below dir p = (if dir.rooted then p.rooted else not p.rooted) && starts_with dir.stack p.stack

-- os.Remove: a file, or a directory with nothing in it; a path that is not there is passed over.
unfoldable pub remove : CleanPath → Disk → Result (Unit {0} × Disk)
remove p d =
    if is_file p d
    then ok (tt, record d { files = keep (λ f. not (same_path f.0 p)) d.files })
    else if any (λ f. is_below p f.0) d.files
        || any (λ q. is_below p q && not (same_path q p)) d.dirs
    then err driver
    else ok (tt, record d { dirs = keep (λ q. not (same_path q p)) d.dirs })

-- os.RemoveAll
unfoldable pub remove_all : CleanPath → Disk → Disk
remove_all p d = record {
  files = keep (λ f. not (is_below p f.0)) d.files;
  dirs = keep (λ q. not (is_below p q)) d.dirs;
}

-- The name of an entry right in a directory.
abbrev pub entry_names : CleanPath → List CleanPath → List Segment
entry_names dir [] = []
entry_names dir (p ∷ ps) =
    let rest = entry_names dir ps in
    elim p.stack [
      | [] ↦ rest
      | s ∷ st ↦ if same_path (record p { stack = st }) dir then s ∷ rest else rest
    ]

-- `published` is what the bus has been given: bucket and object; none where there is no bus.
pub record Storage : Type 0 where
  pub disk : Disk
  pub published : Option (List (List ℕ × List ℕ))

abbrev pub on_disk : {A : Type 0} → (Disk → Result (A × Disk)) → Op Storage A
on_disk f =
    statement (λ s. elim (f s.disk) [ err e ↦ err e | ok (a, d) ↦ ok (a, record s { disk = d }) ])

unfoldable pub is_system_bucket : List ℕ → Bool
is_system_bucket bucket =
    same_codes bucket (codes "functions") || same_codes bucket (codes "frontends")

-- The event of a new object; that it is not published is no error.
abbrev pub publish : List ℕ → List ℕ → Storage → Storage
publish bucket name s = elim s.published [
  | none ↦ s
  | some ms ↦ record s { published = some (ms ++ (bucket, name) ∷ []) }
]

abbrev pub announce_object : List ℕ → List ℕ → Op Storage (Unit {0})
announce_object bucket name =
    if is_system_bucket bucket then pure tt else ignore (execute (publish bucket name))

module _ (base : List ℕ) where
  abbrev pub object_path : List ℕ → List ℕ → CleanPath
  object_path bucket name = join_paths (base ∷ bucket ∷ name ∷ [])

  unfoldable pub put_object : List ℕ → List ℕ → List ℕ → Op Storage (Unit {0})
  unfolding mkdir_all create_file write_file is_system_bucket
  put_object bucket name content = do
    let p = object_path bucket name
    on_disk (mkdir_all (parent p))
    on_disk (create_file p)
    on_disk (λ d. ok (tt, write_file p content d))
    announce_object bucket name

  unfoldable pub get_object : List ℕ → List ℕ → Op Storage (List ℕ)
  unfolding read_file
  get_object bucket name = on_disk (read_file (object_path bucket name))

  unfoldable pub delete_object : List ℕ → List ℕ → Op Storage (Unit {0})
  unfolding remove
  delete_object bucket name = on_disk (remove (object_path bucket name))

  abbrev pub bucket_path : List ℕ → CleanPath
  bucket_path bucket = join_paths (base ∷ bucket ∷ [])

  -- A directory that is not there has no entries; a file is no directory.
  abbrev pub list_entries : CleanPath → (Disk → List Segment) → Disk → Result (List Segment × Disk)
  list_entries p f d =
      if is_dir p d then ok (f d, d) else if is_file p d then err driver else ok ([], d)

  unfoldable pub list_objects : Sorting → List ℕ → Op Storage (List Segment)
  list_objects order bucket = on_disk (
      list_entries (bucket_path bucket) (λ d.
        order.sort Segment leb_codes (entry_names (bucket_path bucket) (map (λ f. f.0) d.files))))

  unfoldable pub list_buckets : Sorting → Op Storage (List Segment)
  list_buckets order = on_disk (
      list_entries (join_paths (base ∷ []))
        (λ d. order.sort Segment leb_codes (entry_names (join_paths (base ∷ [])) d.dirs)))

  unfoldable pub create_bucket : List ℕ → Op Storage (Unit {0})
  unfolding mkdir_all
  create_bucket bucket = on_disk (mkdir_all (bucket_path bucket))

  unfoldable pub delete_bucket : List ℕ → Op Storage (Unit {0})
  unfolding remove_all
  delete_bucket bucket = on_disk (λ d. ok (tt, remove_all (bucket_path bucket) d))
