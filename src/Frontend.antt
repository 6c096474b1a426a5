-- ===== src/Frontend.antt =====
-- internal/frontend/service.go: web apps, their versions, and the files of a version.
pub mod Uploads
pub mod Removal
mod Tests
use flagbase.Prelude.{
  ℕ, ◌+◌, String, Bool, true, false, not, ◌&&◌, ◌||◌, List, [], ◌∷◌, ◌++◌, map, first, any, keep,
  update_where, eqb, leb, Option, none, some, ◌==◌, if◌then◌else◌,
}
use flagbase.Text.{codes, has_prefix}
use flagbase.Db.{
  unique, foreign_key, bad_zip, empty_zip, unreadable_entry, invalid_path, Result, ok, err, Op,
  pure, raise, require, zoom, statement, execute, query, ◌>>=◌, ◌>>◌,
}
use flagbase.Ids.{new_id}
use flagbase.Sorting.{Sorting}
use flagbase.Storage.{Storage, on_disk, remove_all, put_object}
use flagbase.Storage.Paths.{dotdot, CleanPath, clean, text_of, join_paths}

-- A row of frontends.
pub record FrontendRow : Type 0 where
  pub id : String
  pub name : String
  pub slug : String
  pub description : String
  pub active_version_id : Option String
  pub created_at : ℕ
  pub updated_at : ℕ

-- `active_version_id` is empty where no version is active.
pub record Frontend : Type 0 where
  pub id : String
  pub name : String
  pub slug : String
  pub description : String
  pub active_version_id : String
  pub created_at : ℕ
  pub updated_at : ℕ

pub record FrontendVersion : Type 0 where
  pub id : String
  pub frontend_id : String
  pub label : String
  pub description : String
  pub file_count : ℕ
  pub created_at : ℕ

-- The tables of the service, and the files.
pub record Site : Type 0 where
  pub frontends : List FrontendRow
  pub frontend_versions : List FrontendVersion
  pub storage : Storage

-- An entry of an archive; `content` is none where it cannot be opened.
pub record Entry : Type 0 where
  pub name : List ℕ
  pub is_dir : Bool
  pub content : Option (List ℕ)

abbrev pub on_storage : {A : Type 0} → Op Storage A → Op Site A
on_storage = zoom (λ t. t.storage) (λ s t. record t { storage = s })

-- COALESCE(active_version_id, '')
abbrev pub or_empty : Option String → String
or_empty none = ""
or_empty (some id) = id

abbrev pub frontend_of : FrontendRow → Frontend
frontend_of f = record {
  id = f.id;
  name = f.name;
  slug = f.slug;
  description = f.description;
  active_version_id = or_empty f.active_version_id;
  created_at = f.created_at;
  updated_at = f.updated_at;
}

abbrev pub frontend_with : (FrontendRow → Bool) → Site → Option Frontend
frontend_with p t = elim (first p t.frontends) [ none ↦ none | some f ↦ some (frontend_of f) ]

-- The newest first.
abbrev pub newest : FrontendRow → FrontendRow → Bool
newest f g = leb g.created_at f.created_at

abbrev pub newest_version : FrontendVersion → FrontendVersion → Bool
newest_version v w = leb w.created_at v.created_at

abbrev pub insert_frontend : FrontendRow → Site → Result (Unit {0} × Site)
insert_frontend f t =
    if any (λ g. g.id == f.id || g.slug == f.slug) t.frontends
    then err unique
    else ok (tt, record t { frontends = t.frontends ++ f ∷ [] })

abbrev pub insert_version : FrontendVersion → Site → Result (Unit {0} × Site)
insert_version v t =
    if any (λ w. w.id == v.id) t.frontend_versions
    then err unique
    else if not (any (λ f. f.id == v.frontend_id) t.frontends)
    then err foreign_key
    else ok (tt, record t { frontend_versions = t.frontend_versions ++ v ∷ [] })

-- An UPDATE of the rows that a test holds for.
abbrev pub update_frontends : (FrontendRow → Bool) → (FrontendRow → FrontendRow) → Site → Site
update_frontends p f t = record t { frontends = update_where p f t.frontends }

-- The versions go with their frontend, by ON DELETE CASCADE.
abbrev pub delete_frontend_row : String → Site → Site
delete_frontend_row id t = record t {
  frontends = keep (λ f. not (f.id == id)) t.frontends;
  frontend_versions = keep (λ v. not (v.frontend_id == id)) t.frontend_versions;
}

abbrev pub delete_version_row : String → Site → Site
delete_version_row id t = record t {
  frontend_versions = keep (λ v. not (v.id == id)) t.frontend_versions;
}

unfoldable pub get : String → Op Site (Option Frontend)
get id = query (frontend_with (λ f. f.id == id))

unfoldable pub get_by_slug : String → Op Site (Option Frontend)
get_by_slug slug = query (frontend_with (λ f. f.slug == slug))

unfoldable pub list : Sorting → Op Site (List Frontend)
list order = query (λ t. map frontend_of (order.sort FrontendRow newest t.frontends))

unfoldable pub create : ℕ → String → String → String → Op Site (Option Frontend)
unfolding new_id get
create now name slug description = do
  id ← new_id
  statement (
      insert_frontend (record {
        id = id;
        name = name;
        slug = slug;
        description = description;
        active_version_id = none;
        created_at = now;
        updated_at = now;
      }))
  get id

unfoldable pub update : ℕ → String → String → String → Op Site (Option Frontend)
unfolding get
update now id name description = do
  execute (
      update_frontends (λ f. f.id == id)
        (λ f. record f { name = name; description = description; updated_at = now }))
  get id

-- The version is not looked up.
unfoldable pub activate_version : ℕ → String → String → Op Site (Option Frontend)
unfolding get
activate_version now frontend_id version_id = do
  execute (
      update_frontends (λ f. f.id == frontend_id)
        (λ f. record f { active_version_id = some version_id; updated_at = now }))
  get frontend_id

unfoldable pub list_versions : Sorting → String → Op Site (List FrontendVersion)
list_versions order frontend_id = query (λ t.
    order.sort FrontendVersion newest_version
      (keep (λ v. v.frontend_id == frontend_id) t.frontend_versions))

unfoldable pub get_version : String → Op Site (Option FrontendVersion)
get_version version_id = query (λ t. first (λ v. v.id == version_id) t.frontend_versions)

abbrev pub is_active_version : String → FrontendRow → Bool
is_active_version version_id f = elim f.active_version_id [
  | none ↦ false
  | some id ↦ id == version_id
]

-- `base` is the base path of the storage.
module _ (base : List ℕ) where
  abbrev pub version_dir : String → String → CleanPath
  version_dir frontend_id version_id =
      join_paths (base ∷ codes "frontends" ∷ codes frontend_id ∷ codes version_id ∷ [])

  unfoldable pub delete_version_files : String → String → Op Site (Unit {0})
  unfolding remove_all
  delete_version_files frontend_id version_id =
      on_storage (on_disk (λ d. ok (tt, remove_all (version_dir frontend_id version_id) d)))

  unfoldable pub delete_version : ℕ → String → String → Op Site (Unit {0})
  unfolding delete_version_files
  delete_version now frontend_id version_id = do
    delete_version_files frontend_id version_id
    execute (delete_version_row version_id)
    execute (
        update_frontends (λ f. f.id == frontend_id && is_active_version version_id f)
          (λ f. record f { active_version_id = none; updated_at = now }))

  abbrev pub delete_files_of : String → List FrontendVersion → Op Site (Unit {0})
  delete_files_of id [] = pure tt
  delete_files_of id (v ∷ vs) = do delete_version_files id v.id; delete_files_of id vs

  unfoldable pub delete : Sorting → String → Op Site (Unit {0})
  unfolding list_versions delete_version_files
  delete order id = do
    versions ← list_versions order id
    delete_files_of id versions
    execute (delete_frontend_row id)

  -- The name of the object that an entry is stored as.
  abbrev pub object_name : String → String → List ℕ → List ℕ
  object_name frontend_id version_id clean_name =
      codes frontend_id ++ (b'/' ∷ (codes version_id ++ (b'/' ∷ clean_name)))

  abbrev pub store_content : String → String → List ℕ → Option (List ℕ) → ℕ → Op Site ℕ
  store_content frontend_id version_id clean_name none count = raise unreadable_entry
  store_content frontend_id version_id clean_name (some content) count = do
    on_storage (
        put_object base (codes "frontends") (object_name frontend_id version_id clean_name) content)
    pure (count + 1)

  -- One pass of the loop over the entries, with the guard against names that go up.
  abbrev pub store_entry : String → String → Entry → ℕ → Op Site ℕ
  store_entry frontend_id version_id f count =
      if f.is_dir
      then pure count
      else if has_prefix (text_of (clean f.name)) dotdot
      then raise (invalid_path f.name)
      else store_content frontend_id version_id (text_of (clean f.name)) f.content count

  unfoldable pub store_files : String → String → List Entry → ℕ → Op Site ℕ
  unfolding has_prefix text_of clean put_object
  store_files frontend_id version_id [] count = pure count
  store_files frontend_id version_id (f ∷ fs) count = do
    stored ← store_entry frontend_id version_id f count
    store_files frontend_id version_id fs stored

  abbrev pub create_from :
      ℕ → String → String → String → Option (List Entry) → Op Site (Option FrontendVersion)
  create_from now frontend_id label description none = raise bad_zip
  create_from now frontend_id label description (some files) = do
    id ← new_id
    file_count ← store_files frontend_id id files 0
    require (not (eqb file_count 0)) empty_zip
    statement (
        insert_version (record {
          id = id;
          frontend_id = frontend_id;
          label = label;
          description = description;
          file_count = file_count;
          created_at = now;
        }))
    get_version id

  -- `read_zip` is zip.NewReader with the entries of the archive it reads.
  unfoldable pub create_version :
      (List ℕ → Option (List Entry))
      → ℕ
      → String
      → String
      → String
      → List ℕ
      → Op Site (Option FrontendVersion)
  unfolding store_files get_version new_id
  create_version read_zip now frontend_id label description zip_data =
      create_from now frontend_id label description (read_zip zip_data)
