-- ===== src/Frontend/Tests.antt =====
-- Runs of internal/frontend/service.go at small inputs.
use flagbase.Prelude.{
  ℕ, true, false, ◌≡◌, ◌≢◌, refl, List, [], ◌∷◌, All, any, arith, ◌==◌, Option, none, some,
}
use flagbase.Text.{codes, split, has_prefix}
use flagbase.Db.{Session, err, statement, draw, invalid_path}
use flagbase.Db.Ensures.{Ensures}
use flagbase.Ids.{new_id, encode_to_string}
use flagbase.Storage.{
  file_at, mkdir_all, create_file, write_file, is_system_bucket, put_object, remove_all,
}
use flagbase.Storage.Paths.{clean, text_of, relative}
use flagbase.Frontend.{
  FrontendRow, Site, Entry, version_dir, create_version, store_files, get_version, delete_version,
  delete_version_files,
}
use flagbase.Frontend.Uploads.{Outside, Confined, create_version-Outside}
use flagbase.Frontend.Removal.{Cleared, delete_version-Cleared}

abbrev shop : FrontendRow
shop = record {
  id = "f1";
  name = "Shop";
  slug = "shop";
  description = "";
  active_version_id = some "01";
  created_at = 1;
  updated_at = 1;
}

abbrev site : Site
site = record {
  frontends = shop ∷ [];
  frontend_versions = [];
  storage = record {
    disk = record { files = []; dirs = record { rooted = true; stack = [] } ∷ [] };
    published = none;
  };
}

abbrev session : Session Site
session = record { state = site; faults = []; draws = some (1 ∷ []) ∷ [] }

-- An archive with one file, and one with a name that goes up.
abbrev archive : List ℕ → Option (List Entry)
archive [] = some (record { name = codes "a/../b"; is_dir = false; content = some (7 ∷ []) } ∷ [])
archive (c ∷ cs) =
    some (record { name = codes "a/../../b"; is_dir = false; content = some (7 ∷ []) } ∷ [])

abbrev base : List ℕ
base = codes "/d"

-- What a run looks into.
running : Unit {0}
unfolding create_version store_files get_version delete_version delete_version_files put_object
    mkdir_all create_file write_file remove_all is_system_bucket clean text_of relative split
    has_prefix statement draw new_id encode_to_string
running = tt

abbrev uploaded : Session Site
uploaded = (create_version base archive 5 "f1" "v" "" [] session).1

stored :
    file_at (clean (codes "/d/frontends/f1/01/b")) uploaded.state.storage.disk.files ≡ some (7 ∷ [])
unfolding running
stored = refl

refused :
    (create_version base archive 5 "f1" "v" "" (1 ∷ []) session).0
    ≡ err (invalid_path (codes "a/../../b"))
unfolding running
refused = refl

deleted : (delete_version base 6 "f1" "01" uploaded).1.state.storage.disk.files ≡ []
unfolding running
deleted = refl

based : base ≢ []
based = ground arith

create_version-Outside_example :
    Confined base "f1" session (create_version base archive 5 "f1" "v" "" [] session)
create_version-Outside_example = create_version-Outside base archive 5 "f1" "v" "" [] session based

delete_version-Cleared_example :
    Ensures site
      (delete_version base 6 "f1" "01")
      (λ _ u.
        Cleared (version_dir base "f1" "01") u
        × (any (λ v. v.id == "01") u.frontend_versions ≡ false)
        × All (λ f. f.id ≡ "f1" → f.active_version_id ≢ some "01") u.frontends
        × Outside (version_dir base "f1" "01") site u)
      (λ _ u. Outside (version_dir base "f1" "01") site u)
delete_version-Cleared_example = delete_version-Cleared base "f1" "01" 6 site
