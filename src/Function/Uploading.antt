-- ===== src/Function/Uploading.antt =====
-- internal/function/store.go, Upload: what is stored for a function that is ready.
use Prim.Native.String.{◌++◌ as ◌<>◌}
use flagbase.Prelude.{
  ℕ, String, true, ◌≡◌, ◌≢◌, refl, ap, ◌∙◌, List, [], arith, eq_iff, Option, some,
}
use flagbase.Text.{codes}
use flagbase.Db.{Error, bad_artifact, ok, pure, ignore, attempt, ◌>>◌}
use flagbase.Db.Ensures.{
  Ensures, by_pure, by_bind, by_consequence, by_require, by_statement, by_attempt, by_zoom,
  by_ignore, last_execute,
}
use flagbase.Ids.{encode_to_string}
use flagbase.Ids.Laws.{by_new_id}
use flagbase.Storage.{Storage, file_at, object_path}
use flagbase.Storage.Paths.{CleanPath}
use flagbase.Storage.Files.{put_object_sets}
use flagbase.Function.{Function, Site}
use flagbase.Function.Source.{Codec}
use flagbase.Function.Store.{
  language_go, runtime_wasm, functions_bucket, artifact_ext, is_wasm, insert, update_status,
  create_version, broken, stored_artifact, put_artifact, upload,
}
use flagbase.Function.Numbering.{create_version-Recorded}

error_not_ready : ◌≢◌ {A = String} "error" "ready"
error_not_ready = ground (arith, eq_iff "error" "ready")

module _ (codec : Codec) (describe : Error → String) (parse : List ℕ → Option Error)
    (base : List ℕ) where
  -- Where an invocation looks for the binary.
  abbrev pub path_of : Function → CleanPath
  path_of fn = object_path base functions_bucket (codes (fn.id <> ".wasm"))

  -- If the function is ready, its artifact is the file that an invocation loads.
  abbrev pub Stored : List ℕ → Function → Site → Type 0
  Stored bytes fn u = fn.status ≡ "ready" → file_at (path_of fn) u.storage.disk.files ≡ some bytes

  update_status-storage :
      (now : ℕ) (id status message runtime : String) (t : Site)
      → Ensures t
          (ignore (update_status now id status message runtime))
          (λ _ u. u.storage ≡ t.storage)
          (λ _ _. ⊥)
  unfolding update_status
  update_status-storage now id status message runtime t = by_ignore (last_execute _ refl refl)

  broken-Stored :
      (now : ℕ) (fn : Function) (message : String) (bytes : List ℕ) (t : Site)
      → Ensures t
          (broken codec describe parse base now fn message)
          (λ f u. Stored bytes f u)
          (λ _ _. ⊥)
  broken-Stored now fn message bytes t =
      by_bind _ (update_status-storage now fn.id "error" message "" t) (λ _ u _.
        by_pure (record fn { status = "error"; error = message })
          (λ ready. absurd (error_not_ready ready)))

  ready-Stored :
      (now : ℕ) (fn : Function) (bytes : List ℕ) (t : Site)
      → file_at (path_of fn) t.storage.disk.files ≡ some bytes
      → Ensures t
          (stored_artifact codec describe parse base now fn
            (ignore (create_version codec now fn.id))
            (ok tt))
          (λ f u. Stored bytes f u)
          (λ _ _. ⊥)
  ready-Stored now fn bytes t h =
      by_bind
        {k = λ _. ignore (create_version codec now fn.id) >> pure (record fn { status = "ready" })}
        _ (update_status-storage now fn.id "ready" "" fn.runtime t)
        λ _ u same.
          by_bind (λ _ v. v.storage ≡ t.storage)
            (by_ignore (
              by_consequence (create_version-Recorded codec now fn.id u) (λ _ _ r. r.2 ∙ same)
                (λ _ v e. ap (λ (x : Site). x.storage) e ∙ same)))
            (λ _ v kept.
              by_pure (record fn { status = "ready" })
                (λ _. ap (λ (x : Storage). file_at (path_of fn) x.disk.files) kept ∙ h))

  -- An upload is accepted for WebAssembly alone, and a function that it gives back as ready has its
  -- bytes in the file that an invocation loads; an upload that gives an error has changed nothing.
  pub upload-Stored :
      (now : ℕ) (name description : String) (bytes : List ℕ) (t : Site)
      → Ensures t
          (upload codec describe parse base now name description bytes)
          (λ f u. (is_wasm bytes ≡ true) × Stored bytes f u)
          (λ _ u. u ≡ t)
  unfolding upload insert artifact_ext
  upload-Stored now name description bytes t =
      by_require _ (is_wasm bytes) bad_artifact
        (λ wasm. by_new_id _ refl λ b.
          by_statement _ refl (λ _ _. refl)
            λ _ u _.
              by_consequence (stored (encode_to_string b) u) (λ _ _ s. (wasm, s))
                (λ _ _ e. absurd e))
        (λ _. refl)
    where
      uploaded : String → Function
      uploaded id = record {
        id = id;
        name = name;
        description = description;
        language = language_go;
        source = [];
        runtime = runtime_wasm;
        status = "ready";
        error = "";
        created_at = 0;
        updated_at = 0;
      }

      stored :
          (id : String) (u : Site)
          → Ensures u
              (attempt (put_artifact codec describe parse base (uploaded id) bytes) (
                stored_artifact codec describe parse base now
                  (uploaded id)
                  (ignore (create_version codec now id))))
              (λ f v. Stored bytes f v)
              (λ _ _. ⊥)
      stored id u =
          by_attempt
            (stored_artifact codec describe parse base now (uploaded id)
              (ignore (create_version codec now id)))
            (λ _ v. file_at (path_of (uploaded id)) v.storage.disk.files ≡ some bytes)
            (λ _ _. Unit {0})
            (by_zoom (λ (x : Site). x.storage) (λ s x. record x { storage = s })
              (by_consequence
                (put_object_sets base functions_bucket (codes (id <> ".wasm")) bytes u.storage)
                (λ _ _ h. h.0) (λ _ _ _. tt)))
            (λ _ v h. ready-Stored now (uploaded id) bytes v h)
            (λ e v _. broken-Stored now (uploaded id) (describe e) bytes v)
