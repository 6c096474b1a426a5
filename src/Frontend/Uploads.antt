-- ===== src/Frontend/Uploads.antt =====
-- internal/frontend/service.go, CreateVersion: which files an archive writes to.
use flagbase.Prelude.{
  ℕ, ◌+◌, Bool, true, any, first, ◌⊎◌, ◌==◌, eq_iff, String, false, not, ◌≡◌, ◌≢◌, refl, sym, ap,
  ◌∙◌, List, [], ◌∷◌, ◌++◌, eqb, inl, inr, arith, Option, none, some, Bool-cases, subst,
}
use mathlib.Core.List.{append_assoc}
use flagbase.Text.{codes, has_prefix}
use flagbase.Db.{
  bad_zip, statement, require, ok, empty_zip, unreadable_entry, invalid_path, ◌>>=◌, ◌>>◌, Error,
  entropy, Result, err, Session, draw,
}
use flagbase.Db.Ensures.{
  Holds, Ensures, by_pure, by_raise, by_bind, by_consequence, by_require, by_statement, by_zoom,
  last_query,
}
use flagbase.Ids.{encode_to_string, new_id}
use flagbase.Storage.{Storage, file_at, object_path}
use flagbase.Storage.Paths.{dotdot, CleanPath, clean, text_of}
use flagbase.Storage.Paths.Within.{IsWithin, clean-IsWithin, guarded-NoUp}
use flagbase.Storage.Files.{put_object_sets}
use flagbase.Frontend.{
  FrontendVersion, Site, Entry, insert_version, get_version, version_dir, object_name,
  store_content, store_entry, store_files, create_from, create_version,
}

-- Every file that is not in the directory or below it is as before.
abbrev pub Outside : CleanPath → Site → Site → Type 0
Outside dir t u =
    (q : CleanPath)
    → ¬ IsWithin dir q
    → file_at q u.storage.disk.files ≡ file_at q t.storage.disk.files

Outside-trans :
    (dir : CleanPath) (t u v : Site) → Outside dir t u → Outside dir u v → Outside dir t v
Outside-trans dir t u v h k q n = k q n ∙ h q n

-- That, and the table of the versions as before.
abbrev Stored : CleanPath → Site → Site → Type 0
Stored dir t u = Outside dir t u × (u.frontend_versions ≡ t.frontend_versions)

Stored-trans : (dir : CleanPath) (t u v : Site) → Stored dir t u → Stored dir u v → Stored dir t v
Stored-trans dir t u v h k = (Outside-trans dir t u v h.0 k.0, k.1 ∙ h.1)

append_three :
    (a b c d e : List ℕ)
    → a ++ (b'/' ∷ (b ++ (b'/' ∷ (c ++ (b'/' ∷ (d ++ (b'/' ∷ e)))))))
      ≡ (a ++ (b'/' ∷ (b ++ (b'/' ∷ (c ++ (b'/' ∷ d)))))) ++ (b'/' ∷ e)
append_three a b c d e = sym (
    append_assoc a _ (b'/' ∷ e)
    ∙ ap (λ l. a ++ (b'/' ∷ l))
        (append_assoc b _ (b'/' ∷ e)
          ∙ ap (λ l. b ++ (b'/' ∷ l)) (append_assoc c (b'/' ∷ d) (b'/' ∷ e))))

append-some : (a b : List ℕ) → a ≢ [] → a ++ b ≢ []
append-some [] b n = absurd (n refl)
append-some (x ∷ a) b n = ground arith

insert_version-storage :
    (w : FrontendVersion) (t u : Site) {a : Unit {0}}
    → insert_version w t ≡ ok (a, u)
    → u.storage ≡ t.storage
insert_version-storage w t u h = ground arith

insert_version-rows :
    (w : FrontendVersion) (t u : Site) {a : Unit {0}}
    → insert_version w t ≡ ok (a, u)
    → (any (λ x. x.id == w.id) t.frontend_versions ≡ false)
      × (u.frontend_versions ≡ t.frontend_versions ++ w ∷ [])
insert_version-rows w t u h = (ground arith, ground arith)

first-append :
    {A : Type 0} (p : A → Bool) (xs : List A) (y : A)
    → any p xs ≡ false
    → p y ≡ true
    → first p (xs ++ y ∷ []) ≡ some y
first-append p [] y h k = rw k refl
first-append p (x ∷ xs) y h k = ground (arith, first-append p xs y)

-- An upload that is accepted gives a version whose identifier is new in the table.
abbrev pub Accepted : List ℕ → String → String → Site → Option FrontendVersion → Site → Type 0
Accepted base frontend_id version_id t o u =
    Outside (version_dir base frontend_id version_id) t u
    × (any (λ v. v.id == version_id) t.frontend_versions ≡ false)
    × ((v : FrontendVersion) × (o ≡ some v) × (v.id ≡ version_id) × (v.frontend_id ≡ frontend_id))

module _ (base : List ℕ) (based : base ≢ []) (frontend_id version_id : String) where
  abbrev dir : CleanPath
  dir = version_dir base frontend_id version_id

  -- An object whose name passes the guard lies in the directory of the version.
  object-IsWithin :
      (name : List ℕ)
      → has_prefix (text_of (clean name)) dotdot ≡ false
      → IsWithin dir (
          object_path base
            (codes "frontends")
            (object_name base frontend_id version_id (text_of (clean name))))
  object-IsWithin name g =
      let c = text_of (clean name) in
      subst (λ x. IsWithin dir (clean x))
        (sym (append_three base (codes "frontends") (codes frontend_id) (codes version_id) c))
        (clean-IsWithin _ c (append-some base _ based) (guarded-NoUp name g))

  store_content-Stored :
      (name : List ℕ) (content : Option (List ℕ)) (count : ℕ) (t : Site)
      → has_prefix (text_of (clean name)) dotdot ≡ false
      → Ensures t
          (store_content base frontend_id version_id (text_of (clean name)) content count)
          (λ _ u. Stored dir t u)
          (λ _ u. Stored dir t u)
  store_content-Stored name none count t g = by_raise unreadable_entry ((λ q n. refl), refl)
  store_content-Stored name (some content) count t g =
      by_bind (λ _ u. Stored dir t u)
        (by_zoom (λ (x : Site). x.storage) (λ s x. record x { storage = s })
          (by_consequence (put_object_sets base (codes "frontends") object content t.storage)
            (λ _ s h. ((λ q n. h.1 q (elsewhere q n)), refl))
            (λ _ s h. ((λ q n. h q (elsewhere q n)), refl))))
        (λ _ u h. by_pure (count + 1) h)
    where
      object : List ℕ
      object = object_name base frontend_id version_id (text_of (clean name))

      elsewhere :
          (q : CleanPath) → ¬ IsWithin dir q → object_path base (codes "frontends") object ≢ q
      elsewhere q n e = n (subst (IsWithin dir) e (object-IsWithin name g))

  store_entry-Stored :
      (f : Entry) (count : ℕ) (t : Site)
      → Ensures t
          (store_entry base frontend_id version_id f count)
          (λ _ u. Stored dir t u)
          (λ _ u. Stored dir t u)
  store_entry-Stored f count t = elim (Bool-cases f.is_dir) [
    | inl e ↦ rw (e, store_entry) (by_pure count ((λ q n. refl), refl))
    | inr e ↦ elim (Bool-cases (has_prefix (text_of (clean f.name)) dotdot)) [
      | inl g ↦ rw (e, store_entry) (rw g (by_raise (invalid_path f.name) ((λ q n. refl), refl)))
      | inr g ↦ rw (e, store_entry) (rw g (store_content-Stored f.name f.content count t g))
    ]
  ]

  store_files-Stored :
      (fs : List Entry) (count : ℕ) (t : Site)
      → Ensures t
          (store_files base frontend_id version_id fs count)
          (λ _ u. Stored dir t u)
          (λ _ u. Stored dir t u)
  unfolding store_files
  store_files-Stored [] count t = by_pure count ((λ q n. refl), refl)
  store_files-Stored (f ∷ fs) count t =
      by_bind (λ _ u. Stored dir t u) (store_entry-Stored f count t)
        λ stored u h.
          by_consequence (store_files-Stored fs stored u) (λ _ v k. Stored-trans dir t u v h k)
            (λ _ v k. Stored-trans dir t u v h k)

  inserted-Accepted :
      (w : FrontendVersion) (t u v : Site) {a : Unit {0}}
      → w.id ≡ version_id
      → w.frontend_id ≡ frontend_id
      → Stored dir t u
      → insert_version w u ≡ ok (a, v)
      → Accepted base frontend_id version_id t
          (first (λ x. x.id == version_id) v.frontend_versions)
          v
  inserted-Accepted w t u v own_id own (kept, same) k =
      let (fresh, added) = insert_version-rows w u v k in
      let before : any (λ x. x.id == version_id) u.frontend_versions ≡ false =
        subst (λ i. any (λ x. x.id == i) u.frontend_versions ≡ false) own_id fresh in
      (
        λ q n.
            ap (λ (x : Storage). file_at q x.disk.files) (insert_version-storage w u v k)
            ∙ kept q n,
        ap (any (λ x. x.id == version_id)) (sym same) ∙ before,
        (
          w,
          ap (first (λ x. x.id == version_id)) added
              ∙ first-append (λ x. x.id == version_id) u.frontend_versions w before
                  (ground (arith, eq_iff w.id version_id)),
          own_id,
          own,
        ),
      )

  create-Outside :
      (now : ℕ) (label description : String) (files : List Entry) (t : Site)
      → Ensures t
          (do
            file_count ← store_files base frontend_id version_id files 0
            require (not (eqb file_count 0)) empty_zip
            statement (
                insert_version (record {
                  id = version_id;
                  frontend_id = frontend_id;
                  label = label;
                  description = description;
                  file_count = file_count;
                  created_at = now;
                }))
            get_version version_id)
          (λ o u. Accepted base frontend_id version_id t o u)
          (λ _ u. Outside dir t u)
  unfolding get_version
  create-Outside now label description files t =
      by_bind (λ _ u. Stored dir t u)
        (by_consequence (store_files-Stored files 0 t) (λ _ _ h. h) (λ _ _ h. h.0))
        λ file_count u h.
          by_require _ (not (eqb file_count 0)) empty_zip
            (λ _.
              by_statement _ h.0 (λ _ _. h.0)
                λ _ v k.
                  let done = inserted-Accepted _ t u v refl refl h k in last_query _ done.0 done)
            (λ _. h.0)

-- What an upload leaves: it fails and changes nothing, or it has drawn the identifier of the
-- version as the next random bytes, and nothing outside of the directory of that version changes.
abbrev pub Confined :
    List ℕ → String → Session Site → Result (Option FrontendVersion) × Session Site → Type 0
Confined base frontend_id s r =
    ((e : Error) × (r.0 ≡ err e) × (r.1.state ≡ s.state))
    ⊎ ((b : List ℕ) × (rest : List (Option (List ℕ))) × (s.draws ≡ some b ∷ rest)
        × Holds (λ o u. Accepted base frontend_id (encode_to_string b) s.state o u)
            (λ _ u. Outside (version_dir base frontend_id (encode_to_string b)) s.state u) r)

-- Whatever the names in an archive, an upload fails and changes nothing, or it draws the identifier
-- of the version as the next random bytes and writes only below the directory of that version:
-- each other file of the storage is as before, whether the upload is accepted or fails half way.
-- An upload that is accepted gives the version of that identifier, which no earlier version has.
pub create_version-Outside :
    (base : List ℕ) (read_zip : List ℕ → Option (List Entry)) (now : ℕ)
    (frontend_id label description : String) (zip_data : List ℕ) (s : Session Site)
    → base ≢ []
    → Confined base frontend_id s
        (create_version base read_zip now frontend_id label description zip_data s)
unfolding create_version new_id draw
create_version-Outside base read_zip now frontend_id label description zip_data s based =
    go (read_zip zip_data) s.draws
  where
    go :
        (z : Option (List Entry)) (d : List (Option (List ℕ)))
        → (let s' : Session Site = record { state = s.state; faults = s.faults; draws = d } in
            Confined base frontend_id s' (create_from base now frontend_id label description z s'))
    go none d = inl (bad_zip, refl, refl)
    go (some files) [] = inl (entropy, refl, refl)
    go (some files) (none ∷ d) = inl (entropy, refl, refl)
    go (some files) (some b ∷ d) = inr (
      b,
      d,
      refl,
      (create-Outside base based frontend_id (encode_to_string b) now label description files
            s.state).at
          s.faults d,
    )
