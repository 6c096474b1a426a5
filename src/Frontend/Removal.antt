-- ===== src/Frontend/Removal.antt =====
-- internal/frontend/service.go, DeleteVersion and Delete: what goes, and what stays.
use flagbase.Prelude.{
  ℕ, String, false, not, ◌&&◌, ◌≡◌, ◌≢◌, refl, sym, ap, ◌∙◌, List, [], ◌∷◌, All, any, update_where,
  any-keep_none, ◌==◌, eq_iff, arith, none, some, Bool-cases, Option-cases, inl, inr, if◌then◌else◌,
  subst,
}
use flagbase.Db.{ok}
use flagbase.Db.Ensures.{
  Ensures, by_pure, by_bind, by_consequence, by_execute, by_zoom, last_execute, by_last,
}
use flagbase.Storage.{Disk, file_at, remove_all, is_below}
use flagbase.Storage.Paths.{CleanPath}
use flagbase.Storage.Paths.Within.{IsWithin}
use flagbase.Storage.Files.{by_disk}
use flagbase.Storage.Removing.{is_below-IsWithin, below_within, file_at-remove_all}
use flagbase.Frontend.{
  FrontendRow, Site, delete_version_row, is_active_version, version_dir, delete_version_files,
  delete_version,
}
use flagbase.Frontend.Uploads.{Outside}

-- No file is left in the directory or below it.
abbrev pub Cleared : CleanPath → Site → Type 0
Cleared dir u = (q : CleanPath) → IsWithin dir q → file_at q u.storage.disk.files ≡ none

removed :
    (dir q : CleanPath) (d : Disk) → IsWithin dir q → file_at q (remove_all dir d).files ≡ none
unfolding remove_all
removed dir q d w = file_at-remove_all dir q d.files ∙ rw (below_within dir q w) refl

outside :
    (dir q : CleanPath) (d : Disk)
    → ¬ IsWithin dir q
    → file_at q (remove_all dir d).files ≡ file_at q d.files
unfolding remove_all
outside dir q d n = elim (Bool-cases (is_below dir q)) [
  | inl e ↦ absurd (n (is_below-IsWithin dir q e))
  | inr e ↦ file_at-remove_all dir q d.files ∙ rw e refl
]

module _ (base : List ℕ) (frontend_id version_id : String) where
  abbrev dir : CleanPath
  dir = version_dir base frontend_id version_id

  -- The rows stay; the files of the directory go.
  abbrev pub Emptied : Site → Site → Type 0
  Emptied t u =
      Cleared dir u
      × Outside dir t u
      × (u.frontends ≡ t.frontends)
      × (u.frontend_versions ≡ t.frontend_versions)

  pub delete_version_files-Emptied :
      (t : Site)
      → Ensures t
          (delete_version_files base frontend_id version_id)
          (λ _ u. Emptied t u)
          (λ _ u. u ≡ t)
  unfolding delete_version_files
  delete_version_files-Emptied t =
      by_zoom (λ (x : Site). x.storage) (λ s x. record x { storage = s })
        (by_last (
          by_disk _ (λ d. ok (tt, remove_all dir d)) (λ _. refl)
            λ a d h.
              let same : remove_all dir t.storage.disk ≡ d = cc in
              by_pure a (
                λ q w.
                    ap (λ (x : Disk). file_at q x.files) (sym same)
                    ∙ removed dir q t.storage.disk w,
                λ q n.
                    ap (λ (x : Disk). file_at q x.files) (sym same)
                    ∙ outside dir q t.storage.disk n,
                refl,
                refl,
              )))

  cleared_row :
      (now : ℕ) (f : FrontendRow)
      → (if f.id == frontend_id && is_active_version version_id f
          then record f { active_version_id = none; updated_at = now }
          else f).id
        ≡ frontend_id
      → (if f.id == frontend_id && is_active_version version_id f
          then record f { active_version_id = none; updated_at = now }
          else f).active_version_id
        ≢ some version_id
  cleared_row now f = elim (Option-cases f.active_version_id) [
    | inl e ↦ ground (arith, e, eq_iff f.id frontend_id)
    | inr (v, e) ↦ ground (arith, e, eq_iff f.id frontend_id, eq_iff v version_id)
  ]

  not_active :
      (now : ℕ) (fs : List FrontendRow)
      → All
          (λ f. f.id ≡ frontend_id → f.active_version_id ≢ some version_id)
          (update_where
            (λ f. f.id == frontend_id && is_active_version version_id f)
            (λ f. record f { active_version_id = none; updated_at = now })
            fs)
  not_active now [] = tt
  not_active now (f ∷ fs) = (cleared_row now f, not_active now fs)

  -- After a version has been deleted, its directory holds no file, it has no row, and its frontend
  -- does not have it as the active one; the files elsewhere are as before. If the deletion fails,
  -- these are as before, too.
  pub delete_version-Cleared :
      (now : ℕ) (t : Site)
      → Ensures t
          (delete_version base now frontend_id version_id)
          (λ _ u.
            Cleared dir u
            × (any (λ v. v.id == version_id) u.frontend_versions ≡ false)
            × All (λ f. f.id ≡ frontend_id → f.active_version_id ≢ some version_id) u.frontends
            × Outside dir t u)
          (λ _ u. Outside dir t u)
  unfolding delete_version
  delete_version-Cleared now t =
      by_bind (λ _ u. Emptied t u)
        (by_consequence (delete_version_files-Emptied t) (λ _ _ h. h)
          (λ _ u e. subst (λ u. Outside dir t u) (sym e) (λ q n. refl)))
        λ _ u (cleared, elsewhere, _, _). by_execute _ (delete_version_row version_id) elsewhere (
          last_execute _ elsewhere (
            cleared,
            any-keep_none (λ v. v.id == version_id) (λ v. not (v.id == version_id))
                u.frontend_versions (λ v. ground arith),
            not_active now u.frontends,
            elsewhere,
          ))
