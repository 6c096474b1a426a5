-- ===== src/Packages/Approval.antt =====
-- internal/packages/packages.go: how a package becomes available to functions.
use Prim.Native.String.{◌++◌ as ◌<>◌}
use flagbase.Prelude.{
  ℕ, String, Bool, true, false, not, ◌&&◌, ◌||◌, ◌≡◌, ◌≢◌, refl, ap, ◌∙◌, List, [], ◌∷◌, ◌++◌, All,
  any, keep, update_where, any-append, arith, eq_iff, ◌==◌, Option, none, some,
}
use flagbase.Text.{codes}
use flagbase.Db.{
  Error, package_exists, name_required, package_not_found, Result, ok, err, Op, pure, ignore, ◌>>◌,
  execute, modify,
}
use flagbase.Db.Ensures.{
  Ensures, by_pure, by_raise, by_bind, by_consequence, by_require, by_renamed, by_attempt, by_query,
  by_execute, by_modify, by_zoom, by_ignore, last_query, last_execute, last_statement, anything,
}
use flagbase.Ids.Laws.{by_new_id}
use flagbase.Storage.{Storage, put_object, delete_object}
use flagbase.Packages.{
  PackageRow, Package, Task, Registry, on_storage, packages_bucket, is_available, insert_package,
  update_packages, delete_package, package_with, spawn, get, request, approve_found, approve,
  delete, store_types, bundle_stored, bundle_fetched, bundle_task,
}

-- Whether functions are offered the package.
abbrev pub offered : String → Registry → Bool
offered id t = any (λ p. p.id == id && is_available p) t.packages

any-update_none :
    {A : Type 0} (q p : A → Bool) (f : A → A) (xs : List A)
    → ((x : A) → p x ≡ true → q x ≡ false → q (f x) ≡ false)
    → any q xs ≡ false
    → any q (update_where p f xs) ≡ false
any-update_none q p f [] h e = refl
any-update_none q p f (x ∷ xs) h e = ground (arith, h x, any-update_none q p f xs h)

any-kept :
    {A : Type 0} (q p : A → Bool) (xs : List A) → any q xs ≡ false → any q (keep p xs) ≡ false
any-kept q p [] e = refl
any-kept q p (x ∷ xs) e = ground (arith, any-kept q p xs)

module _ (base : List ℕ) (describe : Error → String)
    (fetch_bundle fetch_types : Task → Result (List ℕ)) (id : String) where
  -- The package is not offered, however the operation ends.
  abbrev Stays : Registry → {A : Type 0} → Op Registry A → Type 0
  Stays t m = Ensures t m (λ _ u. offered id u ≡ false) (λ _ u. offered id u ≡ false)

  insert_package-offered :
      (p : PackageRow) (t u : Registry) {a : Unit {0}}
      → p.status ≡ "pending"
      → offered id t ≡ false
      → insert_package p t ≡ ok (a, u)
      → offered id u ≡ false
  insert_package-offered p t u s h k =
      let rows : u.packages ≡ t.packages ++ p ∷ [] = ground arith in
      let new : (p.id == id && is_available p) ≡ false =
        let off : (p.status == "available") ≡ false = rw s refl in ground (arith, off) in
      ap (any (λ q. q.id == id && is_available q)) rows
      ∙ ground (arith, any-append (λ q. q.id == id && is_available q) t.packages p, new)

  request-Stays :
      (now : ℕ) (name version by : String) (t : Registry)
      → offered id t ≡ false
      → Stays t (request now name version by)
  unfolding request get
  request-Stays now name version by t h =
      by_require _ (not (name == "" || version == "")) name_required
        (λ _. by_new_id _ h λ b.
          by_bind (λ _ u. offered id u ≡ false)
            (by_renamed package_exists
              (last_statement _ h (λ _ _. h) (λ _ u k. insert_package-offered _ t u refl h k)))
            (λ _ u k. last_query _ k k))
        (λ _. h)

  approve-Stays :
      (now : ℕ) (key by : String) (t : Registry)
      → offered id t ≡ false
      → Stays t (approve now key by)
  unfolding approve get
  approve-Stays now key by t h =
      by_query (approve_found now key by) (package_with key) h (go (package_with key t))
    where
      go : (o : Option Package) → Stays t (approve_found now key by o)
      go none = by_raise package_not_found h
      go (some pkg) =
          let bundling : PackageRow → PackageRow =
            λ p. record p { status = "bundling"; approved_by = some by; approved_at = some now } in
          let task : Task = record { id = key; name = pkg.name; version = pkg.version } in
          let still =
            any-update_none (λ p. p.id == id && is_available p) (λ p. p.id == key) bundling
              t.packages (λ p _ _. ground arith) h in
          by_execute (λ _. modify (spawn task) >> get key) (update_packages key bundling) h
            (by_modify (λ _. get key) (spawn task) (last_query _ still still))

  -- The storage does not hold what is offered.
  stored-Stays :
      {A : Type 0} (m : Op Storage A) (t : Registry) → offered id t ≡ false → Stays t (on_storage m)
  stored-Stays m t h =
      by_zoom (λ (x : Registry). x.storage) (λ s x. record x { storage = s })
        (by_consequence (anything t.storage m) (λ _ _ _. h) (λ _ _ _. h))

  delete-Stays : (key : String) (t : Registry) → offered id t ≡ false → Stays t (delete base key)
  unfolding delete
  delete-Stays key t h =
      by_bind (λ _ u. offered id u ≡ false)
        (by_ignore (stored-Stays (delete_object base packages_bucket (codes (key <> ".js"))) t h))
        λ _ u k.
          by_bind (λ _ v. offered id v ≡ false)
            (by_ignore
              (stored-Stays (delete_object base packages_bucket (codes (key <> ".d.ts"))) u k))
            λ _ v l.
              last_execute (delete_package key) l
                (any-kept (λ p. p.id == id && is_available p) (λ p. not (p.id == key)) v.packages l)

  -- An update of the rows of another package.
  updated-Stays :
      (key : String) (f : PackageRow → PackageRow) (t : Registry)
      → key ≢ id
      → ((p : PackageRow) → (f p).id ≡ p.id)
      → offered id t ≡ false
      → Stays t (ignore (execute (update_packages key f)))
  updated-Stays key f t n keeps h = by_ignore (
      last_execute (update_packages key f) h (
        any-update_none (λ p. p.id == id && is_available p) (λ p. p.id == key) f t.packages
          (λ p q _. ground (arith, keeps p, eq_iff (f p).id id, eq_iff p.id key)) h))

  bundle_task-Stays :
      (task : Task) (t : Registry)
      → task.id ≢ id
      → offered id t ≡ false
      → Stays t (bundle_task base describe fetch_bundle fetch_types task)
  unfolding bundle_task
  bundle_task-Stays task t n h = go (fetch_bundle task)
    where
      typed :
          (r : Result (List ℕ)) (u : Registry)
          → offered id u ≡ false
          → Stays u (store_types base describe fetch_bundle fetch_types task r)
      typed (err e) u k = by_pure tt k
      typed (ok dts) u k =
          by_ignore
            (stored-Stays (put_object base packages_bucket (codes (task.id <> ".d.ts")) dts) u k)

      go :
          (r : Result (List ℕ))
          → Stays t (bundle_fetched base describe fetch_bundle fetch_types task r)
      go (err e) = updated-Stays task.id _ t n (λ p. refl) h
      go (ok bundle) =
          by_attempt (bundle_stored base describe fetch_bundle fetch_types task bundle)
            (λ _ u. offered id u ≡ false) (λ _ u. offered id u ≡ false)
            (stored-Stays (put_object base packages_bucket (codes (task.id <> ".js")) bundle) t h)
            (λ _ u k.
              by_bind (λ _ v. offered id v ≡ false) (updated-Stays task.id _ u n (λ p. refl) k)
                (λ _ v l. typed (fetch_types task) v l))
            (λ e u k. updated-Stays task.id _ u n (λ p. refl) k)

  -- What can happen to the registry: the requests, and the end of a goroutine.
  pub data Event : Type 0 where
    requests : ℕ → String → String → String → Event
    approves : ℕ → String → String → Event
    deletes : String → Event
    bundles : Task → Event

  abbrev pub happen : Event → Op Registry (Unit {0})
  happen (requests now name version by) = ignore (request now name version by)
  happen (approves now key by) = ignore (approve now key by)
  happen (deletes key) = ignore (delete base key)
  happen (bundles task) = ignore (bundle_task base describe fetch_bundle fetch_types task)

  abbrev pub happen_all : List Event → Op Registry (Unit {0})
  happen_all [] = pure tt
  happen_all (e ∷ es) = do happen e; happen_all es

  -- The event is not the end of a goroutine for the package.
  abbrev pub Other : Event → Type 0
  Other (requests now name version by) = Unit {0}
  Other (approves now key by) = Unit {0}
  Other (deletes key) = Unit {0}
  Other (bundles task) = task.id ≢ id

  happen-Stays : (e : Event) (t : Registry) → Other e → offered id t ≡ false → Stays t (happen e)
  happen-Stays (requests now name version by) t o h =
      by_ignore (request-Stays now name version by t h)
  happen-Stays (approves now key by) t o h = by_ignore (approve-Stays now key by t h)
  happen-Stays (deletes key) t o h = by_ignore (delete-Stays key t h)
  happen-Stays (bundles task) t n h = by_ignore (bundle_task-Stays task t n h)

  -- A package that is not offered to functions stays so, whatever is requested, approved or deleted
  -- and whichever goroutines for other packages end in between, in any order and with any failures.
  pub happen_all-offered :
      (es : List Event) (t : Registry)
      → All Other es
      → offered id t ≡ false
      → Ensures t (happen_all es) (λ _ u. offered id u ≡ false) (λ _ u. offered id u ≡ false)
  happen_all-offered [] t o h = by_pure tt h
  happen_all-offered (e ∷ es) t (o, os) h =
      by_bind (λ _ u. offered id u ≡ false) (happen-Stays e t o h)
        (λ _ u k. happen_all-offered es u os k)
