-- ===== src/Storage/Files.antt =====
-- Which files a put of an object touches.
use flagbase.Prelude.{
  ℕ, true, ◌≡◌, ◌≢◌, refl, sym, ap, ◌∙◌, ◌↔◌, inl, inr, List, [], ◌∷◌, arith, some, Bool-cases,
  Option-cases, subst,
}
use flagbase.Text.Laws.{same_codes_iff}
use flagbase.Db.{Error, driver, Result, ok, err, Op, pure, ◌>>=◌, ◌>>◌}
use flagbase.Db.Ensures.{
  Ensures, by_pure, by_bind, by_statement, by_consequence, by_last, by_ignore, last_execute,
}
use flagbase.Storage.Paths.{Segment, CleanPath}
use flagbase.Storage.{
  same_stack, same_path, Disk, file_at, set_file, mkdir_all, create_file, write_file, read_file,
  Storage, on_disk, is_system_bucket, announce_object, publish, parent, object_path, put_object,
  get_object,
}

pub same_stack_iff : (ss ts : List Segment) → (same_stack ss ts ≡ true) ↔ (ss ≡ ts)
same_stack_iff [] [] = ground arith
same_stack_iff [] (t ∷ ts) = ground arith
same_stack_iff (s ∷ ss) [] = ground arith
same_stack_iff (s ∷ ss) (t ∷ ts) = ground (arith, same_codes_iff s t, same_stack_iff ss ts)

pub same_path_iff : (p q : CleanPath) → (same_path p q ≡ true) ↔ (p ≡ q)
same_path_iff p q = ground (arith, same_stack_iff p.stack q.stack)

file_at-set_file :
    (p : CleanPath) (c : List ℕ) (fs : List (CleanPath × List ℕ))
    → file_at p (set_file p c fs) ≡ some c
file_at-set_file p c [] = ground (arith, same_path_iff p p)
file_at-set_file p c ((q, b) ∷ fs) = ground (arith, file_at-set_file p c fs)

file_at-set_file_other :
    (p q : CleanPath) (c : List ℕ) (fs : List (CleanPath × List ℕ))
    → p ≢ q
    → file_at q (set_file p c fs) ≡ file_at q fs
file_at-set_file_other p q c [] n = ground (arith, same_path_iff p q)
file_at-set_file_other p q c ((r, b) ∷ fs) n = ground (
  arith,
  same_path_iff r p,
  same_path_iff r q,
  same_path_iff p q,
  file_at-set_file_other p q c fs n,
)

on_disk-ok :
    {A : Type 0} (r : Result (A × Disk)) (s u : Storage) {a : A}
    → (elim r as (λ x. Result (A × Storage)) [
      | err e ↦ err e
      | ok (b, d) ↦ ok (b, record s { disk = d })
    ])
      ≡ ok (a, u)
    → (d : Disk) × (r ≡ ok (a, d)) × (u ≡ record s { disk = d })
on_disk-ok (err e) s u h = cc
on_disk-ok (ok (b, d)) s u {a} h = let same : b ≡ a = cc in (d, ap (λ x. ok (x, d)) same, cc)

module _ {A B : Type 0} {t : Storage} {Q : B → Storage → Type 0} {E : Error → Storage → Type 0}
    (k : A → Op Storage B) where
  -- One call of the file system.
  pub by_disk :
      (f : Disk → Result (A × Disk))
      → ((e : Error) → E e t)
      → ((a : A) (d : Disk) → f t.disk ≡ ok (a, d) → Ensures (record t { disk = d }) (k a) Q E)
      → Ensures t (on_disk f >>= k) Q E
  by_disk f bad good =
      by_statement _ (bad driver) (λ e h. bad e)
        λ a u h.
          let r = on_disk-ok (f t.disk) t u h in
          subst (λ v. Ensures v (k a) Q E) (sym r.2) (good a r.0 r.1)

-- Other files than the one at the path are as before.
abbrev pub Others : CleanPath → Storage → Storage → Type 0
Others p t u = (q : CleanPath) → p ≢ q → file_at q u.disk.files ≡ file_at q t.disk.files

mkdir_all-files :
    (p : CleanPath) (d e : Disk) {a : Unit {0}} → mkdir_all p d ≡ ok (a, e) → e.files ≡ d.files
unfolding mkdir_all
mkdir_all-files p d e h = ground arith

create_file-files :
    (p : CleanPath) (d e : Disk) {a : Unit {0}}
    → create_file p d ≡ ok (a, e)
    → e.files ≡ set_file p [] d.files
unfolding create_file
create_file-files p d e h = ground arith

publish-disk : (bucket name : List ℕ) (s : Storage) → (publish bucket name s).disk ≡ s.disk
publish-disk bucket name s = elim (Option-cases s.published) [
  | inl e ↦ rw (e, publish) refl
  | inr (ms, e) ↦ rw (e, publish) refl
]

announce-disk :
    (bucket name : List ℕ) (s : Storage)
    → Ensures s (announce_object bucket name) (λ _ u. u.disk ≡ s.disk) (λ _ u. u.disk ≡ s.disk)
announce-disk bucket name s = elim (Bool-cases (is_system_bucket bucket)) [
  | inl e ↦ rw (e, announce_object) (by_pure tt refl)
  | inr e ↦
      rw (e, announce_object)
        (by_ignore (last_execute (publish bucket name) refl (publish-disk bucket name s)))
]

read_file-file :
    (p : CleanPath) (c : List ℕ) (d : Disk) → file_at p d.files ≡ some c → read_file p d ≡ ok (c, d)
unfolding read_file
read_file-file p c d h = rw (h, read_file) refl

module _ (base : List ℕ) where
  -- What a put leaves: the content at the path of the object, and all else as it was; if it fails,
  -- at least all else as it was.
  pub put_object_sets :
      (bucket name content : List ℕ) (t : Storage)
      → Ensures t
          (put_object base bucket name content)
          (λ _ u.
            (file_at (object_path base bucket name) u.disk.files ≡ some content)
            × Others (object_path base bucket name) t u)
          (λ _ u. Others (object_path base bucket name) t u)
  unfolding put_object write_file
  put_object_sets bucket name content t =
      by_disk _ (mkdir_all (parent p)) (λ e q n. refl)
        λ a d h.
          by_disk _ (create_file p)
            (λ e q n. ap (file_at q) (mkdir_all-files (parent p) t.disk d h))
            λ b e k.
              let made : (q : CleanPath) → p ≢ q → file_at q e.files ≡ file_at q t.disk.files =
                λ q n.
                  ap (file_at q) (create_file-files p d e k)
                  ∙ (file_at-set_file_other p q [] d.files n
                      ∙ ap (file_at q) (mkdir_all-files (parent p) t.disk d h)) in
              by_disk _ (λ x. ok (tt, write_file p content x)) (λ _ q n. made q n)
                λ c x l.
                  let wrote : x.files ≡ set_file p content e.files =
                    let same : write_file p content e ≡ x = cc in
                    sym (ap (λ (y : Disk). y.files) same) in
                  by_consequence (announce-disk bucket name (record t { disk = x }))
                    (λ _ u m. (
                      ap (λ (y : Disk). file_at p y.files) m
                          ∙ (ap (file_at p) wrote ∙ file_at-set_file p content e.files),
                      λ q n.
                          ap (λ (y : Disk). file_at q y.files) m
                          ∙ (ap (file_at q) wrote
                              ∙ (file_at-set_file_other p q content e.files n ∙ made q n)),
                    ))
                    (λ _ u m q n.
                      ap (λ (y : Disk). file_at q y.files) m
                      ∙ (ap (file_at q) wrote
                          ∙ (file_at-set_file_other p q content e.files n ∙ made q n)))
    where
      p : CleanPath
      p = object_path base bucket name

  get_object-file :
      (bucket name content : List ℕ) (t : Storage)
      → file_at (object_path base bucket name) t.disk.files ≡ some content
      → Ensures t (get_object base bucket name) (λ c u. (c ≡ content) × (u ≡ t)) (λ _ u. u ≡ t)
  unfolding get_object
  get_object-file bucket name content t h =
      let p = object_path base bucket name in
      let r = read_file-file p content t.disk h in
      by_last (
        by_disk pure (read_file p) (λ _. refl)
          λ a d k.
            let got : a ≡ content = cc in
            let same : d ≡ t.disk = cc in by_pure a (got, ap (λ x. record t { disk = x }) same))

  -- What a put that returns has stored is what the next read of the object gives, whether the path
  -- held a file before or not, unless the read itself fails; and whatever fails, all files at other
  -- paths are as they were before the put.
  pub get_object-put_object :
      (bucket name content : List ℕ) (t : Storage)
      → Ensures t
          (put_object base bucket name content >> get_object base bucket name)
          (λ c u. (c ≡ content) × Others (object_path base bucket name) t u)
          (λ _ u. Others (object_path base bucket name) t u)
  get_object-put_object bucket name content t =
      by_bind _ (put_object_sets bucket name content t) λ _ u h.
        by_consequence (get_object-file bucket name content u h.0)
          (λ _ v k. (k.0, λ q n. ap (λ (y : Storage). file_at q y.disk.files) k.1 ∙ h.1 q n))
          (λ _ v k q n. ap (λ (y : Storage). file_at q y.disk.files) k ∙ h.1 q n)
