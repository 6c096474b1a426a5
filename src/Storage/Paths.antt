-- ===== src/Storage/Paths.antt =====
-- filepath.Clean and filepath.Join on Unix, as internal/storage/local.go and
-- internal/frontend/service.go use them.
pub mod Shapes
pub mod Within
use flagbase.Prelude.{ℕ, Bool, true, false, ◌||◌, List, [], ◌∷◌, ◌++◌, eqb, if◌then◌else◌}
use flagbase.Text.{codes, same_codes, split, join}

abbrev pub Segment : Type 0
Segment = List ℕ

abbrev pub dot : Segment
dot = codes "."

abbrev pub dotdot : Segment
dotdot = codes ".."

-- A cleaned path: its segments, the innermost first.
pub record CleanPath : Type 0 where
  pub rooted : Bool
  pub stack : List Segment

-- `..` takes back the segment before it, stays at the root, and is kept where nothing is before it.
abbrev pub pop : Bool → List Segment → List Segment
pop rooted [] = if rooted then [] else dotdot ∷ []
pop rooted (s ∷ st) = if same_codes s dotdot then dotdot ∷ s ∷ st else st

abbrev pub push_segment : Bool → List Segment → Segment → List Segment
push_segment rooted st s =
    if same_codes s [] || same_codes s dot
    then st
    else if same_codes s dotdot
    then pop rooted st
    else s ∷ st

abbrev pub clean_onto : Bool → List Segment → List Segment → List Segment
clean_onto rooted st [] = st
clean_onto rooted st (s ∷ more) = clean_onto rooted (push_segment rooted st s) more

abbrev pub is_rooted : List ℕ → Bool
is_rooted [] = false
is_rooted (c ∷ s) = eqb c b'/'

unfoldable pub clean : List ℕ → CleanPath
unfolding split
clean s = record { rooted = is_rooted s; stack = clean_onto (is_rooted s) [] (split b'/' s) }

abbrev pub reverse_onto : List Segment → List Segment → List Segment
reverse_onto [] acc = acc
reverse_onto (s ∷ st) acc = reverse_onto st (s ∷ acc)

abbrev pub in_order : List Segment → List Segment
in_order st = reverse_onto st []

-- The text of a cleaned path.
unfoldable pub relative : List Segment → List ℕ
relative [] = dot
relative (s ∷ st) = join b'/' (in_order (s ∷ st))

unfoldable pub text_of : CleanPath → List ℕ
unfolding relative
text_of p = if p.rooted then b'/' ∷ join b'/' (in_order p.stack) else relative p.stack

-- filepath.Join of texts that are not empty.
abbrev pub join_paths : List (List ℕ) → CleanPath
join_paths parts = clean (join b'/' parts)
