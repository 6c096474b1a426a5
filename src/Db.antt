-- ===== src/Db.antt =====
-- What every store shares: database/sql calls that may fail, and the effects of an operation.
-- A statement is a function on the state; whether the driver fails it is read off a tape.
pub mod Ensures
pub mod Running
use flagbase.Prelude.{String, Bool, true, false, List, [], ◌∷◌, Option, none, some, ℕ}

-- The errors that the program tells apart, or makes itself; the texts are the names it puts in.
pub data Error : Type 0 where
  driver unique foreign_key entropy : Error
  unknown_status : String → Error
  user_not_found invalid_password user_exists group_not_found group_exists invalid_role : Error
  invalid_key reserved_column bad_column_type duplicate_column table_not_found : String → Error
  column_conflict column_needs_default unknown_column column_required : String → Error
  signing_failed bad_token object_not_found bad_zip empty_zip unreadable_entry : Error
  invalid_path : List ℕ → Error
  unsupported_event_type unknown_event_type not_http_trigger : String → Error
  no_subject no_schedule not_registered not_encodable : Error
  package_not_found package_exists name_required no_types http_failed : Error
  trigger_not_found trigger_disabled function_not_found bad_artifact not_editable : Error
  unsupported_language function_not_ready unknown_runtime syntax_error failed : String → Error
  not_nullable wrong_value unsupported_operator : String → Error

pub data Result {ℓ} (A : Type ℓ) : Type ℓ where
  ok : A → Result A
  err : Error → Result A

-- `faults` says of each coming call whether the driver fails it, without an effect; after its end
-- no call fails. `draws` are the coming reads of crypto/rand: bytes, or an error.
pub record Session (T : Type 0) : Type 0 where
  pub state : T
  pub faults : List Bool
  pub draws : List (Option (List ℕ))

abbrev pub Op : Type 0 → Type 0 → Type 0
Op T A = Session T → Result A × Session T

abbrev pub after : {T A B : Type 0} → (A → Op T B) → Result A × Session T → Result B × Session T
after f (ok a, s) = f a s
after f (err e, s) = (err e, s)

infixl 5 ◌>>=◌ ◌>>◌
abbrev pub ◌>>=◌ : {T A B : Type 0} → Op T A → (A → Op T B) → Op T B
◌>>=◌ m f s = after f (m s)

abbrev pub ◌>>◌ : {T B : Type 0} → Op T (Unit {0}) → Op T B → Op T B
m >> k = m >>= λ _. k

abbrev pub pure : {T A : Type 0} → A → Op T A
pure a s = (ok a, s)

abbrev pub raise : {T A : Type 0} → Error → Op T A
raise e s = (err e, s)

abbrev pub lift : {T A : Type 0} → Result A → Op T A
lift r s = (r, s)

abbrev pub gets : {T A : Type 0} → (T → A) → Op T A
gets f s = (ok (f s.state), s)

abbrev pub modify : {T : Type 0} → (T → T) → Op T (Unit {0})
modify f s = (ok tt, record s { state = f s.state })

-- An `if` with a `return` of an error.
abbrev pub require : {T : Type 0} → Bool → Error → Op T (Unit {0})
require true e = pure tt
require false e = raise e

abbrev pub settle : {T A : Type 0} → Session T → Result (A × T) → Result A × Session T
settle s (ok (a, t)) = (ok a, record s { state = t })
settle s (err e) = (err e, s)

-- One call of the driver: a fault, or what the SQL says.
unfoldable pub statement : {T A : Type 0} → (T → Result (A × T)) → Op T A
statement sql s = elim s.faults [
  | [] ↦ settle s (sql s.state)
  | fault ∷ rest ↦ elim fault [
    | true ↦ (err driver, record s { faults = rest })
    | false ↦ settle (record s { faults = rest }) (sql s.state)
  ]
]

-- A statement that breaks no constraint.
abbrev pub execute : {T : Type 0} → (T → T) → Op T (Unit {0})
execute f = statement (λ t. ok (tt, f t))

abbrev pub query : {T A : Type 0} → (T → A) → Op T A
query f = statement (λ t. ok (f t, t))

-- One read of sixteen random bytes.
unfoldable pub draw : {T : Type 0} → Op T (List ℕ)
draw s = elim s.draws [
  | [] ↦ (err entropy, s)
  | d ∷ rest ↦ elim d [
    | none ↦ (err entropy, record s { draws = rest })
    | some bytes ↦ (ok bytes, record s { draws = rest })
  ]
]

-- `_ = op`: the error is dropped.
abbrev pub ignored : {T A : Type 0} → Result A × Session T → Result (Unit {0}) × Session T
ignored (r, s) = (ok tt, s)

abbrev pub ignore : {T A : Type 0} → Op T A → Op T (Unit {0})
ignore m s = ignored (m s)

-- The answer to a constraint that is broken: the error of the operation's own.
abbrev pub own_error : Error → Error → Error
own_error e unique = e
own_error e x = x

abbrev pub rename : {T A : Type 0} → Error → Result A × Session T → Result A × Session T
rename e (ok a, s) = (ok a, s)
rename e (err x, s) = (err (own_error e x), s)

abbrev pub renamed : {T A : Type 0} → Error → Op T A → Op T A
renamed e m s = rename e (m s)

abbrev pub restored : {T A : Type 0} → T → Result A × Session T → Result A × Session T
restored t (ok a, s) = (ok a, s)
restored t (err e, s) = (err e, record s { state = t })

-- The calls of a transaction: Begin, the body, Commit.
abbrev pub calls_of : {T A : Type 0} → Op T A → Op T A
calls_of body = do execute (λ t. t); a ← body; execute (λ t. t); pure a

-- The deferred tx.Rollback undoes what an error leaves behind.
unfoldable pub transaction : {T A : Type 0} → Op T A → Op T A
transaction body s = restored s.state (calls_of body s)

-- An operation on a part of the state.
abbrev pub unzoomed :
    {S T A : Type 0} → (S → T → T) → T → Result A × Session S → Result A × Session T
unzoomed set t (r, s) = (r, record { state = set s.state t; faults = s.faults; draws = s.draws })

abbrev pub zoom : {S T A : Type 0} → (T → S) → (S → T → T) → Op S A → Op T A
zoom get set m s =
    unzoomed set s.state (m (record { state = get s.state; faults = s.faults; draws = s.draws }))

-- An operation whose error is looked at.
abbrev pub handed :
    {T A B : Type 0} → (Result A → Op T B) → Result A × Session T → Result B × Session T
handed k (r, s) = k r s

abbrev pub attempt : {T A B : Type 0} → Op T A → (Result A → Op T B) → Op T B
attempt m k s = handed k (m s)
