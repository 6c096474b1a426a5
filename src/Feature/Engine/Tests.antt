-- ===== src/Feature/Engine/Tests.antt =====
-- Runs of internal/feature/engine.go at small inputs, and the theorems at inputs that meet them.
use flagbase.Prelude.{
  ℕ, String, true, false, ◌≡◌, ◌≢◌, inr, refl, [], ◌∷◌, arith, eq_iff, some, lookup, if◌then◌else◌,
  leb, ◌+◌, ◌&&◌,
}
use flagbase.Text.{Unicode}
use flagbase.Db.{Session, ok, draw, statement}
use flagbase.Ids.{encode_to_string, new_id}
use flagbase.Sorting.Insertion.{insertion}
use flagbase.Feature.{Flag, Override, flag_status_deprecated}
use flagbase.Feature.Tables.{
  FlagRow, Tables, upsert_override, load_rules, load_variants, load_overrides,
}
use flagbase.Feature.Tables.Sound.{IsSound}
use flagbase.Feature.Evaluate.{Context, text, evaluate_variant, evaluate_flag}
use flagbase.Feature.Engine.{Engine, collect, fill, reload, create_override}
use flagbase.Db.Ensures.{Ensures}
use flagbase.Feature.Engine.Caching.{view, perform, create, delete, perform_publishes}
use flagbase.Feature.Engine.Integrity.{perform-IsSound}
use flagbase.Feature.Engine.Overriding.{create_override_pins, create_override_isolated}

abbrev ascii_lower : ℕ → ℕ
ascii_lower c = if leb b'A' c && leb c b'Z' then c + 32 else c

abbrev ascii : Unicode
ascii = record { lower = ascii_lower; fold = ascii_lower }

abbrev checkout_row : FlagRow
checkout_row = record {
  id = "f1";
  key = "checkout";
  name = "Checkout";
  description = "";
  enabled = true;
  default_value = true;
  status = "draft";
  created_at = 1;
  updated_at = 1;
}

abbrev stored : Tables
stored = record {
  feature_flags = checkout_row ∷ [];
  flag_rules = [];
  flag_variants = [];
  flag_overrides = [];
}

abbrev ann : Override
ann = record { id = ""; flag_key = "checkout"; user_id = "ann"; variant_key = "b"; created_at = 0 }

abbrev context_of : String → Context
context_of user = ("userId", text user) ∷ []

abbrev started : Session Engine
started = record {
  state = record { db = stored; flags = view insertion stored };
  faults = [];
  draws = some (7 ∷ 255 ∷ []) ∷ [];
}

abbrev pinned : Session Engine
pinned = (create_override insertion 5 ann started).1

-- What a run looks into.
running : Unit {0}
unfolding create_override upsert_override new_id draw statement view collect load_rules
    load_variants load_overrides insertion fill reload evaluate_variant evaluate_flag
    encode_to_string
running = tt

pinned_ok : create_override insertion 5 ann started ≡ (ok tt, pinned)
unfolding running
pinned_ok = refl

checkout : Flag
checkout = record {
  id = "f1";
  key = "checkout";
  name = "Checkout";
  description = "";
  status = "draft";
  enabled = true;
  default_value = true;
  rules = [];
  variants = [];
  overrides = record ann { id = "07ff"; created_at = 5 } ∷ [];
  created_at = 1;
  updated_at = 1;
}

cached : lookup "checkout" pinned.state.flags ≡ some checkout
unfolding running checkout
cached = refl

-- Before, a draft is off for its developer; afterwards it is on for them.
off_before : evaluate_variant ascii started.state.flags "checkout" (context_of "ann") ≡ "false"
unfolding running
off_before = refl

checkout_enabled : checkout.enabled ≡ true
unfolding checkout
checkout_enabled = refl

checkout_live : checkout.status ≢ flag_status_deprecated
unfolding checkout
checkout_live = ground (arith, eq_iff "draft" flag_status_deprecated)

ann_known : ann.user_id ≢ ""
ann_known = ground (arith, eq_iff ann.user_id "")

ann_named : ann.user_id ≢ "anonymous"
ann_named = ground (arith, eq_iff ann.user_id "anonymous")

ann_not_bob : ◌≢◌ {A = String} "ann" "bob"
ann_not_bob = ground (arith, eq_iff "ann" "bob")

stored-IsSound : IsSound stored
stored-IsSound = record {
  keys = (tt, tt);
  variants = tt;
  targets = tt;
  rule_flags = tt;
  variant_flags = tt;
  override_flags = tt;
}

create_override_pins_example :
    evaluate_variant ascii pinned.state.flags "checkout" (context_of "ann") ≡ "b"
create_override_pins_example =
    create_override_pins insertion ascii 5 ann started pinned checkout (context_of "ann") pinned_ok
      cached checkout_enabled checkout_live refl ann_known ann_named

create_override_isolated_example :
    evaluate_variant ascii pinned.state.flags "checkout" (context_of "bob")
    ≡ evaluate_variant ascii started.state.flags "checkout" (context_of "bob")
create_override_isolated_example =
    create_override_isolated insertion ascii 5 ann started pinned "checkout" (context_of "bob") refl
      stored-IsSound pinned_ok (inr ann_not_bob)

abbrev reused : Flag
reused = record {
  id = "";
  key = "checkout";
  name = "Again";
  description = "";
  status = "";
  enabled = true;
  default_value = false;
  rules = [];
  variants = [];
  overrides = [];
  created_at = 0;
  updated_at = 0;
}

perform_publishes_example :
    Ensures started.state
      (perform insertion (create 9 reused))
      (λ _ u. u.flags ≡ view insertion u.db)
      (λ _ u. u.flags ≡ started.state.flags)
perform_publishes_example = perform_publishes insertion (create 9 reused) started.state

perform-IsSound_example :
    Ensures started.state
      (perform insertion (delete "checkout"))
      (λ _ u. IsSound u.db)
      (λ _ u. IsSound u.db)
perform-IsSound_example = perform-IsSound insertion (delete "checkout") started.state stored-IsSound
