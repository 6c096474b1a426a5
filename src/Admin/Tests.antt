-- ===== src/Admin/Tests.antt =====
-- Runs of internal/admin/setup.go at small inputs.
use flagbase.Prelude.{String, ◌≤◌, ◌≡◌, ◌≢◌, ◌↔◌, refl, true, false, [], ◌∷◌, some}
use flagbase.Db.{ok, draw}
use flagbase.Ids.{encode_to_string}
use flagbase.Admin.{SetupManager, new_setup_manager, generate_token, refuses, consume, is_active}
use flagbase.Admin.Once.{accepted, accepted_once, consume_iff}

abbrev waiting : SetupManager
waiting = record { token = "01"; expires_at = 905; consumed = false }

generated :
    generate_token 5 (record { state = new_setup_manager; faults = []; draws = some (1 ∷ []) ∷ [] })
    ≡ (ok "01", record { state = waiting; faults = []; draws = [] })
unfolding generate_token draw encode_to_string
generated = refl

twice : accepted ((7, "02") ∷ (8, "01") ∷ (9, "01") ∷ []) waiting ≡ 1
unfolding consume refuses
twice = refl

waits : is_active 904 waiting ≡ true
unfolding is_active
waits = refl

accepted_once_example : accepted ((8, "01") ∷ (9, "01") ∷ []) waiting ≤ 1
accepted_once_example = accepted_once ((8, "01") ∷ (9, "01") ∷ []) waiting

consume_iff_example :
    ((consume 905 "01" waiting).0 ≡ true)
    ↔ ((waiting.token ≡ "01") × (◌≢◌ {A = String} "01" "") × (false ≡ false) × (905 ≤ 905))
consume_iff_example = consume_iff 905 "01" waiting
