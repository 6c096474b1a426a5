-- ===== src/Admin/Once.antt =====
-- The setup token is good for one use.
use flagbase.Prelude.{
  ℕ, ◌+◌, ◌≤◌, String, true, false, ◌≡◌, ◌≢◌, refl, List, [], ◌∷◌, eq_iff, arith, Bool-cases, ◌⊎◌,
  ◌↔◌, inl, inr, if◌then◌else◌,
}
use flagbase.Admin.{SetupManager, refuses, consume}

-- How many of the attempts, one after the other, are accepted.
abbrev pub accepted : List (ℕ × String) → SetupManager → ℕ
accepted [] s = 0
accepted ((now, token) ∷ more) s =
    let rest = accepted more (consume now token s).1 in
    if (consume now token s).0 then rest + 1 else rest

consume-spent :
    (now : ℕ) (token : String) (s : SetupManager)
    → s.consumed ≡ true
    → consume now token s ≡ (false, s)
unfolding consume refuses
consume-spent now token s h = ground (arith)

accepted-spent :
    (attempts : List (ℕ × String)) (s : SetupManager) → s.consumed ≡ true → accepted attempts s ≡ 0
accepted-spent [] s h = refl
accepted-spent ((now, token) ∷ more) s h =
    rw (consume-spent now token s h, accepted) (accepted-spent more s h)

consume_cases :
    (now : ℕ) (token : String) (s : SetupManager)
    → (consume now token s ≡ (false, s))
      ⊎ (consume now token s ≡ (true, record s { consumed = true }))
unfolding consume
consume_cases now token s = elim (Bool-cases (refuses now token s)) [
  | inl e ↦ inl (rw e refl)
  | inr e ↦ inr (rw e refl)
]

-- Of any attempts in any order, without a new token between them, at most one is accepted.
pub accepted_once : (attempts : List (ℕ × String)) (s : SetupManager) → accepted attempts s ≤ 1
accepted_once [] s = omega arith
accepted_once ((now, token) ∷ more) s = elim (consume_cases now token s) [
  | inl e ↦ rw (e, accepted) (accepted_once more s)
  | inr e ↦
      rw (e, accepted) (rw (accepted-spent more (record s { consumed = true }) refl) (omega arith))
]

-- An attempt is accepted exactly if it names the token, there is one, nobody has used it, and it has
-- not expired.
pub consume_iff :
    (now : ℕ) (token : String) (s : SetupManager)
    → ((consume now token s).0 ≡ true)
      ↔ ((s.token ≡ token) × (token ≢ "") × (s.consumed ≡ false) × (now ≤ s.expires_at))
unfolding consume refuses
consume_iff now token s = ground (arith, eq_iff s.token token, eq_iff s.token "", eq_iff token "")
