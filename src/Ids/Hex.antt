-- ===== src/Ids/Hex.antt =====
-- encoding/hex loses nothing: bytes with the same text are the same.
use Prim.Native.Char.{Char, code}
use flagbase.Prelude.{
  Bool, true, eqb, ◌&&◌, zero, suc, Bool-cases, inl, inr, ℕ, ◌+◌, ◌-◌, ◌*◌, ◌/◌, ◌%◌, ◌<◌, String,
  ◌≡◌, refl, sym, ap, ◌∙◌, List, [], ◌∷◌, All, arith, leb, if◌then◌else◌,
}
use flagbase.Ids.{hex_digit, encode_to_string}

digit_value : Char → ℕ
digit_value c = if leb (code c) 57 then code c - 48 else code c - 87

-- The digits below `k` have their values.
right_below : ℕ → Bool
right_below zero = true
right_below (suc k) = eqb (digit_value (hex_digit k)) k && right_below k

digit_below : (k n : ℕ) → right_below k ≡ true → n < k → digit_value (hex_digit n) ≡ n
unfolding right_below
digit_below zero n r h = absurd (omega arith)
digit_below (suc k) n r h = elim (Bool-cases (eqb n k)) [
  | inl e ↦
      let q : n ≡ k = ground arith in
      let v : digit_value (hex_digit k) ≡ k = ground arith in
      ap (λ x. digit_value (hex_digit x)) q ∙ (v ∙ sym q)
  | inr e ↦ digit_below k n (ground arith) (ground arith)
]

digit_value-hex_digit : (n : ℕ) → n < 16 → digit_value (hex_digit n) ≡ n
unfolding right_below digit_value hex_digit
digit_value-hex_digit n h = digit_below 16 n refl h

abbrev pub IsByte : ℕ → Type 0
IsByte b = b < 256

decode : String → List ℕ
decode String.[] = []
decode (String.◌∷◌ c String.[]) = []
decode (String.◌∷◌ c (String.◌∷◌ d s)) = (digit_value c * 16 + digit_value d) ∷ decode s

decode-encode_to_string : (bs : List ℕ) → All IsByte bs → decode (encode_to_string bs) ≡ bs
unfolding decode encode_to_string
decode-encode_to_string [] h = refl
decode-encode_to_string (b ∷ bs) (p, h) = rw (digit_value-hex_digit (b / 16) (omega arith)) (
    rw (digit_value-hex_digit (b % 16) (omega arith))
      (rw (decode-encode_to_string bs h) (ap (λ x. x ∷ bs) (omega arith))))

pub encode_to_string_injective :
    (cs bs : List ℕ)
    → All IsByte cs
    → All IsByte bs
    → encode_to_string cs ≡ encode_to_string bs
    → cs ≡ bs
encode_to_string_injective cs bs h k e =
    sym (decode-encode_to_string cs h) ∙ (ap decode e ∙ decode-encode_to_string bs k)
