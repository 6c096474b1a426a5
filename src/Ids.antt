-- ===== src/Ids.antt =====
-- newID, which each store of internal/ declares for itself: sixteen random bytes in hexadecimal.
pub mod Laws
pub mod Hex
use Prim.Native.Char.{Char}
use flagbase.Prelude.{ℕ, String, List, [], ◌∷◌, ◌/◌, ◌%◌, ltb, if◌then◌else◌, not, ◌==◌}
use flagbase.Db.{Op, pure, draw, ◌>>=◌}

-- The digits of encoding/hex.
pub hex_digit : ℕ → Char
hex_digit n =
    if ltb n 8
    then if ltb n 4
      then if ltb n 2 then if ltb n 1 then "0" else "1" else if ltb n 3 then "2" else "3"
      else if ltb n 6
      then if ltb n 5 then "4" else "5"
      else if ltb n 7
      then "6"
      else "7"
    else if ltb n 12
    then if ltb n 10 then if ltb n 9 then "8" else "9" else if ltb n 11 then "a" else "b"
    else if ltb n 14
    then if ltb n 13 then "c" else "d"
    else if ltb n 15
    then "e"
    else "f"

-- hex.EncodeToString: the high half of each byte first.
unfoldable pub encode_to_string : List ℕ → String
unfolding hex_digit
encode_to_string [] = String.[]
encode_to_string (b ∷ bs) =
    String.◌∷◌ (hex_digit (b / 16)) (String.◌∷◌ (hex_digit (b % 16)) (encode_to_string bs))

unfoldable pub new_id : {T : Type 0} → Op T String
new_id = do b ← draw; pure (encode_to_string b)

-- A new identifier where the given one is empty.
unfoldable pub id_or_new : {T : Type 0} → String → Op T String
unfolding new_id
id_or_new id = if not (id == "") then pure id else new_id
