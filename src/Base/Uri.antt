-- ===== src/Base/Uri.antt =====
-- `encodeURIComponent`, on the characters' UTF-8 bytes.
use Prim.Native.Nat.{ℕ, ◌+◌, ◌/◌, ◌%◌}
use Prim.Native.Char.{Char, code}
use Prim.Native.String
use Prim.Native.String.{String, [], ◌∷◌}
use mathlib.Core.Bool.{Bool, ◌&&◌, ◌||◌}
use simtrader.Base.Tests.{ltb, leb, if◌then◌else◌}
use simtrader.Base.Text.{has_char, nth_char}

-- The characters that `encodeURIComponent` leaves as they are.
unfoldable pub is_unreserved : Char → Bool
unfolding has_char
is_unreserved c =
    (leb 48 (code c) && leb (code c) 57)
    || (leb 65 (code c) && leb (code c) 90)
    || (leb 97 (code c) && leb (code c) 122)
    || has_char c "-_.!~*'()"

unfoldable pub percent_byte : ℕ → String
percent_byte b =
    "%" ∷ (nth_char (b / 16) "0123456789ABCDEF" ∷ (nth_char (b % 16) "0123456789ABCDEF" ∷ []))

unfoldable pub percent_code : ℕ → String
unfolding percent_byte
percent_code c =
    if ltb c 128
    then percent_byte c
    else if ltb c 2048
    then String.◌++◌ (percent_byte (192 + c / 64)) (percent_byte (128 + c % 64))
    else if ltb c 65536
    then String.◌++◌ (percent_byte (224 + c / 4096))
        (String.◌++◌ (percent_byte (128 + c / 64 % 64)) (percent_byte (128 + c % 64)))
    else String.◌++◌ (percent_byte (240 + c / 262144)) (
        String.◌++◌ (percent_byte (128 + c / 4096 % 64))
          (String.◌++◌ (percent_byte (128 + c / 64 % 64)) (percent_byte (128 + c % 64))))

unfoldable pub encode_uri_component : String → String
unfolding is_unreserved percent_code
encode_uri_component [] = []
encode_uri_component (c ∷ s) =
    let rest = encode_uri_component s in
    if is_unreserved c then c ∷ rest else String.◌++◌ (percent_code (code c)) rest
