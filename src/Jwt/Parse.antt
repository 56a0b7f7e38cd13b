-- ===== src/Jwt/Parse.antt =====
-- `parseJwtParts` and `base64urlToBuffer` of workers/src/lib/sso-jwt.ts.
use Prim.Native.String
use Prim.Native.String.{count}
use simtrader.Base.{
  ℕ, ◌-◌, ◌%◌, String, Option, none, some, List, [], ◌∷◌, split, replace_char, repeat_char,
}
use simtrader.Json.{Json}
use simtrader.Jwt.{Runtime}

pub record ParsedJwt : Type 0 where
  pub header : Json
  pub payload : Json
  pub sig : String
  pub message : String

-- `s.replace(/-/g, '+').replace(/_/g, '/')`
unfoldable pub to_base64 : String → String
unfolding replace_char
to_base64 s = replace_char "_" "/" (replace_char "-" "+" s)

-- How many padding characters bring a text of n characters to a whole number of quartets.
unfoldable pub padding : ℕ → ℕ
padding n = (4 - n % 4) % 4

-- The text that `base64urlToBuffer` hands to `atob`.
unfoldable pub pad_base64 : String → String
unfolding to_base64 padding repeat_char
pad_base64 b64 = String.◌++◌ (to_base64 b64) (repeat_char (padding (count b64)) "=")

module _ (r : Runtime) where
  unfoldable pub base64url_to_buffer : String → Option String
  base64url_to_buffer b64 = r.atob (pad_base64 b64)

  -- `JSON.parse(atob(part.replace(…)))`
  unfoldable pub decode_part : String → Option Json
  decode_part part = elim (r.atob (to_base64 part)) [ none ↦ none | some text ↦ r.json_parse text ]

  unfoldable pub parse_three : String → String → String → Option ParsedJwt
  parse_three p q s = elim (decode_part p) [
    | none ↦ none
    | some header ↦ elim (decode_part q) [
      | none ↦ none
      | some payload ↦ elim (base64url_to_buffer s) [
        | none ↦ none
        | some sig ↦ some (record {
          header = header;
          payload = payload;
          sig = sig;
          message = String.◌++◌ p (String.◌++◌ "." q);
        })
      ]
    ]
  ]

  -- `parts.length !== 3` gives null.
  unfoldable pub parse_parts : List String → Option ParsedJwt
  parse_parts (p ∷ q ∷ s ∷ []) = parse_three p q s
  parse_parts _ = none

  unfoldable pub parse_jwt_parts : String → Option ParsedJwt
  parse_jwt_parts token = parse_parts (split "." token)
