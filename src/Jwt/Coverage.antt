-- ===== src/Jwt/Coverage.antt =====
-- What a parsed token's signature covers, and the lengths that base64 asks for.
use Prim.Native.String
use Prim.Native.String.{count}
use text.Mathlib.TextLemmas.{append_assoc, length-append, length-nil, length-cons}
use simtrader.Base.{
  ℕ, zero, suc, ◌+◌, ◌-◌, ◌%◌, ◌<◌, String, some, List, [], ◌∷◌, split, join, join-split,
  replace_char, repeat_char, ◌≡◌, refl, sym, ap, ◌∙◌, subst, arith, Option-cases, inl, inr,
}
use simtrader.Jwt.{Runtime}
use simtrader.Jwt.Parse.{
  ParsedJwt, to_base64, padding, pad_base64, base64url_to_buffer, decode_part, parse_three,
  parse_parts, parse_jwt_parts,
}

module _ (r : Runtime) where
  -- The signature is over all of the token but the last part, which is the signature itself.
  pub record Covers (token : String) (p : ParsedJwt) : Type 0 where
    pub head : String
    pub body : String
    pub last : String
    pub whole : token ≡ String.◌++◌ p.message (String.◌++◌ "." last)
    pub message : p.message ≡ String.◌++◌ head (String.◌++◌ "." body)
    pub header : decode_part r head ≡ some p.header
    pub payload : decode_part r body ≡ some p.payload
    pub signature : base64url_to_buffer r last ≡ some p.sig

  parse_three-Covers :
      (a b c : String) (p : ParsedJwt)
      → parse_three r a b c ≡ some p
      → Covers (String.◌++◌ a (String.◌++◌ "." (String.◌++◌ b (String.◌++◌ "." c)))) p
  unfolding parse_three
  parse_three-Covers a b c p e = elim (Option-cases (decode_part r a)) [
    | inl bad ↦ absurd (ground arith)
    | inr (header, h1) ↦ elim (Option-cases (decode_part r b)) [
      | inl bad ↦ absurd (ground arith)
      | inr (payload, h2) ↦ elim (Option-cases (base64url_to_buffer r c)) [
        | inl bad ↦ absurd (ground arith)
        | inr (sig, h3) ↦
            let made : ParsedJwt = record {
              header = header;
              payload = payload;
              sig = sig;
              message = String.◌++◌ a (String.◌++◌ "." b);
            } in
            let same : made ≡ p = ground arith in
            subst (Covers _) same (record {
              head = a;
              body = b;
              last = c;
              whole = sym (
                  append_assoc a (String.◌++◌ "." b) (String.◌++◌ "." c)
                  ∙ ap (String.◌++◌ a) (append_assoc "." b (String.◌++◌ "." c)));
              message = refl;
              header = h1;
              payload = h2;
              signature = h3;
            })
      ]
    ]
  ]

  parse_parts-Covers :
      (parts : List String) (p : ParsedJwt)
      → parse_parts r parts ≡ some p
      → Covers (join "." parts) p
  unfolding parse_parts join
  parse_parts-Covers [] p e = absurd (cc)
  parse_parts-Covers (a ∷ []) p e = absurd (cc)
  parse_parts-Covers (a ∷ b ∷ []) p e = absurd (cc)
  parse_parts-Covers (a ∷ b ∷ c ∷ []) p e = parse_three-Covers a b c p e
  parse_parts-Covers (a ∷ b ∷ c ∷ d ∷ rest) p e = absurd (cc)

  -- Of a token that parses, everything is signed but the signature: its header and payload are
  -- decoded from the two parts of the message, and the last part decodes to the signature.
  pub parse_jwt_parts-Covers :
      (token : String) (p : ParsedJwt) → parse_jwt_parts r token ≡ some p → Covers token p
  unfolding parse_jwt_parts
  parse_jwt_parts-Covers token p e =
      subst (λ t. Covers t p) (join-split "." token) (parse_parts-Covers (split "." token) p e)

count-replace_char : (a b : _) (s : String) → count (replace_char a b s) ≡ count s
unfolding replace_char
count-replace_char a b String.[] = refl
count-replace_char a b (String.◌∷◌ c s) =
    length-cons _ _ ∙ ap suc (count-replace_char a b s) ∙ sym (length-cons c s)

count-repeat_char : (n : ℕ) (c : _) → count (repeat_char n c) ≡ n
unfolding repeat_char
count-repeat_char zero c = length-nil
count-repeat_char (suc n) c = length-cons _ _ ∙ ap suc (count-repeat_char n c)

-- The text handed to `atob` has a length in whole quartets, with fewer than four characters added.
count-pad_base64 :
    (b64 : String) → (count (pad_base64 b64) % 4 ≡ 0) × (count (pad_base64 b64) < count b64 + 4)
unfolding pad_base64 padding to_base64
count-pad_base64 b64 =
    let n = count b64 in
    let swapped =
      count-replace_char "_" "/" (replace_char "-" "+" b64) ∙ count-replace_char "-" "+" b64 in
    let filled = count-repeat_char ((4 - n % 4) % 4) "=" in
    let total = length-append (to_base64 b64) (repeat_char ((4 - n % 4) % 4) "=") in
    (omega (arith, total, swapped, filled), omega (arith, total, swapped, filled))
