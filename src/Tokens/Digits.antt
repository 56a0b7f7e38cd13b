-- ===== src/Tokens/Digits.antt =====
-- What a random token encodes: workers/src/lib/auth.ts.
use Prim.Native.String.{[], ◌∷◌}
use Prim.Native.String
use text.Mathlib.TextLemmas.{nil-append, cons-append}
use simtrader.Base.{
  ℕ, ◌+◌, ◌*◌, ◌/◌, ◌%◌, ◌<◌, eqb, ltb, Bool-cases, inl, inr, String, List, All, length, join,
  all_below-at, digit_value, repeat_char, ◌≡◌, refl, ap, ap₂, ◌∙◌, arith,
}
use simtrader.Tokens.{hex_digit, byte_text, pad_start, text_length, to_hex, generate_token}

-- The bytes that a text writes, two digits to the byte.
abbrev pub of_hex : String → List ℕ
of_hex [] = List.[]
of_hex (a ∷ []) = List.[]
of_hex (a ∷ (b ∷ s)) = List.◌∷◌ (digit_value a * 16 + digit_value b) (of_hex s)

digit_value-hex_digit : (d : ℕ) → d < 16 → digit_value (hex_digit d) ≡ d
digit_value-hex_digit d h =
    let same =
      all_below-at 16 (λ d. eqb (digit_value (hex_digit d)) d) (unfold digit_value in refl) d h in
    ground (arith, same)

-- A byte is two digits.
two-digits :
    (b : ℕ)
    → b < 256
    → pad_start 2 "0" (byte_text b) ≡ hex_digit (b / 16) ∷ (hex_digit (b % 16) ∷ [])
unfolding repeat_char
two-digits b h = elim (Bool-cases (ltb b 16)) [
  | inl small ↦
      let zero_high : b / 16 ≡ 0 = ground (arith, small) in
      let low : b % 16 ≡ b = ground (arith, small) in
      rw (small, zero_high, low)
        (cons-append "0" [] (hex_digit b ∷ []) ∙ ap (λ s. "0" ∷ s) (nil-append (hex_digit b ∷ [])))
  | inr large ↦ rw large (nil-append (hex_digit (b / 16) ∷ (hex_digit (b % 16) ∷ [])))
]

to_hex-cons :
    (b : ℕ) (bytes : List ℕ)
    → b < 256
    → to_hex (List.◌∷◌ b bytes) ≡ hex_digit (b / 16) ∷ (hex_digit (b % 16) ∷ to_hex bytes)
unfolding to_hex join
to_hex-cons b List.[] h = two-digits b h
to_hex-cons b (List.◌∷◌ c bytes) h =
    let rest = to_hex (List.◌∷◌ c bytes) in
    let low = hex_digit (b % 16) in
    rw (two-digits b h) (
      cons-append (hex_digit (b / 16)) (low ∷ []) (String.◌++◌ [] rest)
      ∙ ap (λ s. hex_digit (b / 16) ∷ s)
          (cons-append low [] (String.◌++◌ [] rest)
            ∙ ap (λ s. low ∷ s) (nil-append (String.◌++◌ [] rest) ∙ nil-append rest)))

of_hex-to_hex : (bytes : List ℕ) → All (λ b. b < 256) bytes → of_hex (to_hex bytes) ≡ bytes
of_hex-to_hex List.[] h = unfold to_hex join in refl
of_hex-to_hex (List.◌∷◌ b bytes) h =
    rw
      (
        to_hex-cons b bytes h.0,
        digit_value-hex_digit (b / 16) (omega (arith, h.0)),
        digit_value-hex_digit (b % 16) (omega arith),
      )
      (ap₂ List.◌∷◌ (omega arith) (of_hex-to_hex bytes h.1))

length-to_hex :
    (bytes : List ℕ) → All (λ b. b < 256) bytes → text_length (to_hex bytes) ≡ 2 * length bytes
length-to_hex List.[] h = unfold to_hex join in refl
length-to_hex (List.◌∷◌ b bytes) h =
    rw (to_hex-cons b bytes h.0, length-to_hex bytes h.1) (omega arith)

-- Where the generator gives 32 bytes, a token has 64 characters and is the 32 bytes in hex: reading
-- its digits two by two gives the bytes back, so different bytes make different tokens.
pub generate_token-reads :
    (random_values : ℕ → List ℕ)
    → length (random_values 32) ≡ 32
    → All (λ b. b < 256) (random_values 32)
    → (text_length (generate_token random_values) ≡ 64)
      × (of_hex (generate_token random_values) ≡ random_values 32)
unfolding generate_token
generate_token-reads random_values size bytes = (
  length-to_hex (random_values 32) bytes ∙ ap (λ n. 2 * n) size,
  of_hex-to_hex (random_values 32) bytes,
)
