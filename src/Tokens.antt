-- ===== src/Tokens.antt =====
-- Random tokens: workers/src/lib/auth.ts. The bytes of `crypto.getRandomValues` are an argument;
-- a byte is a number below 256.
pub mod Digits
use Prim.Native.Char.{Char}
use Prim.Native.String.{[], ◌∷◌}
use Prim.Native.String
use simtrader.Base.{
  ℕ, zero, suc, ◌-◌, ◌/◌, ◌%◌, ltb, String, if◌then◌else◌, List, map, join, repeat_char, nth_char,
}

abbrev pub hex_digit : ℕ → Char
hex_digit d = nth_char d "0123456789abcdef"

-- `b.toString(16)` for a byte.
abbrev pub byte_text : ℕ → String
byte_text b = if ltb b 16 then hex_digit b ∷ [] else hex_digit (b / 16) ∷ (hex_digit (b % 16) ∷ [])

abbrev pub text_length : String → ℕ
text_length [] = zero
text_length (c ∷ s) = suc (text_length s)

-- `s.padStart(n, c)`
abbrev pub pad_start : ℕ → Char → String → String
pad_start n c s = String.◌++◌ (repeat_char (n - text_length s) c) s

-- `toHex`
unfoldable pub to_hex : List ℕ → String
to_hex bytes = join "" (map (λ b. pad_start 2 "0" (byte_text b)) bytes)

abbrev pub token_bytes : ℕ
token_bytes = 32

-- `generateToken`: what the platform gives for a buffer of 32 bytes, in hex.
unfoldable pub generate_token : (ℕ → List ℕ) → String
unfolding to_hex
generate_token random_values = to_hex (random_values token_bytes)
