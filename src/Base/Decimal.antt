-- ===== src/Base/Decimal.antt =====
-- Numbers written in decimal, as a template writes them, are read back by `parseInt`.
use Prim.Native.Nat.{ℕ, zero, suc, ◌+◌, ◌*◌, ◌/◌, ◌%◌, ◌≤◌, ◌<◌}
use Prim.Native.Char.{Char, code}
use Prim.Native.String.{String, [], ◌∷◌}
use mathlib.Core.Path.{◌≡◌, refl, ap, ◌∙◌}
use mathlib.Core.Logic.{dite, inl, inr}
use mathlib.Core.Bool.{Bool, true, false, ◌&&◌}
use mathlib.Core.Option.{Option, none, some}
use mathlib.Core.WellFounded.{Acc}
use native.Mathlib.Decide.{dec_lt}
use native.Mathlib.Omega.{arith}
use simtrader.Base.Tests.{ltb, leb, eqb, if◌then◌else◌, Bool-cases, all_below-at}
use simtrader.Base.Int.{ℤ}
use simtrader.Base.Text.{nth_char}
use simtrader.Base.Trim.{trim_start, is_space, lower_code}
use simtrader.Base.Number.{digit_value, read_digits, as_positive, parse_int}

-- Every descent from a number below a bound ends: by induction on the bound.
pub descent_ends : (n bound : ℕ) → n < bound → Acc ◌<◌ n
descent_ends n zero under = absurd (omega arith)
descent_ends n (suc bound) under =
    Acc.intro n (λ below less. descent_ends below bound (omega arith))

pub tenth-below : (n : ℕ) → 0 < n → n / 10 < n
tenth-below n positive = omega arith

pub ends_from : (n : ℕ) → Acc ◌<◌ n
unfolding descent_ends
ends_from n = descent_ends n (n + 1) (omega arith)

abbrev digit : ℕ → Char
digit d = nth_char d "0123456789"

-- The digits of a number, in front of a text: each round divides by ten.
unfoldable pub put_digits : (n : ℕ) → Acc ◌<◌ n → String → String
put_digits n (Acc.intro _ smaller) out =
    dite (dec_lt 0 n)
      (λ h. put_digits (n / 10) (smaller (n / 10) (tenth-below n h)) (digit (n % 10) ∷ out))
      (λ _. out)

-- `${n}`
unfoldable pub show_number : ℕ → String
unfolding put_digits ends_from
show_number n = if eqb n 0 then "0" else put_digits n (ends_from n) []

digit_value-digit : (d : ℕ) → d < 10 → digit_value (digit d) ≡ d
digit_value-digit d h =
    let same =
      all_below-at 10 (λ d. eqb (digit_value (digit d)) d) (unfold digit_value in refl) d h in
    ground (arith, same)

read-digit :
    (d n : ℕ) (s : String) (begun : Bool)
    → d < 10
    → read_digits 10 (digit d ∷ s) n begun ≡ read_digits 10 s (n * 10 + d) true
unfolding read_digits
read-digit d n s begun h =
    let small : ltb d 10 ≡ true = ground (arith, h) in rw (digit_value-digit d h, small) refl

put_digits-zero : (n : ℕ) (a : Acc ◌<◌ n) (out : String) → n ≡ 0 → put_digits n a out ≡ out
unfolding put_digits
put_digits-zero n (Acc.intro _ smaller) out h =
    elim (dec_lt 0 n)
      as (λ d.
        dite d
          (λ h. put_digits (n / 10) (smaller (n / 10) (tenth-below n h)) (digit (n % 10) ∷ out))
          (λ _. out)
        ≡ out) [ yes more ↦ absurd (omega (arith, h)) | no done ↦ refl ]

read-put_digits :
    (n : ℕ) (a : Acc ◌<◌ n) (out : String)
    → 0 < n
    → read_digits 10 (put_digits n a out) 0 false ≡ read_digits 10 out n true
unfolding put_digits
read-put_digits n (Acc.intro _ smaller) out h =
    elim (dec_lt 0 n)
      as (λ d.
        read_digits 10
          (dite d
            (λ h. put_digits (n / 10) (smaller (n / 10) (tenth-below n h)) (digit (n % 10) ∷ out))
            (λ _. out))
          0 false
        ≡ read_digits 10 out n true) [
          | yes more ↦ elim (dec_lt 0 (n / 10)) [
            | yes deeper ↦
                read-put_digits (n / 10) (smaller (n / 10) (tenth-below n more))
                  (digit (n % 10) ∷ out) deeper
                ∙ read-digit (n % 10) (n / 10) out true (omega arith)
                ∙ ap (λ m. read_digits 10 out m true) (omega arith)
            | no last ↦
                ap (λ t. read_digits 10 t 0 false)
                  (put_digits-zero (n / 10) (smaller (n / 10) (tenth-below n more))
                    (digit (n % 10) ∷ out) (omega arith))
                ∙ read-digit (n % 10) 0 out false (omega arith)
                ∙ ap (λ m. read_digits 10 out m true) (omega arith)
          ]
          | no done ↦ absurd (done h)
        ]

read-end : (n : ℕ) → read_digits 10 [] n true ≡ some n
unfolding read_digits
read-end n = refl

-- A text of digits.
abbrev IsDigits : String → Type 0
IsDigits [] = Unit
IsDigits (c ∷ s) = ((b'0' ≤ code c) × (code c ≤ b'9')) × IsDigits s

digit-bounds : (d : ℕ) → d < 10 → (b'0' ≤ code (digit d)) × (code (digit d) ≤ b'9')
digit-bounds d h =
    let from = all_below-at 10 (λ d. leb b'0' (code (digit d))) refl d h in
    let upto = all_below-at 10 (λ d. leb (code (digit d)) b'9') refl d h in
    (ground (arith, from), ground (arith, upto))

put_digits-IsDigits :
    (n : ℕ) (a : Acc ◌<◌ n) (out : String) → IsDigits out → IsDigits (put_digits n a out)
unfolding put_digits
put_digits-IsDigits n (Acc.intro _ smaller) out h =
    elim (dec_lt 0 n)
      as (λ d. IsDigits (
        dite d
          (λ h. put_digits (n / 10) (smaller (n / 10) (tenth-below n h)) (digit (n % 10) ∷ out))
          (λ _. out))) [
            | yes more ↦
                put_digits-IsDigits (n / 10) (smaller (n / 10) (tenth-below n more))
                  (digit (n % 10) ∷ out) (digit-bounds (n % 10) (omega arith), h)
            | no done ↦ h
          ]

-- What `parseInt` looks at first: no white space, no sign, and no prefix 0x.
digit-plain :
    (c : Char)
    → b'0' ≤ code c
    → code c ≤ b'9'
    → (is_space c ≡ false) × (eqb (code c) b'-' ≡ false) × (eqb (code c) b'+' ≡ false)
digit-plain c low high = (ground arith, ground arith, ground arith)

digit-ne-x :
    (c d : Char)
    → b'0' ≤ code d
    → code d ≤ b'9'
    → (eqb (code c) b'0' && eqb (lower_code (code d)) b'x') ≡ false
digit-ne-x c d low high = ground arith

parse-IsDigits :
    (s : String) (n : ℕ)
    → IsDigits s
    → read_digits 10 s 0 false ≡ some n
    → parse_int s ≡ some (ℤ.pos n)
unfolding parse_int trim_start
parse-IsDigits [] n h e =
    let none_there : ◌≡◌ {A = Option ℕ} none (some n) = (unfold read_digits in e) in
    absurd (cc none_there)
parse-IsDigits (c ∷ []) n h e =
    let (space, minus, plus) = digit-plain c h.0.0 h.0.1 in
    rw (space, minus, plus) (ap as_positive e)
parse-IsDigits (c ∷ (d ∷ s)) n h e =
    let (space, minus, plus) = digit-plain c h.0.0 h.0.1 in
    rw (space, minus, plus, digit-ne-x c d h.1.0.0 h.1.0.1) (ap as_positive e)

-- `parseInt` reads back a number that a template wrote.
pub parse_int-show_number : (n : ℕ) → parse_int (show_number n) ≡ some (ℤ.pos n)
unfolding show_number
parse_int-show_number n = elim (Bool-cases (eqb n 0)) [
  | inl nothing ↦ rw nothing (
      parse-IsDigits "0" 0 ((omega arith, omega arith), tt) (unfold read_digits digit_value in refl)
      ∙ ap (λ m. some (ℤ.pos m)) (ground arith))
  | inr positive ↦ rw positive (
      parse-IsDigits (put_digits n (ends_from n) []) n (put_digits-IsDigits n (ends_from n) [] tt)
        (read-put_digits n (ends_from n) [] (ground arith) ∙ read-end n))
]
