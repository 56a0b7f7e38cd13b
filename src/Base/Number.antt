-- ===== src/Base/Number.antt =====
-- `parseInt`, and numbers written in decimal. A value beyond 2^53, which the code would round, is
-- exact here.
use Prim.Native.Nat.{ℕ, zero, suc, ◌+◌, ◌-◌, ◌*◌}
use Prim.Native.Char.{Char, code}
use Prim.Native.String.{String, [], ◌∷◌}
use mathlib.Core.Bool.{Bool, true, false, ◌&&◌}
use mathlib.Core.Option.{Option, none, some}
use simtrader.Base.Tests.{ltb, leb, eqb, if◌then◌else◌}
use simtrader.Base.Int.{ℤ}
use simtrader.Base.Trim.{trim_start, lower_code}

-- The value of a digit or a letter; 36 for any other character.
unfoldable pub digit_value : Char → ℕ
digit_value c =
    if leb b'0' (code c) && leb (code c) b'9'
    then code c - b'0'
    else if leb b'a' (lower_code (code c)) && leb (lower_code (code c)) b'z'
    then lower_code (code c) - b'a' + 10
    else 36

abbrev some_if : Bool → ℕ → Option ℕ
some_if true n = some n
some_if false n = none

-- The digits up to the first other character, after a number that has begun or not.
unfoldable pub read_digits : ℕ → String → ℕ → Bool → Option ℕ
unfolding digit_value
read_digits radix [] n begun = some_if begun n
read_digits radix (c ∷ s) n begun =
    let rest = read_digits radix s (n * radix + digit_value c) true in
    if ltb (digit_value c) radix then rest else some_if begun n

abbrev pub as_positive : Option ℕ → Option ℤ
as_positive none = none
as_positive (some n) = some (ℤ.pos n)

abbrev as_negative : Option ℕ → Option ℤ
as_negative none = none
as_negative (some zero) = some (ℤ.pos 0)
as_negative (some (suc n)) = some (ℤ.negsuc n)

-- Without a radix, a text that starts with 0x is read in base 16.
abbrev read_any : String → Option ℕ
read_any (a ∷ (b ∷ s)) =
    if eqb (code a) b'0' && eqb (lower_code (code b)) b'x'
    then read_digits 16 s 0 false
    else read_digits 10 (a ∷ (b ∷ s)) 0 false
read_any s = read_digits 10 s 0 false

abbrev signed : (String → Option ℕ) → String → Option ℤ
signed read [] = as_positive (read [])
signed read (c ∷ s) =
    if eqb (code c) b'-'
    then as_negative (read s)
    else if eqb (code c) b'+'
    then as_positive (read s)
    else as_positive (read (c ∷ s))

-- `parseInt(s, 10)`; `none` is NaN.
unfoldable pub parse_decimal : String → Option ℤ
unfolding read_digits trim_start
parse_decimal s = signed (λ t. read_digits 10 t 0 false) (trim_start s)

-- `parseInt(s)`
unfoldable pub parse_int : String → Option ℤ
unfolding read_digits trim_start
parse_int s = signed read_any (trim_start s)
