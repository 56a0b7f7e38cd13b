-- ===== src/Base/Trim.antt =====
-- `trim`, and prefixes of texts. White space is that of ASCII; case is that of ASCII letters.
use Prim.Native.Nat.{ℕ, ◌+◌, ◌-◌}
use Prim.Native.Char.{Char, code}
use Prim.Native.String.{String, [], ◌∷◌}
use mathlib.Core.Bool.{Bool, true, false, ◌&&◌, ◌||◌}
use simtrader.Base.Tests.{eqb, leb, if◌then◌else◌}
use simtrader.Base.Text.{truthy_text, nth_char}

abbrev pub is_space : Char → Bool
is_space c = eqb (code c) 32 || leb 9 (code c) && leb (code c) 13

unfoldable pub trim_start : String → String
trim_start [] = []
trim_start (c ∷ s) = let rest = trim_start s in if is_space c then rest else c ∷ s

unfoldable pub trim_end : String → String
trim_end [] = []
trim_end (c ∷ s) =
    let rest = trim_end s in
    if is_space c then (if truthy_text rest then c ∷ rest else []) else c ∷ rest

unfoldable pub trim : String → String
unfolding trim_start trim_end
trim s = trim_end (trim_start s)

abbrev pub lower_code : ℕ → ℕ
lower_code c = if leb b'A' c && leb c b'Z' then c + 32 else c

abbrev pub upper_char : Char → Char
upper_char c =
    if leb b'a' (code c) && leb (code c) b'z'
    then nth_char (code c - b'a') "ABCDEFGHIJKLMNOPQRSTUVWXYZ"
    else c

-- `s.toUpperCase()`
unfoldable pub to_upper_case : String → String
to_upper_case [] = []
to_upper_case (c ∷ s) = upper_char c ∷ to_upper_case s

-- `s.toLowerCase().startsWith(prefix)` at a prefix in lower case.
unfoldable pub starts_with_lowered : String → String → Bool
starts_with_lowered s [] = true
starts_with_lowered [] (p ∷ ps) = false
starts_with_lowered (c ∷ s) (p ∷ ps) =
    let rest = starts_with_lowered s ps in
    if eqb (lower_code (code c)) (code p) then rest else false

-- `s.startsWith(prefix)`
unfoldable pub starts_with : String → String → Bool
starts_with s [] = true
starts_with [] (p ∷ ps) = false
starts_with (c ∷ s) (p ∷ ps) =
    let rest = starts_with s ps in if eqb (code c) (code p) then rest else false
