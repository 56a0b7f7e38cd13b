-- ===== src/Base/Text.antt =====
-- Text as the program walks it: character by character.
use Prim.Native.Nat.{ℕ, zero, suc}
use Prim.Native.Char.{Char, code}
use Prim.Native.String
use Prim.Native.String.{String, [], ◌∷◌}
use mathlib.Core.Path.{◌≡◌, refl, ap, ◌∙◌}
use mathlib.Core.Logic.{inl, inr}
use mathlib.Core.Bool.{Bool, true, false}
use mathlib.Core.List.{List}
use native.Mathlib.Omega.{arith}
use text.Mathlib.TextEquality.{Char-path}
use text.Mathlib.TextLemmas.{nil-append, cons-append}
use simtrader.Base.Tests.{eqb, if◌then◌else◌, Bool-cases}

-- The first piece of a split, with one more character in front.
abbrev pub cons_head : Char → List String → List String
cons_head c List.[] = List.◌∷◌ (c ∷ []) List.[]
cons_head c (List.◌∷◌ part parts) = List.◌∷◌ (c ∷ part) parts

-- `s.split(sep)` at a separator of one character.
unfoldable pub split : Char → String → List String
split sep [] = List.◌∷◌ [] List.[]
split sep (c ∷ s) =
    let rest = split sep s in if eqb (code c) (code sep) then List.◌∷◌ [] rest else cons_head c rest

-- `parts.join(sep)`
unfoldable pub join : String → List String → String
join sep List.[] = []
join sep (List.◌∷◌ part List.[]) = part
join sep (List.◌∷◌ part (List.◌∷◌ next parts)) =
    String.◌++◌ part (String.◌++◌ sep (join sep (List.◌∷◌ next parts)))

-- `s.includes(c)` for one character.
unfoldable pub has_char : Char → String → Bool
has_char c [] = false
has_char c (d ∷ s) = let rest = has_char c s in if eqb (code d) (code c) then true else rest

-- `s.replace(/a/g, b)` for single characters.
unfoldable pub replace_char : Char → Char → String → String
replace_char a b [] = []
replace_char a b (c ∷ s) = (if eqb (code c) (code a) then b else c) ∷ replace_char a b s

-- `''.padEnd(n, c)`: n copies of one character.
unfoldable pub repeat_char : ℕ → Char → String
repeat_char zero c = []
repeat_char (suc n) c = c ∷ repeat_char n c

-- The character at a position.
abbrev pub nth_char : ℕ → String → Char
nth_char n [] = "0"
nth_char zero (c ∷ s) = c
nth_char (suc n) (c ∷ s) = nth_char n s

-- `if (s)`: the empty text is falsy.
abbrev pub truthy_text : String → Bool
truthy_text [] = false
truthy_text (c ∷ s) = true

split-ne-nil :
    (sep : Char) (s : String) → (p : String) × (ps : List String) × (split sep s ≡ List.◌∷◌ p ps)
unfolding split
split-ne-nil sep [] = ([], List.[], refl)
split-ne-nil sep (c ∷ s) =
    let (p, ps, e) = split-ne-nil sep s in
    elim (Bool-cases (eqb (code c) (code sep))) [
      | inl same ↦ ([], split sep s, rw same)
      | inr other ↦ (c ∷ p, ps, rw (other, e))
    ]

join-cons_head :
    (sep c : Char) (p : String) (ps : List String)
    → join (sep ∷ []) (cons_head c (List.◌∷◌ p ps)) ≡ c ∷ join (sep ∷ []) (List.◌∷◌ p ps)
unfolding join
join-cons_head sep c p List.[] = refl
join-cons_head sep c p (List.◌∷◌ q qs) =
    cons-append c p (String.◌++◌ (sep ∷ []) (join (sep ∷ []) (List.◌∷◌ q qs)))

join-nil_head :
    (sep : Char) (p : String) (ps : List String)
    → join (sep ∷ []) (List.◌∷◌ [] (List.◌∷◌ p ps)) ≡ sep ∷ join (sep ∷ []) (List.◌∷◌ p ps)
unfolding join
join-nil_head sep p ps =
    nil-append (String.◌++◌ (sep ∷ []) (join (sep ∷ []) (List.◌∷◌ p ps)))
    ∙ cons-append sep [] (join (sep ∷ []) (List.◌∷◌ p ps))
    ∙ ap (λ t. sep ∷ t) (nil-append (join (sep ∷ []) (List.◌∷◌ p ps)))

-- Joining the pieces of a split gives the text back.
pub join-split : (sep : Char) (s : String) → join (sep ∷ []) (split sep s) ≡ s
unfolding split
join-split sep [] = unfold join in refl
join-split sep (c ∷ s) =
    let (p, ps, e) = split-ne-nil sep s in
    elim (Bool-cases (eqb (code c) (code sep))) [
      | inl same ↦
          rw (same, e)
            (join-nil_head sep p ps
              ∙ ap (λ t. sep ∷ t) (rw (← e) (join-split sep s))
              ∙ ap (λ d. d ∷ s) (Char-path sep c (ground arith)))
      | inr other ↦
          rw (other, e) (join-cons_head sep c p ps ∙ ap (λ t. c ∷ t) (rw (← e) (join-split sep s)))
    ]
