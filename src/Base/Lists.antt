-- ===== src/Base/Lists.antt =====
-- Lists measured by native numbers and searched by Boolean tests, under the library's names.
use Prim.Native.Nat.{ℕ, zero, suc, ◌+◌, ◌≤◌}
use mathlib.Core.Path.{◌≡◌, refl, ap, ◌∙◌}
use mathlib.Core.Logic.{◌⊎◌, inl, inr, ◌↔◌}
use mathlib.Core.Bool.{Bool, true, false, ◌||◌}
use mathlib.Core.Option.{Option, none, some}
use mathlib.Core.List.{List, [], ◌∷◌, ◌++◌, map}
use native.Mathlib.Omega.{arith}
use native.Mathlib.Nat.{zero-add, suc-add}
use simtrader.Base.Tests.{if◌then◌else◌, Bool-cases}

-- The empty type at any level.
pub data Empty {ℓ} : Type ℓ where

module _ {ℓ} {A : Type ℓ} where
  abbrev pub length : List A → ℕ
  length [] = 0
  length (x ∷ xs) = suc (length xs)

  -- `xs.filter(test)`
  abbrev pub filter : (A → Bool) → List A → List A
  filter test [] = []
  filter test (x ∷ xs) = let rest = filter test xs in if test x then x ∷ rest else rest

  -- `LIMIT n`, and `xs.slice(0, n)`
  abbrev pub take : ℕ → List A → List A
  take zero xs = []
  take (suc n) [] = []
  take (suc n) (x ∷ xs) = x ∷ take n xs

  -- `OFFSET n`
  abbrev pub drop : ℕ → List A → List A
  drop zero xs = xs
  drop (suc n) [] = []
  drop (suc n) (x ∷ xs) = drop n xs

  abbrev pub any : (A → Bool) → List A → Bool
  any test [] = false
  any test (x ∷ xs) = test x || any test xs

  -- The first row that passes the test: `rows[0]` of a query.
  abbrev pub find : (A → Bool) → List A → Option A
  find test [] = none
  find test (x ∷ xs) = let rest = find test xs in if test x then some x else rest

  abbrev pub is_empty : List A → Bool
  is_empty [] = true
  is_empty (x ∷ xs) = false

  -- Membership by recursion, which the tactics take apart.
  abbrev pub In : A → List A → Type ℓ
  In a [] = Empty
  In a (x ∷ xs) = (x ≡ a) ⊎ In a xs

  abbrev pub All {κ} : (A → Type κ) → List A → Type κ
  All P [] = Unit
  All P (x ∷ xs) = P x × All P xs

  pub In-filter_iff :
      (test : A → Bool) (a : A) (xs : List A) → In a (filter test xs) ↔ (In a xs × (test a ≡ true))
  In-filter_iff test a [] = ((elim [ ]), λ h. h.0)
  In-filter_iff test a (x ∷ xs) =
      let (to, from) = In-filter_iff test a xs in
      elim (Bool-cases (test x)) [
        | inl kept ↦ rw kept (
          (elim [
            | inl same ↦ (inl same, rw same at kept)
            | inr later ↦ (inr (to later).0, (to later).1)
          ]),
          (λ h. elim (h.0) [ inl same ↦ inl same | inr later ↦ inr (from (later, h.1)) ]),
        )
        | inr dropped ↦ rw dropped (
          (λ later. (inr (to later).0, (to later).1)),
          (λ h. elim (h.0) [
            | inl same ↦ absurd (let e : test x ≡ true = rw same h.1 in cc)
            | inr later ↦ from (later, h.1)
          ]),
        )
      ]

  pub any_iff :
      (test : A → Bool) (xs : List A) → (any test xs ≡ true) ↔ ((a : A) × In a xs × (test a ≡ true))
  any_iff test [] = ((λ h. absurd (cc)), λ h. elim (h.1) [ ])
  any_iff test (x ∷ xs) =
      let (to, from) = any_iff test xs in
      elim (Bool-cases (test x)) [
        | inl hit ↦ rw hit ((λ h. (x, inl refl, hit)), λ h. refl)
        | inr miss ↦ rw miss (
          (λ h. ((to h).0, inr (to h).1, (to h).2)),
          (λ h. elim (h.1) [
            | inl same ↦ absurd (let e : test x ≡ true = rw same h.2 in cc)
            | inr later ↦ from (h.0, later, h.2)
          ]),
        )
      ]

  pub nil_of_is_empty : (xs : List A) → is_empty xs ≡ true → xs ≡ []
  nil_of_is_empty [] h = refl
  nil_of_is_empty (x ∷ xs) h = cc

  pub drop_none : (xs : List A) → drop 0 xs ≡ xs
  drop_none [] = refl
  drop_none (x ∷ xs) = refl

  pub take-append-drop :
      (n m : ℕ) (xs : List A) → (take n xs ++ take m (drop n xs)) ≡ take (n + m) xs
  take-append-drop zero m xs = rw zero-add refl
  take-append-drop (suc n) zero [] = rw suc-add refl
  take-append-drop (suc n) (suc m) [] = rw suc-add refl
  take-append-drop (suc n) m (x ∷ xs) = rw suc-add (ap (λ t. x ∷ t) (take-append-drop n m xs))

  pub drop-drop : (n m : ℕ) (xs : List A) → drop m (drop n xs) ≡ drop (n + m) xs
  drop-drop zero m xs = rw zero-add refl
  drop-drop (suc n) zero [] = rw suc-add refl
  drop-drop (suc n) (suc m) [] = rw suc-add refl
  drop-drop (suc n) m (x ∷ xs) = rw suc-add (drop-drop n m xs)

  pub take_all : (n : ℕ) (xs : List A) → length xs ≤ n → take n xs ≡ xs
  take_all zero [] h = refl
  take_all zero (x ∷ xs) h = absurd (omega (arith, h))
  take_all (suc n) [] h = refl
  take_all (suc n) (x ∷ xs) h = ap (λ t. x ∷ t) (take_all n xs (omega (arith, h)))

pub length-map {ℓ κ} :
    {A : Type ℓ} {B : Type κ} (f : A → B) (xs : List A) → length (map f xs) ≡ length xs
length-map f [] = refl
length-map f (x ∷ xs) = ap suc (length-map f xs)

module _ {ℓ κ μ} {A : Type ℓ} (P : A → Type κ) (Q : A → Type μ) where
  pub All-imp : ((a : A) → P a → Q a) → (xs : List A) → All P xs → All Q xs
  All-imp f [] h = tt
  All-imp f (x ∷ xs) h = (f x h.0, All-imp f xs h.1)

-- A filter after a map, by a test that agrees.
pub filter-map {ℓ κ} :
    {A : Type ℓ} {B : Type κ} (f : A → B) (test : A → Bool) (check : B → Bool) (xs : List A)
    → ((a : A) → check (f a) ≡ test a)
    → filter check (map f xs) ≡ map f (filter test xs)
filter-map f test check [] h = refl
filter-map f test check (x ∷ xs) h = elim (Bool-cases (test x)) [
  | inl kept ↦
      let kept' = h x ∙ kept in rw (kept, kept') (ap (λ t. f x ∷ t) (filter-map f test check xs h))
  | inr dropped ↦
      let dropped' = h x ∙ dropped in rw (dropped, dropped') (filter-map f test check xs h)
]

pub In-map_iff {ℓ κ} :
    {A : Type ℓ} {B : Type κ} (f : A → B) (b : B) (xs : List A)
    → In b (map f xs) ↔ ((a : A) × In a xs × (f a ≡ b))
In-map_iff f b [] = ((elim [ ]), λ h. elim (h.1) [ ])
In-map_iff f b (x ∷ xs) =
    let (to, from) = In-map_iff f b xs in
    (
      (elim [
        | inl same ↦ (x, inl refl, same)
        | inr later ↦ ((to later).0, inr (to later).1, (to later).2)
      ]),
      (λ h. elim (h.1) [
        | inl same ↦ inl (ap f same ∙ h.2)
        | inr later ↦ inr (from (h.0, later, h.2))
      ]),
    )
