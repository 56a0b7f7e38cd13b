-- ===== src/Database/Queries/Pages.antt =====
-- The pages of a list.
use Prim.Native.Nat.{zero, suc}
use native.Mathlib.Nat.{zero-mul, lt-div-mul-add}
use simtrader.Base.{
  ℕ, ◌+◌, ◌-◌, ◌*◌, ◌/◌, ◌≤◌, ◌<◌, List, [], ◌∷◌, ◌++◌, length, take, drop, take-append-drop,
  drop-drop, take_all, drop_none, ◌≡◌, refl, sym, ap, ap₂, ◌∙◌, arith,
}
use simtrader.Database.Queries.{page_of}

-- `Math.ceil(total / limit)`
abbrev pub page_count : ℕ → ℕ → ℕ
page_count total limit = (total + limit - 1) / limit

-- The pages' numbers: k of them, after page q.
abbrev pub numbers : ℕ → ℕ → List ℕ
numbers zero q = []
numbers (suc k) q = suc q ∷ numbers k (suc q)

-- The rows of some pages, one page after the other.
abbrev pub rows_of : {A : Type 0} → (ℕ → List A) → List ℕ → List A
rows_of page [] = []
rows_of page (p ∷ ps) = page p ++ rows_of page ps

module _ {A : Type 0} (limit : ℕ) (rows : List A) where
  abbrev nth_page : ℕ → List A
  nth_page p = page_of limit p rows

  rows_of-numbers :
      (k q : ℕ) → rows_of nth_page (numbers k q) ≡ take (k * limit) (drop (q * limit) rows)
  rows_of-numbers zero q = rw zero-mul refl
  rows_of-numbers (suc k) q =
      let next : q * limit + limit ≡ suc q * limit = omega arith in
      let offset : (suc q - 1) * limit ≡ q * limit = ap (λ n. n * limit) (omega arith) in
      let total : limit + k * limit ≡ suc k * limit = omega arith in
      ap₂ (λ s t. s ++ t) (ap (λ n. take limit (drop n rows)) offset) (rows_of-numbers k (suc q))
      ∙ ap (λ n. take limit (drop (q * limit) rows) ++ take (k * limit) (drop n rows)) (sym next)
      ∙ ap (λ t. take limit (drop (q * limit) rows) ++ take (k * limit) t)
          (sym (drop-drop (q * limit) limit rows))
      ∙ take-append-drop limit (k * limit) (drop (q * limit) rows)
      ∙ ap (λ n. take n (drop (q * limit) rows)) total

  count-enough : 0 < limit → (total : ℕ) → total ≤ page_count total limit * limit
  count-enough h total = omega (arith, lt-div-mul-add {a = total + limit - 1} h)

  -- The pages from the first to the last hold the whole list, in its order.
  pub rows_of-all :
      0 < limit
      → rows_of (λ p. page_of limit p rows) (numbers (page_count (length rows) limit) 0) ≡ rows
  rows_of-all h =
      rows_of-numbers (page_count (length rows) limit) 0
      ∙ ap (λ n. take (page_count (length rows) limit * limit) (drop n rows)) (zero-mul limit)
      ∙ ap (λ t. take (page_count (length rows) limit * limit) t) (drop_none rows)
      ∙ take_all (page_count (length rows) limit * limit) rows (count-enough h (length rows))
