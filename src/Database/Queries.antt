-- ===== src/Database/Queries.antt =====
-- The shapes of the SELECT statements that list rows: ORDER BY, LIMIT and OFFSET, with the limits
-- and pages that workers/src/routes read from the query string. Rows of equal order come in the
-- table's order.
pub mod Newest
pub mod Pages
use simtrader.Base.{
  ℕ, ℤ, pos, negsuc, ◌-◌, ◌*◌, ◌/◌, min, max, String, Bool, ◌||◌, Option, none, some, List, [], ◌∷◌,
  ltb, take, drop, or_else, parse_decimal, parse_int, Exec, returned, thrown, ◌≡◌, if◌then◌else◌,
}
use simtrader.Json.{Json, null, str}
use simtrader.Http.{Response}

-- What Postgres and its client library do with values: how they write times, decimals and JSON
-- values, read times and UUIDs, match a pattern, and order UUIDs and texts.
pub record Postgres : Type 0 where
  -- A time in JSON, and as `String(date)`.
  pub show_time : ℕ → String
  pub date_text : ℕ → String
  -- `NOW()::text`, and `String(e)` of an error.
  pub now_text : ℕ → String
  pub error_text : String
  -- `detail::text`
  pub json_text : Json → String
  pub show_decimal : ℤ → String
  pub parse_time : String → Option ℕ
  pub is_uuid : String → Bool
  pub is_uuid-nil : is_uuid "" ≡ Bool.false
  -- `text ILIKE '%' || part || '%'`
  pub contains : String → String → Bool
  pub uuid_before : String → String → Bool
  pub text_before : String → String → Bool

-- A timestamp column that may be NULL.
abbrev pub time_or_null : Postgres → Option ℕ → Json
time_or_null pg none = null
time_or_null pg (some at) = str (pg.show_time at)

module _ {ℓ} {A : Type ℓ} where
  abbrev pub insert_by : (A → A → Bool) → A → List A → List A
  insert_by before x [] = x ∷ []
  insert_by before x (y ∷ ys) =
      let rest = insert_by before x ys in if before y x then y ∷ rest else x ∷ y ∷ ys

  -- `ORDER BY`
  abbrev pub order_by : (A → A → Bool) → List A → List A
  order_by before [] = []
  order_by before (x ∷ xs) = insert_by before x (order_by before xs)

  -- `ORDER BY created_at DESC`
  abbrev pub newest_first : (A → ℕ) → List A → List A
  newest_first at rows = order_by (λ a b. ltb (at b) (at a)) rows

-- `${filter}::text IS NULL OR column = ${filter}`
abbrev pub matches : Option String → (String → Bool) → Bool
matches none test = Bool.true
matches (some value) test = test value

-- A negative LIMIT, or NaN, is an error of the statement.
abbrev pub limit_or_throw : Option ℤ → Exec Response ℕ
limit_or_throw none = thrown
limit_or_throw (some (ℤ.pos n)) = returned (min n 200)
limit_or_throw (some (ℤ.negsuc n)) = thrown

-- `Math.min(parseInt(limit ?? '50', 10), 200)`
unfoldable pub list_limit : Option String → Exec Response ℕ
unfolding parse_decimal
list_limit query = limit_or_throw (parse_decimal (or_else query "50"))

abbrev pub page_or_throw : Option ℤ → Exec Response ℕ
page_or_throw none = thrown
page_or_throw (some (ℤ.pos n)) = returned (max 1 n)
page_or_throw (some (ℤ.negsuc n)) = returned 1

-- `Math.max(1, parseInt(page ?? '1'))`; an OFFSET of NaN is an error of the statement.
unfoldable pub page_number : Option String → Exec Response ℕ
unfolding parse_int
page_number query = page_or_throw (parse_int (or_else query "1"))

-- `LIMIT limit OFFSET (page - 1) * limit`
abbrev pub page_of {ℓ} : {A : Type ℓ} → ℕ → ℕ → List A → List A
page_of limit page rows = take limit (drop ((page - 1) * limit) rows)
