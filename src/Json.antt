-- ===== src/Json.antt =====
-- JSON values, as `JSON.parse` gives them, and what the program's TypeScript does with a value of
-- unknown shape: property access, `typeof` tests, `===` and truthiness. Text and parsed value are
-- not told apart: what `JSON.stringify` wrote, `JSON.parse` reads back. An object has each of its
-- keys once. A number counts ten-thousandths; finer fractions are left out.
use simtrader.Base.{
  ℤ, pos, eqb_ℤ, String, ◌==◌, Bool, true, false, not, Option, none, some, List, [], ◌∷◌, Exec,
  returned, thrown, if◌then◌else◌, truthy_text,
}

mutual
  pub data Json : Type 0 where
    null : Json
    bool : Bool → Json
    num : ℤ → Json
    str : String → Json
    arr : Items → Json
    obj : Fields → Json

  pub data Items : Type 0 where
    nil : Items
    cons : Json → Items → Items

  pub data Fields : Type 0 where
    end : Fields
    field : String → Json → Fields → Fields

abbrev pub to_list : Items → List Json
to_list nil = []
to_list (cons v vs) = v ∷ to_list vs

unfoldable pub of_list : List Json → Items
of_list [] = nil
of_list (v ∷ vs) = cons v (of_list vs)

unfoldable pub get_field : String → Fields → Option Json
get_field key end = none
get_field key (field k v fs) = let rest = get_field key fs in if k == key then some v else rest

-- `v.key` at a key that is no method of a prototype: `none` is undefined.
unfoldable pub get_prop : Json → String → Option Json
unfolding get_field
get_prop (obj fs) key = get_field key fs
get_prop v key = none

-- Reading a property of null throws.
unfoldable pub read_prop {κ} : {E : Type κ} → Json → String → Exec E (Option Json)
unfolding get_prop
read_prop null key = thrown
read_prop v key = returned (get_prop v key)

-- `typeof v === 'string' ? v : undefined`
abbrev pub as_string : Option Json → Option String
as_string (some (str s)) = some s
as_string _ = none

-- `typeof v === 'number' ? v : undefined`
abbrev pub as_number : Option Json → Option ℤ
as_number (some (num n)) = some n
as_number _ = none

-- `Array.isArray(v) ? v : undefined`
abbrev pub as_array : Option Json → Option (List Json)
as_array (some (arr vs)) = some (to_list vs)
as_array _ = none

-- `v === s`
abbrev pub equals_string : Option Json → String → Bool
equals_string (some (str t)) s = t == s
equals_string _ s = false

-- `v && typeof v === 'object' ? v : null`
abbrev pub as_object : Option Json → Option Json
as_object (some (arr vs)) = some (arr vs)
as_object (some (obj fs)) = some (obj fs)
as_object _ = none

-- `if (v)`
abbrev pub truthy : Option Json → Bool
truthy none = false
truthy (some null) = false
truthy (some (bool b)) = b
truthy (some (num n)) = not (eqb_ℤ n (pos 0))
truthy (some (str s)) = truthy_text s
truthy (some (arr vs)) = true
truthy (some (obj fs)) = true

-- The strings of an array: `vs.filter(s => typeof s === 'string')`.
unfoldable pub strings_of : List Json → List String
strings_of [] = []
strings_of (str s ∷ vs) = s ∷ strings_of vs
strings_of (v ∷ vs) = strings_of vs

-- An array of strings as a JSON value.
unfoldable pub of_strings : List String → Items
of_strings [] = nil
of_strings (s ∷ ss) = cons (str s) (of_strings ss)

-- `{ k: v, … }`
abbrev pub fields_of : List (String × Json) → Fields
fields_of [] = end
fields_of ((k, v) ∷ rest) = field k v (fields_of rest)

abbrev pub object : List (String × Json) → Json
object entries = obj (fields_of entries)

-- A column that may be NULL.
abbrev pub text_or_null : Option String → Json
text_or_null none = null
text_or_null (some s) = str s

abbrev pub json_or_null : Option Json → Json
json_or_null none = null
json_or_null (some v) = v
