-- ===== src/AuditLog/Csv.antt =====
-- The CSV text of the export of workers/src/routes/admin/audit-log.ts, and a reader for it.
use Prim.Native.Char.{Char, code}
use Prim.Native.String
use Prim.Native.String.{String, [], ◌∷◌}
use mathlib.Core.Option.{Option, none, some}
use mathlib.Core.List.{List, map}
use simtrader.Base.{eqb, if◌then◌else◌, join}

-- `v.replace(/"/g, '""')`
unfoldable pub double_quotes : String → String
double_quotes [] = []
double_quotes (c ∷ s) =
    let rest = double_quotes s in if eqb (code c) b'"' then "\"" ∷ ("\"" ∷ rest) else c ∷ rest

-- `"${…}"`
unfoldable pub quote : String → String
unfolding double_quotes
quote v = "\"" ∷ String.◌++◌ (double_quotes v) "\""

-- One line.
unfoldable pub csv_line : List String → String
unfolding quote join
csv_line fields = join "," (map quote fields)

unfoldable pub csv_lines : List (List String) → String
unfolding csv_line join
csv_lines rows = join "\n" (map csv_line rows)

abbrev pub Rows : Type 0
Rows = List (List String)

-- What a reader of quoted fields has before it: the start of a field, the inside of one, or what
-- follows a quote inside one.
pub data Place : Type 0 where
  at_field inside after_quote : Place

-- One more character of the first field.
abbrev pub put_char : Char → Option Rows → Option Rows
put_char c (some (List.◌∷◌ (List.◌∷◌ f fs) rows)) = some (List.◌∷◌ (List.◌∷◌ (c ∷ f) fs) rows)
put_char c _ = none

-- An empty field before the first one of the first row.
abbrev pub put_field : Option Rows → Option Rows
put_field (some (List.◌∷◌ row rows)) = some (List.◌∷◌ (List.◌∷◌ [] row) rows)
put_field _ = none

-- A row of an empty field before the first row.
abbrev pub put_row : Option Rows → Option Rows
put_row (some rows) = some (List.◌∷◌ (List.◌∷◌ [] List.[]) rows)
put_row none = none

-- The reader: fields in quotes, with a quote written twice, commas between the fields and line
-- breaks between the rows.
unfoldable pub read_at : Place → String → Option Rows
read_at Place.at_field [] = none
read_at Place.at_field (c ∷ s) =
    let rest = read_at Place.inside s in if eqb (code c) b'"' then rest else none
read_at Place.inside [] = none
read_at Place.inside (c ∷ s) =
    let closed = read_at Place.after_quote s in
    let more = read_at Place.inside s in if eqb (code c) b'"' then closed else put_char c more
read_at Place.after_quote [] = some (List.◌∷◌ (List.◌∷◌ [] List.[]) List.[])
read_at Place.after_quote (c ∷ s) =
    let again = read_at Place.inside s in
    let next = read_at Place.at_field s in
    if eqb (code c) b'"'
    then put_char c again
    else if eqb (code c) b','
    then put_field next
    else if eqb (code c) 10
    then put_row next
    else none

unfoldable pub read_csv : String → Option Rows
unfolding read_at
read_csv [] = some List.[]
read_csv (c ∷ s) = read_at Place.at_field (c ∷ s)
