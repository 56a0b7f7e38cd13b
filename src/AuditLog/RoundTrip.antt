-- ===== src/AuditLog/RoundTrip.antt =====
-- A reader of CSV gets the fields of the export back.
use Prim.Native.Char.{Char, code}
use Prim.Native.String.{String, [], ◌∷◌, ◌++◌}
use mathlib.Core.Path.{◌≡◌, refl, sym, ap, ◌∙◌}
use mathlib.Core.Logic.{inl, inr}
use mathlib.Core.Bool.{false}
use mathlib.Core.Option.{Option, some}
use mathlib.Core.List.{List}
use native.Mathlib.Omega.{arith}
use text.Mathlib.TextEquality.{Char-path}
use text.Mathlib.TextLemmas.{nil-append, cons-append, append-nil, append_assoc}
use simtrader.Base.{eqb, join, Bool-cases, All, is_empty}
use simtrader.AuditLog.Csv.{
  double_quotes, quote, csv_line, csv_lines, Rows, Place, put_char, put_field, put_row, read_at,
  read_csv,
}

abbrev put_text : String → Option Rows → Option Rows
put_text [] rows = rows
put_text (c ∷ s) rows = put_char c (put_text s rows)

read-double_quotes :
    (v rest : String)
    → read_at Place.inside (double_quotes v ++ ("\"" ∷ rest))
      ≡ put_text v (read_at Place.after_quote rest)
unfolding read_at double_quotes
read-double_quotes [] rest = rw nil-append refl
read-double_quotes (c ∷ v) rest = elim (Bool-cases (eqb (code c) b'"')) [
  | inl hit ↦
      let quote_mark : "\"" ≡ c = Char-path "\"" c (ground arith) in
      rw (hit, cons-append, cons-append)
        (ap (put_char "\"") (read-double_quotes v rest)
          ∙ ap (λ d. put_char d (put_text v (read_at Place.after_quote rest))) quote_mark)
  | inr miss ↦ rw (miss, cons-append, miss) (ap (put_char c) (read-double_quotes v rest))
]

read-opening : (s : String) → read_at Place.at_field ("\"" ∷ s) ≡ read_at Place.inside s
unfolding read_at
read-opening s = refl

read-comma :
    (s : String) → read_at Place.after_quote ("," ∷ s) ≡ put_field (read_at Place.at_field s)
unfolding read_at
read-comma s = refl

read-break :
    (s : String) → read_at Place.after_quote ("\n" ∷ s) ≡ put_row (read_at Place.at_field s)
unfolding read_at
read-break s = refl

put_text-some :
    (v f : String) (fs : List String) (rows : Rows)
    → put_text v (some (List.◌∷◌ (List.◌∷◌ f fs) rows))
      ≡ some (List.◌∷◌ (List.◌∷◌ (v ++ f) fs) rows)
put_text-some [] f fs rows = rw nil-append refl
put_text-some (c ∷ v) f fs rows =
    ap (put_char c) (put_text-some v f fs rows)
    ∙ ap (λ t. some (List.◌∷◌ (List.◌∷◌ t fs) rows)) (sym (cons-append c v f))

-- A field in quotes, before a text that the reader understands after a quote.
read-quote :
    (v rest : String) (fs : List String) (rows : Rows)
    → read_at Place.after_quote rest ≡ some (List.◌∷◌ (List.◌∷◌ [] fs) rows)
    → read_at Place.at_field (quote v ++ rest) ≡ some (List.◌∷◌ (List.◌∷◌ v fs) rows)
unfolding quote
read-quote v rest fs rows h =
    let moved : quote v ++ rest ≡ "\"" ∷ (double_quotes v ++ ("\"" ∷ rest)) =
      cons-append "\"" (double_quotes v ++ "\"") rest
      ∙ ap (λ t. "\"" ∷ t)
          (append_assoc (double_quotes v) "\"" rest
            ∙ ap (λ t. double_quotes v ++ t)
                (cons-append "\"" [] rest ∙ ap (λ t. "\"" ∷ t) (nil-append rest))) in
    ap (read_at Place.at_field) moved
    ∙ read-opening (double_quotes v ++ ("\"" ∷ rest))
    ∙ read-double_quotes v rest
    ∙ ap (put_text v) h
    ∙ put_text-some v [] fs rows
    ∙ ap (λ t. some (List.◌∷◌ (List.◌∷◌ t fs) rows)) (append-nil v)

read-csv_line :
    (f : String) (fs : List String) (rest : String) (rows : Rows)
    → read_at Place.after_quote rest ≡ some (List.◌∷◌ (List.◌∷◌ [] List.[]) rows)
    → read_at Place.at_field (csv_line (List.◌∷◌ f fs) ++ rest)
      ≡ some (List.◌∷◌ (List.◌∷◌ f fs) rows)
unfolding csv_line join
read-csv_line f List.[] rest rows h = read-quote f rest List.[] rows h
read-csv_line f (List.◌∷◌ g gs) rest rows h =
    let line = csv_line (List.◌∷◌ g gs) in
    let moved : csv_line (List.◌∷◌ f (List.◌∷◌ g gs)) ++ rest ≡ quote f ++ ("," ∷ (line ++ rest)) =
      append_assoc (quote f) ("," ++ line) rest
      ∙ ap (λ t. quote f ++ t)
          (append_assoc "," line rest
            ∙ cons-append "," [] (line ++ rest)
            ∙ ap (λ t. "," ∷ t) (nil-append (line ++ rest))) in
    ap (read_at Place.at_field) moved
    ∙ read-quote f ("," ∷ (line ++ rest)) (List.◌∷◌ g gs) rows
        (read-comma (line ++ rest) ∙ ap put_field (read-csv_line g gs rest rows h))

-- The lines of rows that have fields are read back.
read-csv_lines :
    (row : List String) (rows : Rows)
    → is_empty row ≡ false
    → All (λ r. is_empty r ≡ false) rows
    → read_at Place.at_field (csv_lines (List.◌∷◌ row rows)) ≡ some (List.◌∷◌ row rows)
unfolding csv_lines join
read-csv_lines List.[] rows h hs = cc
read-csv_lines (List.◌∷◌ f fs) List.[] h hs =
    ap (read_at Place.at_field) (sym (append-nil (csv_line (List.◌∷◌ f fs))))
    ∙ read-csv_line f fs [] List.[] (unfold read_at in refl)
read-csv_lines (List.◌∷◌ f fs) (List.◌∷◌ row rows) h hs =
    let lines = csv_lines (List.◌∷◌ row rows) in
    let moved : "\n" ++ lines ≡ "\n" ∷ lines =
      cons-append "\n" [] lines ∙ ap (λ t. "\n" ∷ t) (nil-append lines) in
    ap (λ t. read_at Place.at_field (csv_line (List.◌∷◌ f fs) ++ t)) moved
    ∙ read-csv_line f fs ("\n" ∷ lines) (List.◌∷◌ row rows)
        (read-break lines ∙ ap put_row (read-csv_lines row rows hs.0 hs.1))

csv_lines-cons :
    (row : List String) (rows : Rows)
    → is_empty row ≡ false
    → (c : Char) × (s : String) × (csv_lines (List.◌∷◌ row rows) ≡ c ∷ s)
unfolding csv_lines csv_line quote join
csv_lines-cons List.[] rows h = cc
csv_lines-cons (List.◌∷◌ f List.[]) List.[] h = ("\"", double_quotes f ++ "\"", refl)
csv_lines-cons (List.◌∷◌ f (List.◌∷◌ g gs)) List.[] h =
    ("\"", (double_quotes f ++ "\"") ++ ("," ++ csv_line (List.◌∷◌ g gs)), cons-append "\"" _ _)
csv_lines-cons (List.◌∷◌ f List.[]) (List.◌∷◌ row rows) h = (
  "\"",
  (double_quotes f ++ "\"") ++ ("\n" ++ csv_lines (List.◌∷◌ row rows)),
  cons-append "\"" _ _,
)
csv_lines-cons (List.◌∷◌ f (List.◌∷◌ g gs)) (List.◌∷◌ row rows) h = (
  "\"",
  ((double_quotes f ++ "\"") ++ ("," ++ csv_line (List.◌∷◌ g gs)))
      ++ ("\n" ++ csv_lines (List.◌∷◌ row rows)),
  ap (λ t. t ++ ("\n" ++ csv_lines (List.◌∷◌ row rows))) (cons-append "\"" _ _)
      ∙ cons-append "\"" _ _,
)

-- Whatever the fields hold, the reader gets the rows back.
pub read_csv-csv_lines :
    (rows : Rows) → All (λ r. is_empty r ≡ false) rows → read_csv (csv_lines rows) ≡ some rows
unfolding read_csv
read_csv-csv_lines List.[] h = unfold csv_lines in unfold join in refl
read_csv-csv_lines (List.◌∷◌ row rows) h =
    let (c, s, e) = csv_lines-cons row rows h.0 in
    ap read_csv e ∙ ap (read_at Place.at_field) (sym e) ∙ read-csv_lines row rows h.0 h.1
