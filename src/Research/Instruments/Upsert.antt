-- ===== src/Research/Instruments/Upsert.antt =====
-- The table of instruments as a map from (symbol, market) to rows.
use simtrader.Base.{
  String, ◌==◌, eq_iff, true, false, ◌&&◌, Bool-cases, Option, none, some, List, [], ◌∷◌, find, ◌≡◌,
  refl, ap, ◌∙◌, inl, inr, is_some, if◌then◌else◌, arith,
}
use mathlib.Core.Option
use simtrader.Database.{Instrument, Db, update_where}
use simtrader.Research.Instruments.{has_key, lookup, merge, place, upsert, upserted}

-- The abstract registry: at most one row for a symbol and a market.
abbrev pub Registry : Type 0
Registry = String → String → Option Instrument

abbrev pub view : Db → Registry
view db symbol mic = lookup symbol mic db

-- What a registration leaves under its key: its own row where there was none; else the row that was
-- there, with the sort and the currency of the new one, tracked again, and with its old name where
-- the new one has none.
abbrev pub registered : Instrument → Option Instrument → Instrument
registered row none = row
registered row (some old) = record {
  id = old.id;
  symbol = old.symbol;
  mic = old.mic;
  name = if is_some row.name then row.name else old.name;
  asset_class = row.asset_class;
  currency = row.currency;
  tracked = true;
  created_at = old.created_at;
  updated_at = row.updated_at;
}

-- A registration puts that under its key, and touches nothing else.
abbrev pub put : Instrument → Registry → Registry
put row r symbol mic =
    if row.symbol == symbol && row.mic == mic
    then some (registered row (r row.symbol row.mic))
    else r symbol mic

merge-eq-registered :
    (row old : Instrument) (name : Option String)
    → row.name ≡ name
    → merge row old ≡ registered row (some old)
merge-eq-registered row old none e = rw e refl
merge-eq-registered row old (some name) e = rw e refl

pub upserted-eq-registered :
    (row : Instrument) (found : Option Instrument) → upserted row found ≡ registered row found
upserted-eq-registered row none = refl
upserted-eq-registered row (some old) = merge-eq-registered row old row.name refl

same_key :
    (row : Instrument) (symbol mic : String)
    → (row.symbol == symbol && row.mic == mic) ≡ true
    → (row.symbol ≡ symbol) × (row.mic ≡ mic)
same_key row symbol mic h = ground (arith, eq_iff row.symbol symbol, eq_iff row.mic mic)

-- A row has one key.
other_key :
    (row i : Instrument) (symbol mic : String)
    → has_key row.symbol row.mic i ≡ true
    → (row.symbol == symbol && row.mic == mic) ≡ false
    → has_key symbol mic i ≡ false
other_key row i symbol mic hit other = ground (
  arith,
  eq_iff row.symbol symbol,
  eq_iff row.mic mic,
  eq_iff i.symbol row.symbol,
  eq_iff i.mic row.mic,
  eq_iff i.symbol symbol,
  eq_iff i.mic mic,
)

find-merge_same :
    (row : Instrument) (rows : List Instrument) (old : Instrument)
    → find (has_key row.symbol row.mic) rows ≡ some old
    → find (has_key row.symbol row.mic) (update_where (has_key row.symbol row.mic) (merge row) rows)
      ≡ some (merge row old)
find-merge_same row [] old h = cc
find-merge_same row (i ∷ rows) old h = elim (Bool-cases (has_key row.symbol row.mic i)) [
  | inl hit ↦
      let kept : has_key row.symbol row.mic (merge row i) ≡ true = hit in
      rw (hit, kept) (let first = rw hit at h in ap (λ o. Option.map (merge row) o) first)
  | inr miss ↦ rw (miss, miss) (find-merge_same row rows old (rw miss at h))
]

find-merge_other :
    (row : Instrument) (symbol mic : String) (rows : List Instrument)
    → (row.symbol == symbol && row.mic == mic) ≡ false
    → find (has_key symbol mic) (update_where (has_key row.symbol row.mic) (merge row) rows)
      ≡ find (has_key symbol mic) rows
find-merge_other row symbol mic [] h = refl
find-merge_other row symbol mic (i ∷ rows) h =
    let rest = find-merge_other row symbol mic rows h in
    elim (Bool-cases (has_key row.symbol row.mic i)) [
      | inl hit ↦
          let mine : has_key symbol mic i ≡ false = other_key row i symbol mic hit h in
          let still : has_key symbol mic (merge row i) ≡ false = mine in rw (hit, still) rest
      | inr miss ↦ elim (Bool-cases (has_key symbol mic i)) [
        | inl mine ↦ rw (miss, mine) refl
        | inr other ↦ rw (miss, other) rest
      ]
    ]

find-place :
    (row : Instrument) (rows : List Instrument) (found : Option Instrument) (symbol mic : String)
    → find (has_key row.symbol row.mic) rows ≡ found
    → find (has_key symbol mic) (place row found rows) ≡ (
        if row.symbol == symbol && row.mic == mic
        then some (upserted row found)
        else find (has_key symbol mic) rows)
find-place row rows none symbol mic h = refl
find-place row rows (some old) symbol mic h =
    elim (Bool-cases (row.symbol == symbol && row.mic == mic)) [
      | inl mine ↦
          let (symbols, mics) = same_key row symbol mic mine in
          rw (mine, ← symbols, ← mics) (find-merge_same row rows old h)
      | inr other ↦ rw other (find-merge_other row symbol mic rows other)
    ]

-- No two rows have the same key, as the table's constraint says.
abbrev pub IsUnique : List Instrument → Type 0
IsUnique [] = Unit
IsUnique (i ∷ rows) = (find (has_key i.symbol i.mic) rows ≡ none) × IsUnique rows

find-merge-none :
    (row : Instrument) (symbol mic : String) (rows : List Instrument)
    → find (has_key symbol mic) rows ≡ none
    → find (has_key symbol mic) (update_where (has_key row.symbol row.mic) (merge row) rows) ≡ none
find-merge-none row symbol mic [] h = refl
find-merge-none row symbol mic (i ∷ rows) h = elim (Bool-cases (has_key symbol mic i)) [
  | inl mine ↦ absurd (cc (rw mine at h))
  | inr other ↦
      let rest = find-merge-none row symbol mic rows (rw other at h) in
      elim (Bool-cases (has_key row.symbol row.mic i)) [
        | inl hit ↦
            let still : has_key symbol mic (merge row i) ≡ false = other in rw (hit, still) rest
        | inr miss ↦ rw (miss, other) rest
      ]
]

IsUnique-merge :
    (row : Instrument) (rows : List Instrument)
    → IsUnique rows
    → IsUnique (update_where (has_key row.symbol row.mic) (merge row) rows)
IsUnique-merge row [] h = tt
IsUnique-merge row (i ∷ rows) h =
    let rest = IsUnique-merge row rows h.1 in
    let none_there = find-merge-none row i.symbol i.mic rows h.0 in
    elim (Bool-cases (has_key row.symbol row.mic i)) [
      | inl hit ↦ rw hit (none_there, rest)
      | inr miss ↦ rw miss (none_there, rest)
    ]

place-IsUnique :
    (row : Instrument) (rows : List Instrument) (found : Option Instrument)
    → find (has_key row.symbol row.mic) rows ≡ found
    → IsUnique rows
    → IsUnique (place row found rows)
place-IsUnique row rows none e h = (e, h)
place-IsUnique row rows (some old) e h = IsUnique-merge row rows h

pub upsert-IsUnique :
    (row : Instrument) (db : Db) → IsUnique db.instruments → IsUnique (upsert row db).instruments
unfolding upsert lookup
upsert-IsUnique row db h =
    place-IsUnique row db.instruments (find (has_key row.symbol row.mic) db.instruments) refl h

pub upsert-lookup :
    (row : Instrument) (db : Db) (symbol mic : String)
    → view (upsert row db) symbol mic ≡ put row (view db) symbol mic
unfolding upsert lookup
upsert-lookup row db symbol mic =
    let found = find (has_key row.symbol row.mic) db.instruments in
    find-place row db.instruments found symbol mic refl
    ∙ ap
        (λ i.
          if row.symbol == symbol && row.mic == mic
          then some i
          else find (has_key symbol mic) db.instruments)
        (upserted-eq-registered row found)
