-- ===== src/Research/Instruments.antt =====
-- The registry of instruments: workers/src/routes/research/instruments.ts. The id of a new row is
-- an argument.
pub mod Upsert
pub mod Registry
use simtrader.Base.{
  ℕ, String, ◌==◌, Bool, true, false, not, ◌&&◌, Option, none, some, List, [], ◌∷◌, map, filter,
  find, or_else, is_some, truthy_text, trim, to_upper_case, Exec, returned, if◌then◌else◌,
}
use simtrader.Json.{
  Json, str, bool, arr, object, text_or_null, read_prop, get_prop, as_string, of_list,
}
use simtrader.Http.{Handler, Response, ◌>>=◌, ◌>>◌, give, ensure, lift, json_response, json_error}
use simtrader.Kv.{KvNamespace}
use simtrader.World.{World, sql}
use simtrader.Database.{Instrument, Db, update_where}
use simtrader.Database.Queries.{Postgres, order_by}
use simtrader.Research.EngineKeys.{body_or_empty, trimmed}
use simtrader.Research.Evaluations.{optional_text}

-- `typeof v === 'string' ? v.trim().toUpperCase() : null`, the null as the empty text.
abbrev pub upper_trimmed : Option Json → String
upper_trimmed v = to_upper_case (trimmed v)

-- `typeof v === 'string' ? change(v) : otherwise`
abbrev pub text_or : (String → String) → String → Option Json → String
text_or change otherwise (some (Json.str s)) = change s
text_or change otherwise v = otherwise

-- The row of the INSERT, with the defaults of the table.
unfoldable pub new_instrument : ℕ → String → Json → Instrument
new_instrument now new_id body = record {
  id = new_id;
  symbol = upper_trimmed (get_prop body "symbol");
  mic = upper_trimmed (get_prop body "mic");
  name = optional_text (get_prop body "name");
  asset_class = text_or trim "equity" (get_prop body "asset_class");
  currency = text_or (λ s. to_upper_case (trim s)) "USD" (get_prop body "currency");
  tracked = true;
  created_at = now;
  updated_at = now;
}

-- The columns of the unique constraint.
abbrev pub has_key : String → String → Instrument → Bool
has_key symbol mic i = i.symbol == symbol && i.mic == mic

unfoldable pub lookup : String → String → Db → Option Instrument
lookup symbol mic db = find (has_key symbol mic) db.instruments

-- `COALESCE(a, b)`
abbrev pub coalesce : Option String → Option String → Option String
coalesce none b = b
coalesce (some a) b = some a

-- `DO UPDATE SET …`
abbrev pub merge : Instrument → Instrument → Instrument
merge excluded old = record old {
  name = coalesce excluded.name old.name;
  asset_class = excluded.asset_class;
  currency = excluded.currency;
  tracked = true;
  updated_at = excluded.updated_at;
}

abbrev pub place : Instrument → Option Instrument → List Instrument → List Instrument
place row none rows = row ∷ rows
place row (some old) rows = update_where (has_key row.symbol row.mic) (merge row) rows

-- `INSERT … ON CONFLICT ON CONSTRAINT uq_research_instruments_key DO UPDATE …`
unfoldable pub upsert : Instrument → Db → Db
upsert row db = record db { instruments = place row (lookup row.symbol row.mic db) db.instruments }

-- The row that RETURNING gives.
abbrev pub upserted : Instrument → Option Instrument → Instrument
upserted row none = row
upserted row (some old) = merge row old

abbrev pub instrument_json : Postgres → Instrument → Json
instrument_json pg i = object (
    ("id", str i.id)
    ∷ ("symbol", str i.symbol)
    ∷ ("mic", str i.mic)
    ∷ ("name", text_or_null i.name)
    ∷ ("assetClass", str i.asset_class)
    ∷ ("currency", str i.currency)
    ∷ ("tracked", bool i.tracked)
    ∷ ("createdAt", str (pg.show_time i.created_at))
    ∷ ("updatedAt", str (pg.show_time i.updated_at))
    ∷ [])

-- `ORDER BY symbol`
abbrev pub by_symbol : Postgres → List Instrument → List Instrument
by_symbol pg rows = order_by (λ a b. pg.text_before a.symbol b.symbol) rows

-- `tracked = ${tracked}`
abbrev pub has_tracked : Bool → Instrument → Bool
has_tracked tracked i = if tracked then i.tracked else not i.tracked

unfoldable pub select_instruments : Postgres → String → Db → List Instrument
select_instruments pg tracked db =
    if tracked == "all"
    then by_symbol pg db.instruments
    else by_symbol pg (filter (has_tracked (not (tracked == "false"))) db.instruments)

module _ {K : KvNamespace} where
  -- GET /research/instruments, on `tracked`.
  unfoldable pub list_instruments : Postgres → Option String → Handler (World K) Response
  list_instruments pg tracked = do
    rows ← sql (λ db. (db, select_instruments pg (or_else tracked "true") db))
    give (json_response 200 (arr (of_list (map (instrument_json pg) rows))))

  unfoldable pub store_instrument : Postgres → Instrument → Handler (World K) Response
  store_instrument pg row = do
    stored ← sql (λ db. (upsert row db, upserted row (lookup row.symbol row.mic db)))
    give (json_response 201 (instrument_json pg stored))

  -- POST /research/instruments
  unfoldable pub register_instrument :
      Postgres → ℕ → String → Exec Response Json → Handler (World K) Response
  register_instrument pg now new_id request = do
    let body = body_or_empty request
    symbol ← lift (read_prop body "symbol")
    ensure (truthy_text (upper_trimmed symbol)) (json_error 400 "symbol is required")
    ensure (truthy_text (upper_trimmed (get_prop body "mic"))) (json_error 400 "mic is required")
    store_instrument pg (new_instrument now new_id body)
