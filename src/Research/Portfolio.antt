-- ===== src/Research/Portfolio.antt =====
-- What an engine sees of the portfolio: workers/src/routes/research/portfolio-context.ts. The tables
-- of holdings are not among the migrations, so the query over them is an argument, which throws
-- where they are missing.
use simtrader.Base.{
  String, true, Option, List, [], ◌∷◌, map, filter, length, or_else, truthy_text, whole, Exec,
  returned, rejected, thrown, if◌then◌else◌,
}
use simtrader.Json.{Json, str, num, arr, object, text_or_null, of_list}
use simtrader.Http.{Handler, Response, ◌>>=◌, give, json_response}
use simtrader.Kv.{KvNamespace}
use simtrader.World.{World, sql}
use simtrader.Database.{Instrument, Db}
use simtrader.Database.Queries.{Postgres}
use simtrader.Research.{Principal}
use simtrader.Research.Instruments.{by_symbol, has_tracked}

pub record Holding : Type 0 where
  pub symbol : String
  pub mic : String
  pub units : String

abbrev pub HoldingsQuery : Type 0
HoldingsQuery = Db → String → Option (List Holding)

unfoldable pub select_tracked : Postgres → Db → List Instrument
select_tracked pg db = by_symbol pg (filter (has_tracked true) db.instruments)

abbrev pub tracked_json : Instrument → Json
tracked_json i =
    object (("symbol", str i.symbol) ∷ ("mic", str i.mic) ∷ ("name", text_or_null i.name) ∷ [])

abbrev pub holding_json : Holding → Json
holding_json h =
    object (("symbol", str h.symbol) ∷ ("mic", str h.mic) ∷ ("units", str h.units) ∷ [])

-- `catch { }`: a failure leaves the empty list.
abbrev pub or_none : Exec Response (Option (List Holding)) → List Holding
or_none (returned holdings) = or_else holdings []
or_none (rejected e) = []
or_none thrown = []

abbrev pub context_json : List Instrument → List Holding → Json
context_json instruments holdings = object (
    ("tracked_instruments", arr (of_list (map tracked_json instruments)))
    ∷ ("holdings", arr (of_list (map holding_json holdings)))
    ∷ ("total_positions", num (whole (length holdings)))
    ∷ [])

module _ {K : KvNamespace} where
  -- `try { holdings = await sql… } catch { }`
  unfoldable pub try_holdings : HoldingsQuery → String → Handler (World K) (List Holding)
  try_holdings query user_id w =
      let (left, result) = sql (λ db. (db, query db user_id)) w in (left, returned (or_none result))

  unfoldable pub holdings_of : HoldingsQuery → Option String → Handler (World K) (List Holding)
  holdings_of query user_id =
      let id = or_else user_id "" in if truthy_text id then try_holdings query id else give []

  -- GET /research/portfolio-context
  unfoldable pub portfolio_context :
      Postgres → HoldingsQuery → Principal → Handler (World K) Response
  portfolio_context pg query principal = do
    instruments ← sql (λ db. (db, select_tracked pg db))
    holdings ← holdings_of query principal.user_id
    give (json_response 200 (context_json instruments holdings))
