-- ===== src/Research/Evaluations.antt =====
-- Research evaluations: workers/src/routes/research/evaluations.ts. The id of a new row is an
-- argument.
pub mod Validity
pub mod Listing
use simtrader.Base.{
  ℕ, ℤ, pos, negsuc, ltb_ℤ, ◌+◌, ◌*◌, ◌/◌, String, ◌==◌, Bool, not, ◌&&◌, Option, none, some, List,
  [], ◌∷◌, map, filter, take, or_else, is_some, truthy_text, trim, Exec, returned, thrown,
  if◌then◌else◌,
}
use simtrader.Json.{
  Json, str, arr, object, text_or_null, read_prop, get_prop, as_string, as_number, of_list,
}
use simtrader.Http.{Handler, Response, ◌>>=◌, ◌>>◌, give, ensure, lift, json_response, json_error}
use simtrader.Kv.{KvNamespace}
use simtrader.World.{World, sql}
use simtrader.Database.{Evaluation, Db}
use simtrader.Database.Queries.{Postgres, matches, newest_first, list_limit}
use simtrader.Research.{Principal}
use simtrader.Research.EngineKeys.{body_or_empty, trimmed}
use simtrader.Research.Signals.{includes, select_signal}

-- `VALID_VERDICTS`
abbrev pub valid_verdicts : List String
valid_verdicts = "buy" ∷ "sell" ∷ "hold" ∷ "watch" ∷ []

-- `typeof v === 'string' ? v.trim() || null : null`
abbrev pub optional_text : Option Json → Option String
optional_text v = if truthy_text (trimmed v) then some (trimmed v) else none

abbrev pub verdict_of : Json → String
verdict_of body = or_else (as_string (get_prop body "verdict")) ""

abbrev pub confidence_of : Json → Option ℤ
confidence_of body = as_number (get_prop body "confidence")

abbrev pub signal_id_of : Json → Option String
signal_id_of body = as_string (get_prop body "signal_id")

-- `verdict && VALID_VERDICTS.includes(verdict)`
unfoldable pub is_known_verdict : String → Bool
is_known_verdict verdict = truthy_text verdict && includes valid_verdicts verdict

-- `!(confidence === null || confidence < 0 || confidence > 1)`
abbrev pub confidence_in_range : Option ℤ → Bool
confidence_in_range none = Bool.false
confidence_in_range (some n) = not (ltb_ℤ n (pos 0)) && not (ltb_ℤ (pos 10000) n)

-- The column has three decimals: Postgres rounds, halves away from zero.
abbrev pub to_thousandths : ℤ → ℤ
to_thousandths (ℤ.pos n) = pos ((n + 5) / 10 * 10)
to_thousandths (ℤ.negsuc n) = negsuc n

-- The row of the INSERT.
unfoldable pub new_evaluation : ℕ → String → Principal → Json → String → Evaluation
new_evaluation now new_id principal body key = record {
  id = new_id;
  signal_id = signal_id_of body;
  instrument_key = key;
  verdict = verdict_of body;
  confidence = to_thousandths (or_else (confidence_of body) (pos 0));
  rationale = optional_text (get_prop body "rationale");
  model = optional_text (get_prop body "model");
  api_key_id = principal.api_key_id;
  bridge_sub = principal.bridge_sub;
  created_at = now;
}

unfoldable pub insert_evaluation : Evaluation → Db → Db
insert_evaluation e db = record db { evaluations = e ∷ db.evaluations }

-- A value for a UUID column.
abbrev pub uuid_or_throw : Postgres → String → Exec Response (Unit {0})
uuid_or_throw pg id = if pg.is_uuid id then returned tt else thrown

abbrev pub optional_uuid : Postgres → Option String → Exec Response (Unit {0})
optional_uuid pg none = returned tt
optional_uuid pg (some id) = uuid_or_throw pg id

-- The query string of a list.
pub record EvaluationQuery : Type 0 where
  pub instrument_key : Option String
  pub verdict : Option String
  pub limit : Option String
  pub before : Option String

-- The WHERE clause of the list.
abbrev pub meets : Postgres → EvaluationQuery → Evaluation → Bool
meets pg q e =
    matches q.instrument_key (λ key. e.instrument_key == key)
    && matches q.verdict (λ verdict. e.verdict == verdict)
    && matches q.before (λ id. pg.uuid_before e.id id)

abbrev pub created : Evaluation → ℕ
created e = e.created_at

unfoldable pub select_evaluations : Postgres → EvaluationQuery → ℕ → Db → List Evaluation
select_evaluations pg q limit db =
    take limit (newest_first created (filter (meets pg q) db.evaluations))

abbrev pub evaluation_json : Postgres → Evaluation → Json
evaluation_json pg e = object (
    ("id", str e.id)
    ∷ ("signalId", text_or_null e.signal_id)
    ∷ ("instrumentKey", str e.instrument_key)
    ∷ ("verdict", str e.verdict)
    ∷ ("confidence", str (pg.show_decimal e.confidence))
    ∷ ("rationale", text_or_null e.rationale)
    ∷ ("model", text_or_null e.model)
    ∷ ("apiKeyId", text_or_null e.api_key_id)
    ∷ ("bridgeSub", text_or_null e.bridge_sub)
    ∷ ("createdAt", str (pg.show_time e.created_at))
    ∷ [])

module _ {K : KvNamespace} where
  -- The signal must be there.
  unfoldable pub require_signal : Postgres → String → Handler (World K) (Unit {0})
  require_signal pg id = do
    lift (uuid_or_throw pg id)
    found ← sql (λ db. (db, select_signal id db))
    ensure (is_some found) (json_error 400 "signal_id not found")

  -- `if (signalId) { … }`
  unfoldable pub check_signal : Postgres → Option String → Handler (World K) (Unit {0})
  check_signal pg signal_id =
      let id = or_else signal_id "" in if truthy_text id then require_signal pg id else give tt

  unfoldable pub store_evaluation : Postgres → Evaluation → Handler (World K) Response
  store_evaluation pg e = do
    lift (optional_uuid pg e.signal_id)
    sql (λ db. (insert_evaluation e db, tt))
    give (
        json_response 201
          (object (("id", str e.id) ∷ ("created_at", str (pg.show_time e.created_at)) ∷ [])))

  -- POST /research/evaluations
  unfoldable pub push_evaluation :
      Postgres → ℕ → String → Principal → Exec Response Json → Handler (World K) Response
  push_evaluation pg now new_id principal request = do
    let body = body_or_empty request
    key_value ← lift (read_prop body "instrument_key")
    let key = trimmed key_value
    ensure (truthy_text key) (json_error 400 "instrument_key is required")
    ensure (is_known_verdict (verdict_of body))
        (json_error 400 "verdict must be one of: buy, sell, hold, watch")
    ensure (confidence_in_range (confidence_of body))
        (json_error 400 "confidence must be between 0 and 1")
    check_signal pg (signal_id_of body)
    store_evaluation pg (new_evaluation now new_id principal body key)

  -- GET /research/evaluations
  unfoldable pub list_evaluations : Postgres → EvaluationQuery → Handler (World K) Response
  list_evaluations pg q = do
    limit ← lift (list_limit q.limit)
    lift (optional_uuid pg q.before)
    rows ← sql (λ db. (db, select_evaluations pg q limit db))
    give (json_response 200 (arr (of_list (map (evaluation_json pg) rows))))
