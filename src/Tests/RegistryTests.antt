-- ===== src/Tests/RegistryTests.antt =====
-- Evaluations, instruments and lists of the research API at concrete inputs.
use simtrader.Base
use simtrader.Base.{
  ℕ, ◌≤◌, String, true, Option, none, some, List, [], ◌∷◌, map, returned, Exec, ◌≡◌, ◌⊎◌, refl, pos,
}
use simtrader.Json
use simtrader.Json.{Json, str, num, obj, arr, field, end, of_list}
use simtrader.Http.{Response, json_response}
use simtrader.World.{World}
use simtrader.Database.{EngineKey, Signal, Evaluation, Instrument}
use simtrader.Database.Queries
use simtrader.Database.Queries.Newest.{IsNewest}
use simtrader.Research
use simtrader.Research.{Principal}
use simtrader.Research.EngineKeys.{body_or_empty}
use simtrader.Research.Signals
use simtrader.Research.Evaluations
use simtrader.Research.Evaluations.{
  EvaluationQuery, meets, created, evaluation_json, push_evaluation, list_evaluations,
}
use simtrader.Research.Evaluations.Validity.{IsValidEvaluation, push_evaluation-IsValidEvaluation}
use simtrader.Research.Evaluations.Listing.{IsLimit, IsAsked, list_evaluations-IsNewest}
use simtrader.Research.Instruments
use simtrader.Research.Instruments.{new_instrument, register_instrument}
use simtrader.Research.Instruments.Registry.{IsRegistration, register_instrument-IsRegistration}
use simtrader.Research.Listings.{list_keys}
use simtrader.Research.Listings.Disclosure.{with_hashes, list_keys-with_hashes}
use simtrader.Research.Router
use simtrader.Research.Router.{ResearchPlatform, ResearchCall, serve_research}
use simtrader.Research.Router.Guard.{IsEntitled, serve_research-IsGuarded}
use simtrader.World.ReadOnly.{stored}
use simtrader.Access
use simtrader.Tests.{memory, no_entries, postgres, platform, env, resolve}

abbrev signal : Signal
signal = record {
  id = "s1";
  instrument_key = "AAPL:XNAS";
  symbol = "AAPL";
  mic = "XNAS";
  score = pos 5000;
  horizon = "1w";
  source = "engine";
  payload = none;
  api_key_id = none;
  bridge_sub = none;
  expires_at = none;
  created_at = 900;
}

abbrev engine_key : EngineKey
engine_key = record {
  id = "k1";
  name = "engine";
  key_hash = "h1";
  key_prefix = "sk_";
  scopes = [];
  last_used_at = none;
  expires_at = none;
  revoked_at = none;
  created_at = 1;
}

abbrev apple : Instrument
apple = record {
  id = "i1";
  symbol = "AAPL";
  mic = "XNAS";
  name = some "Apple";
  asset_class = "equity";
  currency = "USD";
  tracked = Base.false;
  created_at = 5;
  updated_at = 5;
}

abbrev world : World memory
world = record {
  db = record {
    users = [];
    identities = [];
    saxo_tokens = [];
    signal_actions = [];
    audit_log = [];
    engine_api_keys = engine_key ∷ [];
    signals = signal ∷ [];
    evaluations = [];
    instruments = apple ∷ [];
  };
  kv = no_entries;
  jwks = [];
  outages = [];
}

abbrev holder : Principal
holder = record {
  method = Research.engine_key_method;
  user_id = none;
  user_role = none;
  api_key_id = some "k1";
  bridge_sub = none;
  scopes = [];
}

bench : Unit {0}
unfolding push_evaluation list_evaluations Evaluations.new_evaluation Evaluations.insert_evaluation
    Evaluations.is_known_verdict Evaluations.require_signal Evaluations.check_signal
    Evaluations.store_evaluation Evaluations.select_evaluations Signals.select_signal
    Queries.list_limit Base.parse_decimal Base.read_digits Base.digit_value register_instrument
    new_instrument Instruments.lookup Instruments.upsert Instruments.store_instrument
    Base.to_upper_case Json.read_prop Json.get_prop Json.of_list Base.trim Base.trim_start
    Base.trim_end
bench = tt

abbrev evaluation_body : Exec Response Json
evaluation_body = returned (
    obj (
      field "instrument_key" (str "AAPL:XNAS") (
        field "verdict" (str "buy")
          (field "confidence" (num (pos 7504)) (field "signal_id" (str "s1") end)))))

abbrev pushed : World memory
pushed = (push_evaluation postgres 1100 "e1" holder evaluation_body world).0

abbrev pushed_response : Response
pushed_response =
    json_response 201
      (obj (field "id" (str "e1") (field "created_at" (str "2026-01-01T00:00:00.000Z") end)))

push_runs :
    push_evaluation postgres 1100 "e1" holder evaluation_body world
    ≡ (pushed, returned pushed_response)
unfolding bench
push_runs = refl

push_evaluation-IsValidEvaluation_example :
    (e : Evaluation) × (pushed.db.evaluations ≡ e ∷ world.db.evaluations)
    × IsValidEvaluation world.db e
    × (e.api_key_id ≡ holder.api_key_id)
push_evaluation-IsValidEvaluation_example =
    push_evaluation-IsValidEvaluation memory postgres 1100 "e1" holder evaluation_body world pushed
      pushed_response push_runs

abbrev buys : EvaluationQuery
buys = record { instrument_key = none; verdict = some "buy"; limit = some "300"; before = none }

abbrev listed : World memory
listed = (list_evaluations postgres buys pushed).0

abbrev listed_response : Response
listed_response =
    json_response 200 (arr (of_list (map (evaluation_json postgres) pushed.db.evaluations)))

list_runs : list_evaluations postgres buys pushed ≡ (listed, returned listed_response)
unfolding bench
list_runs = refl

list_evaluations-IsNewest_example :
    (n : ℕ) × IsLimit buys.limit n
    × ((rows : List Evaluation) × (listed_response
          ≡ json_response 200 (arr (of_list (map (evaluation_json postgres) rows))))
        × IsNewest created (IsAsked postgres buys) n pushed.db.evaluations rows
        × (listed.db ≡ pushed.db))
list_evaluations-IsNewest_example =
    list_evaluations-IsNewest memory postgres buys pushed listed listed_response list_runs

abbrev apple_body : Exec Response Json
apple_body = returned (obj (field "symbol" (str " aapl") (field "mic" (str "xnas") end)))

abbrev registered : World memory
registered = (register_instrument postgres 1100 "i2" apple_body world).0

-- The name stays, and the instrument is tracked again.
abbrev merged : Instrument
merged = record apple { tracked = true; updated_at = 1100 }

abbrev registered_response : Response
registered_response = json_response 201 (Instruments.instrument_json postgres merged)

registration_runs :
    register_instrument postgres 1100 "i2" apple_body world
    ≡ (registered, returned registered_response)
unfolding bench
registration_runs = refl

merged_is_stored : registered.db.instruments ≡ merged ∷ []
unfolding bench
merged_is_stored = refl

register_instrument-IsRegistration_example :
    IsRegistration postgres
      (new_instrument 1100 "i2" (body_or_empty apple_body))
      world.db
      registered.db
      registered_response
register_instrument-IsRegistration_example =
    register_instrument-IsRegistration memory postgres 1100 "i2" apple_body world registered
      registered_response (refl, tt) registration_runs

list_keys-with_hashes_example :
    (list_keys {K = memory} postgres (record world { db = with_hashes (λ k. "other") world.db })).1
    ≡ (list_keys postgres world).1
list_keys-with_hashes_example = list_keys-with_hashes memory postgres (λ k. "other") world

abbrev router_platform : ResearchPlatform
router_platform = record {
  runtime = platform;
  resolve = resolve;
  env = env;
  pg = postgres;
  sha256_hex = λ text. "h1";
  keys = record {
    random_values = λ n. 255 ∷ [];
    new_id = "k2";
    sha256_hex = λ text. text;
    parse_time = λ text. none;
    show_time = λ at. "now";
  };
  new_id = "e1";
  holdings = λ db user_id. none;
}

abbrev push_call : ResearchCall
push_call = record {
  method = Router.post_method;
  path = "evaluations" ∷ [];
  cookie = none;
  authorization = some "Bearer sk_x";
  connecting_ip = none;
  body = evaluation_body;
  tracked = none;
  signal_query = record {
    instrument_key = none;
    source = none;
    horizon = none;
    limit = none;
    before = none;
  };
  evaluation_query = buys;
}

abbrev routed : World memory
routed = (serve_research router_platform push_call world).0

routing_runs : serve_research router_platform push_call world ≡ (routed, returned pushed_response)
unfolding bench serve_research Router.serve_research_end Router.serve_engine Router.research_route
    Access.session_middleware Research.require_research_auth Research.admit_key Research.select_key
    Research.touch_key Research.attempt Research.strip_prefix Base.starts_with Base.has_char
routing_runs = refl

serve_research-IsGuarded_example :
    (stored routed ≡ stored world)
    ⊎ IsEntitled router_platform push_call
        (Router.research_route push_call.method push_call.path)
        world
serve_research-IsGuarded_example =
    serve_research-IsGuarded router_platform push_call world routed (returned pushed_response)
      routing_runs
