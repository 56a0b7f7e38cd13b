-- ===== src/Research/Signals.antt =====
-- Research signals: the POST handlers of workers/src/routes/research/signals.ts. The id of a new row
-- is an argument.
pub mod Validity
use Prim.Native.String
use simtrader.Base.{
  ℕ, ℤ, pos, negsuc, ltb_ℤ, scale, String, ◌==◌, Bool, true, false, not, ◌&&◌, Option, none, some,
  List, [], ◌∷◌, any, find, or_else, is_some, truthy_text, trim, split, Exec, returned, rejected,
  thrown, if◌then◌else◌,
}
use simtrader.Json.{
  Json, obj, arr, str, field, end, read_prop, get_prop, as_string, as_number, as_object, object,
}
use simtrader.Http.{
  Handler, Response, ◌>>=◌, ◌>>◌, give, answer, ensure, lift, json_response, json_error,
}
use simtrader.Kv.{KvNamespace}
use simtrader.World.{World, sql}
use simtrader.Database.{Signal, SignalActionRow, Db}
use simtrader.Database.Queries.{Postgres}
use simtrader.Research.{Principal, AuthMethod, session_method}
use simtrader.Research.EngineKeys.{body_or_empty, trimmed}

-- `VALID_HORIZONS`
abbrev pub valid_horizons : List String
valid_horizons = "1d" ∷ "1w" ∷ "1m" ∷ "3m" ∷ []

-- `VALID_ACTIONS`
abbrev pub valid_actions : List String
valid_actions = "acknowledged" ∷ "dismissed" ∷ "queued" ∷ "executed" ∷ []

abbrev pub includes : List String → String → Bool
includes texts t = any (λ u. u == t) texts

-- `!(score === null || score < -1 || score > 1)`
abbrev pub score_in_range : Option ℤ → Bool
score_in_range none = false
score_in_range (some n) = not (ltb_ℤ n (negsuc 9999)) && not (ltb_ℤ (pos 10000) n)

abbrev pub two_parts : List String → Option (String × String)
two_parts (symbol ∷ mic ∷ []) = some (symbol, mic)
two_parts parts = none

abbrev pub is_session : AuthMethod → Bool
is_session session_method = true
is_session _ = false

abbrev pub score_of : Json → Option ℤ
score_of body = as_number (get_prop body "score")

abbrev pub horizon_of : Json → String
horizon_of body = or_else (as_string (get_prop body "horizon")) ""

abbrev pub source_of : Json → String
source_of body = trimmed (get_prop body "source")

-- `horizon && VALID_HORIZONS.includes(horizon)`
unfoldable pub is_known_horizon : String → Bool
is_known_horizon horizon = truthy_text horizon && includes valid_horizons horizon

-- The row of the INSERT.
unfoldable pub new_signal : ℕ → String → Principal → Json → String → String × String → Signal
new_signal now new_id principal body key parts = record {
  id = new_id;
  instrument_key = key;
  symbol = parts.0;
  mic = parts.1;
  score = or_else (score_of body) (pos 0);
  horizon = horizon_of body;
  source = source_of body;
  payload = as_object (get_prop body "payload");
  api_key_id = principal.api_key_id;
  bridge_sub = principal.bridge_sub;
  expires_at = as_string (get_prop body "expires_at");
  created_at = now;
}

unfoldable pub insert_signal : Signal → Db → Db
insert_signal s db = record db { signals = s ∷ db.signals }

unfoldable pub select_signal : String → Db → Option Signal
select_signal id db = find (λ s. s.id == id) db.signals

unfoldable pub insert_action : SignalActionRow → Db → Db
insert_action a db = record db { signal_actions = a ∷ db.signal_actions }

-- A text for the TIMESTAMPTZ column.
abbrev pub expiry_or_throw : Postgres → Option String → Exec Response (Unit {0})
expiry_or_throw pg none = returned tt
expiry_or_throw pg (some text) = elim (pg.parse_time text) [ none ↦ thrown | some at ↦ returned tt ]

module _ {K : KvNamespace} where
  abbrev pub parts_or_refusal : Option (String × String) → Handler (World K) (String × String)
  parts_or_refusal none = answer (json_error 400 "instrument_key must be symbol:mic")
  parts_or_refusal (some parts) = give parts

  -- The INSERT of a validated signal.
  unfoldable pub store_signal : Postgres → Signal → Handler (World K) Response
  store_signal pg s = do
    lift (expiry_or_throw pg s.expires_at)
    sql (λ db. (insert_signal s db, tt))
    give (
        json_response 201
          (object (("id", str s.id) ∷ ("created_at", str (pg.show_time s.created_at)) ∷ [])))

  -- POST /research/signals
  unfoldable pub push_signal :
      Postgres → ℕ → String → Principal → Exec Response Json → Handler (World K) Response
  push_signal pg now new_id principal request = do
    let body = body_or_empty request
    key_value ← lift (read_prop body "instrument_key")
    let key = trimmed key_value
    ensure (truthy_text key) (json_error 400 "instrument_key is required")
    ensure (score_in_range (score_of body)) (json_error 400 "score must be between -1 and 1")
    ensure (is_known_horizon (horizon_of body))
        (json_error 400 "horizon must be one of: 1d, 1w, 1m, 3m")
    ensure (truthy_text (source_of body)) (json_error 400 "source is required")
    parts ← parts_or_refusal (two_parts (split ":" key))
    store_signal pg (new_signal now new_id principal body key parts)

  abbrev pub signal_or_missing : Option Signal → Handler (World K) Signal
  signal_or_missing none = answer (json_error 404 "Signal not found")
  signal_or_missing (some s) = give s

  -- POST /research/signals/:id/actions
  unfoldable pub act_on_signal :
      Postgres → ℕ → String → Principal → String → Exec Response Json → Handler (World K) Response
  act_on_signal pg now new_id principal signal_id request = do
    ensure (is_session principal.method) (json_error 403 "Signal actions require a user session")
    let body = body_or_empty request
    action_value ← lift (read_prop body "action")
    let action = or_else (as_string action_value) ""
    ensure (truthy_text action && includes valid_actions action)
        (json_error 400 "action must be one of: acknowledged, dismissed, queued, executed")
    row ← sql (λ db. (db, select_signal signal_id db))
    signal ← signal_or_missing row
    sql (λ db. (
      insert_action
          (record {
            id = new_id;
            signal_id = signal_id;
            user_id = or_else principal.user_id "";
            action = action;
            detail = as_object (get_prop body "detail");
            created_at = now;
          })
          db,
      tt,
    ))
    give (
        json_response 201 (
          object (
            ("id", str new_id)
            ∷ ("signal_id", str signal_id)
            ∷ ("action", str action)
            ∷ ("created_at", str (pg.show_time now))
            ∷ [])))
