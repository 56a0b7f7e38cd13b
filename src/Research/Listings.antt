-- ===== src/Research/Listings.antt =====
-- The lists and look-ups of workers/src/routes/research/signals.ts and keys.ts.
pub mod Disclosure
use simtrader.Base.{
  ℕ, String, ◌==◌, Bool, ◌&&◌, Option, none, some, List, [], ◌∷◌, map, filter, take, ◌≡◌,
  if◌then◌else◌,
}
use simtrader.Json.{Json, str, arr, object, text_or_null, json_or_null, of_list, of_strings}
use simtrader.Http.{Handler, Response, ◌>>=◌, ◌>>◌, give, lift, json_response}
use simtrader.Kv.{KvNamespace}
use simtrader.World.{World, sql}
use simtrader.Database.{Signal, EngineKey, Db}
use simtrader.Database.Queries.{Postgres, time_or_null, matches, newest_first, list_limit}
use simtrader.Research.Signals.{select_signal, signal_or_missing}
use simtrader.Research.Evaluations.{uuid_or_throw, optional_uuid}

-- The query string of the list of signals.
pub record SignalQuery : Type 0 where
  pub instrument_key : Option String
  pub source : Option String
  pub horizon : Option String
  pub limit : Option String
  pub before : Option String

-- The WHERE clause.
abbrev pub signal_meets : Postgres → SignalQuery → Signal → Bool
signal_meets pg q s =
    matches q.instrument_key (λ key. s.instrument_key == key)
    && matches q.source (λ source. s.source == source)
    && matches q.horizon (λ horizon. s.horizon == horizon)
    && matches q.before (λ id. pg.uuid_before s.id id)

unfoldable pub select_signals : Postgres → SignalQuery → ℕ → Db → List Signal
select_signals pg q limit db =
    take limit (newest_first (λ (s : Signal). s.created_at) (filter (signal_meets pg q) db.signals))

abbrev pub with_payload : Postgres → Signal → List (String × Json) → Json
with_payload pg s payload = object (
    ("id", str s.id)
    ∷ ("instrumentKey", str s.instrument_key)
    ∷ ("symbol", str s.symbol)
    ∷ ("mic", str s.mic)
    ∷ ("score", str (pg.show_decimal s.score))
    ∷ ("horizon", str s.horizon)
    ∷ ("source", str s.source)
    ∷ payload)

-- The text that was sent, as the timestamp that the table keeps.
abbrev pub expiry_json : Postgres → Option String → Json
expiry_json pg none = Json.null
expiry_json pg (some text) = time_or_null pg (pg.parse_time text)

abbrev pub signal_tail : Postgres → Signal → List (String × Json)
signal_tail pg s =
    ("apiKeyId", text_or_null s.api_key_id)
    ∷ ("bridgeSub", text_or_null s.bridge_sub)
    ∷ ("expiresAt", expiry_json pg s.expires_at)
    ∷ ("createdAt", str (pg.show_time s.created_at))
    ∷ []

abbrev pub signal_json : Postgres → Signal → Json
signal_json pg s = with_payload pg s (signal_tail pg s)

abbrev pub signal_detail : Postgres → Signal → Json
signal_detail pg s = with_payload pg s (("payload", json_or_null s.payload) ∷ signal_tail pg s)

-- The columns that are listed: the hash of the key is not among them.
abbrev pub key_json : Postgres → EngineKey → Json
key_json pg k = object (
    ("id", str k.id)
    ∷ ("name", str k.name)
    ∷ ("keyPrefix", str k.key_prefix)
    ∷ ("scopes", arr (of_strings k.scopes))
    ∷ ("lastUsedAt", time_or_null pg k.last_used_at)
    ∷ ("expiresAt", time_or_null pg k.expires_at)
    ∷ ("revokedAt", time_or_null pg k.revoked_at)
    ∷ ("createdAt", str (pg.show_time k.created_at))
    ∷ [])

unfoldable pub select_keys : Db → List EngineKey
select_keys db = newest_first (λ (k : EngineKey). k.created_at) db.engine_api_keys

module _ {K : KvNamespace} where
  -- GET /research/signals
  unfoldable pub list_signals : Postgres → SignalQuery → Handler (World K) Response
  list_signals pg q = do
    limit ← lift (list_limit q.limit)
    lift (optional_uuid pg q.before)
    rows ← sql (λ db. (db, select_signals pg q limit db))
    give (json_response 200 (arr (of_list (map (signal_json pg) rows))))

  -- GET /research/signals/:id
  unfoldable pub show_signal : Postgres → String → Handler (World K) Response
  show_signal pg id = do
    lift (uuid_or_throw pg id)
    row ← sql (λ db. (db, select_signal id db))
    signal ← signal_or_missing row
    give (json_response 200 (signal_detail pg signal))

  -- GET /research/engine-keys
  unfoldable pub list_keys : Postgres → Handler (World K) Response
  list_keys pg = do
    rows ← sql (λ db. (db, select_keys db))
    give (json_response 200 (arr (of_list (map (key_json pg) rows))))
