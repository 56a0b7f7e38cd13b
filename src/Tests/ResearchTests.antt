-- ===== src/Tests/ResearchTests.antt =====
-- The research API at concrete inputs.
use simtrader.Base
use simtrader.Base.{
  ℕ, String, Option, none, some, List, [], ◌∷◌, returned, rejected, ◌≡◌, ◌≢◌, refl, whole, negsuc,
  pos, Exec,
}
use simtrader.Json
use simtrader.Json.{Json, str, num, obj, field, end}
use simtrader.Http.{Response, json_response, json_error}
use simtrader.World.{World}
use simtrader.Database.{EngineKey, Signal}
use simtrader.Database.Accounts
use simtrader.Audit.{write_audit}
use simtrader.Access.{no_vars}
use simtrader.Research
use simtrader.Research.{Principal, require_research_auth}
use simtrader.Research.EngineKeys
use simtrader.Research.EngineKeys.{KeyRequest, revoke_key}
use simtrader.Research.EngineKeys.Revocation.{revoke_key-bars}
use simtrader.Research.Signals
use simtrader.Research.Signals.{push_signal}
use simtrader.Research.Signals.Validity.{IsValidSignal, push_signal-IsValidSignal}
use simtrader.Tests.{memory, no_entries, postgres, platform, env, resolve}

abbrev engine_key : String → String → EngineKey
engine_key id hash = record {
  id = id;
  name = id;
  key_hash = hash;
  key_prefix = "sk_";
  scopes = [];
  last_used_at = none;
  expires_at = none;
  revoked_at = none;
  created_at = 1;
}

abbrev world : World memory
world = record {
  db = record {
    users = [];
    identities = [];
    saxo_tokens = [];
    signal_actions = [];
    audit_log = [];
    engine_api_keys = engine_key "k1" "sk_a" ∷ engine_key "k2" "sk_b" ∷ [];
    signals = [];
    evaluations = [];
    instruments = [];
  };
  kv = no_entries;
  jwks = [];
  outages = [];
}

abbrev key_text : String → String
key_text s = s

abbrev request : KeyRequest
request = record { actor_id = some "a1"; connecting_ip = none; body = returned (obj end) }

abbrev holder : Principal
holder = record {
  method = Research.engine_key_method;
  user_id = none;
  user_role = none;
  api_key_id = some "k2";
  bridge_sub = none;
  scopes = [];
}

desk : Unit {0}
unfolding require_research_auth Research.strip_prefix Research.select_key Research.touch_key
    Research.attempt Research.admit_key revoke_key EngineKeys.revoke_live EngineKeys.audit_key
    write_audit Accounts.insert_audit push_signal Signals.store_signal Signals.insert_signal
    Signals.new_signal Signals.is_known_horizon Json.read_prop Json.get_prop Base.trim
    Base.trim_start Base.trim_end Base.split Base.starts_with Base.has_char
desk = tt

abbrev revoked : World memory
revoked = (revoke_key 1100 request "k1" world).0

abbrev revoked_response : Response
revoked_response =
    json_response 200 (obj (field "id" (str "k1") (field "revoked" (Json.bool Base.true) end)))

revocation_runs : revoke_key 1100 request "k1" world ≡ (revoked, returned revoked_response)
unfolding desk
revocation_runs = refl

abbrev used : World memory
used = (require_research_auth platform resolve env key_text no_vars (some "Bearer sk_b") revoked).0

other_key_is_admitted :
    require_research_auth platform resolve env key_text no_vars (some "Bearer sk_b") revoked
    ≡ (used, returned holder)
unfolding desk
other_key_is_admitted = refl

revoked_key_is_refused :
    (require_research_auth {K = memory} platform resolve env key_text no_vars
      (some "Bearer sk_a")
      revoked).1
    ≡ rejected (json_error 401 "Invalid or revoked engine API key")
unfolding desk
revoked_key_is_refused = refl

revoke_key-bars_example : holder.api_key_id ≢ some "k1"
revoke_key-bars_example =
    revoke_key-bars memory 1100 request "k1" world revoked revoked_response revocation_runs platform
      resolve env key_text no_vars (some "Bearer sk_b") used holder other_key_is_admitted

abbrev signal_body : Exec Response Json
signal_body = returned (
    obj (
      field "instrument_key" (str "AAPL:XNAS") (
        field "score" (num (negsuc 4999))
          (field "horizon" (str "1w") (field "source" (str " engine ") end)))))

abbrev pushed : World memory
pushed = (push_signal postgres 1100 "s1" holder signal_body world).0

abbrev pushed_response : Response
pushed_response =
    json_response 201
      (obj (field "id" (str "s1") (field "created_at" (str "2026-01-01T00:00:00.000Z") end)))

push_runs :
    push_signal postgres 1100 "s1" holder signal_body world ≡ (pushed, returned pushed_response)
unfolding desk
push_runs = refl

push_signal-IsValidSignal_example :
    (s : Signal) × (pushed.db.signals ≡ s ∷ world.db.signals)
    × IsValidSignal s
    × (s.api_key_id ≡ holder.api_key_id)
push_signal-IsValidSignal_example =
    push_signal-IsValidSignal memory postgres 1100 "s1" holder signal_body world pushed
      pushed_response push_runs
