-- ===== src/Research/EngineKeys/Creation.antt =====
-- A key that was created opens the research API.
use Prim.Native.String
use simtrader.Base.{String, none, some}
use simtrader.Json.{get_prop}
use simtrader.World.{World}
use simtrader.Access.{HonoVars}
use simtrader.Research.{Principal, engine_key_method}
use simtrader.Research.EngineKeys.{
  KeyPlatform, KeyRequest, body_or_empty, scopes_of, generate_engine_key,
}

-- The header of a client that uses the key.
abbrev pub key_header : KeyPlatform → String
key_header p = String.◌++◌ "Bearer " (generate_engine_key p.random_values)

-- Who the key stands for: the row that the request asked for.
abbrev pub key_holder : KeyPlatform → HonoVars → KeyRequest → Principal
key_holder p vars q = record {
  method = engine_key_method;
  user_id = vars.user_id;
  user_role = vars.user_role;
  api_key_id = some p.new_id;
  bridge_sub = none;
  scopes = scopes_of (get_prop (body_or_empty q.body) "scopes");
}
