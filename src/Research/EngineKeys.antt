-- ===== src/Research/EngineKeys.antt =====
-- Engine API keys: workers/src/routes/research/keys.ts. The random bytes, the id of a key's row and
-- the reading of a timestamp by Postgres are arguments.
pub mod Revocation
pub mod Creation
use Prim.Native.String
use simtrader.Base.{
  ℕ, zero, suc, String, ◌==◌, ◌&&◌, Bool, true, Option, none, some, List, [], ◌∷◌, find, or_else,
  truthy_text, trim, is_some, Exec, returned, rejected, thrown, if◌then◌else◌,
}
use simtrader.Json.{
  Json, str, arr, bool, num, obj, field, end, read_prop, get_prop, as_string, as_array, strings_of,
  of_strings,
}
use simtrader.Http.{
  Handler, Response, ◌>>=◌, ◌>>◌, give, answer, ensure, lift, json_response, json_error,
}
use simtrader.Kv.{KvNamespace}
use simtrader.World.{World, sql}
use simtrader.Database.{EngineKey, Db, update_where}
use simtrader.Audit.{write_audit}
use simtrader.Research.{is_unrevoked}
use simtrader.Tokens.{to_hex, token_bytes}

-- What `c.req.json()` gives, and who asks.
pub record KeyRequest : Type 0 where
  pub actor_id : Option String
  pub connecting_ip : Option String
  pub body : Exec Response Json

-- `.catch(() => ({}))`
abbrev pub body_or_empty : Exec Response Json → Json
body_or_empty (returned body) = body
body_or_empty (rejected e) = obj end
body_or_empty thrown = obj end

-- `typeof v === 'string' && v.trim() ? v.trim() : null`, the null as the empty text.
abbrev pub trimmed : Option Json → String
trimmed v = trim (or_else (as_string v) "")

abbrev pub default_scopes : List String
default_scopes =
    "signals:read" ∷ "signals:write" ∷ "evaluations:read" ∷ "evaluations:write" ∷ "instruments:read"
    ∷ []

unfoldable pub scopes_of : Option Json → List String
unfolding strings_of
scopes_of value = elim (as_array value) [ none ↦ default_scopes | some vs ↦ strings_of vs ]

-- `rawKey.slice(0, n)`
unfoldable pub take_chars : ℕ → String → String
take_chars zero s = String.[]
take_chars (suc n) String.[] = String.[]
take_chars (suc n) (String.◌∷◌ c s) = String.◌∷◌ c (take_chars n s)

-- The platform: `crypto.getRandomValues`, the id of the key's row, the hash, and `…::timestamptz`.
pub record KeyPlatform : Type 0 where
  pub random_values : ℕ → List ℕ
  pub new_id : String
  pub sha256_hex : String → String
  pub parse_time : String → Option ℕ
  -- A time in JSON.
  pub show_time : ℕ → String

-- `generateEngineKey`
unfoldable pub generate_engine_key : (ℕ → List ℕ) → String
unfolding to_hex
generate_engine_key random_values =
    String.◌∷◌ "s" (String.◌∷◌ "k" (String.◌∷◌ "_" (to_hex (random_values token_bytes))))

abbrev pub read_time : KeyPlatform → Option String → Exec Response (Option ℕ)
read_time p none = returned none
read_time p (some text) = elim (p.parse_time text) [ none ↦ thrown | some at ↦ returned (some at) ]

unfoldable pub new_key : KeyPlatform → ℕ → String → List String → Option ℕ → EngineKey
unfolding generate_engine_key
new_key p now name scopes expires_at = record {
  id = p.new_id;
  name = name;
  key_hash = p.sha256_hex (generate_engine_key p.random_values);
  key_prefix = take_chars 11 (generate_engine_key p.random_values);
  scopes = scopes;
  last_used_at = none;
  expires_at = expires_at;
  revoked_at = none;
  created_at = now;
}

unfoldable pub insert_key : EngineKey → Db → Db
insert_key key db = record db { engine_api_keys = key ∷ db.engine_api_keys }

abbrev pub is_live_key : String → EngineKey → Bool
is_live_key id k = k.id == id && is_unrevoked k.revoked_at

-- `UPDATE … SET revoked_at = NOW() WHERE id = … AND revoked_at IS NULL RETURNING id, name`
unfoldable pub revoke_live : ℕ → String → Db → Db × Option EngineKey
revoke_live now id db = (
  record db {
    engine_api_keys =
        update_where (is_live_key id) (λ k. record k { revoked_at = some now }) db.engine_api_keys;
  },
  find (is_live_key id) db.engine_api_keys,
)

abbrev pub created_response : KeyPlatform → ℕ → String → List String → Response
created_response p now name scopes = json_response 201 (
    obj (
      field "id" (str p.new_id) (
        field "raw_key" (str (generate_engine_key p.random_values)) (
          field "name" (str name) (
            field "scopes" (arr (of_strings scopes))
              (field "created_at" (str (p.show_time now)) end))))))

abbrev pub key_detail : String → String → Json
key_detail id name = obj (field "keyId" (str id) (field "name" (str name) end))

module _ {K : KvNamespace} where
  unfoldable pub audit_key : ℕ → KeyRequest → String → Json → Handler (World K) (Unit {0})
  audit_key now q action detail = write_audit now (record {
    actor_id = q.actor_id;
    target_user_id = none;
    action = action;
    detail = some detail;
    ip_address = q.connecting_ip;
  })

  abbrev pub key_or_missing : Option EngineKey → Handler (World K) EngineKey
  key_or_missing none = answer (json_error 404 "Key not found or already revoked")
  key_or_missing (some key) = give key

  -- POST /research/engine-keys. Reading a property of a body that is null throws.
  unfoldable pub create_key : KeyPlatform → ℕ → KeyRequest → Handler (World K) Response
  create_key p now q = do
    let body = body_or_empty q.body
    name_value ← lift (read_prop body "name")
    let name = trimmed name_value
    ensure (truthy_text name) (json_error 400 "name is required")
    let scopes = scopes_of (get_prop body "scopes")
    expires_at ← lift (read_time p (as_string (get_prop body "expires_at")))
    sql (λ db. (insert_key (new_key p now name scopes expires_at) db, tt))
    audit_key now q "engine_key.create" (
        obj (
          field "keyId" (str p.new_id)
            (field "name" (str name) (field "scopes" (arr (of_strings scopes)) end))))
    give (created_response p now name scopes)

  -- DELETE /research/engine-keys/:id
  unfoldable pub revoke_key : ℕ → KeyRequest → String → Handler (World K) Response
  revoke_key now q id = do
    row ← sql (revoke_live now id)
    key ← key_or_missing row
    audit_key now q "engine_key.revoke" (key_detail id key.name)
    give (json_response 200 (obj (field "id" (str id) (field "revoked" (bool true) end))))
