-- ===== src/Research.antt =====
-- Who may use the research API: workers/src/middleware/research-auth.ts. The hash of a key is an
-- argument. An update that the code starts without waiting for it is made at once, and its failure
-- is ignored, as in the source.
pub mod Admission
pub mod EngineKeys
pub mod Signals
pub mod Evaluations
pub mod Instruments
pub mod Portfolio
pub mod Listings
pub mod Router
use Prim.Native.Char.{code}
use Prim.Native.String
use mathlib.Core.Option
use simtrader.Base.{
  ℕ, ◌/◌, String, ◌==◌, Bool, true, false, not, ◌&&◌, Option, none, some, List, [], ◌∷◌, find, ltb,
  eqb, or_else, has_char, starts_with, truthy_text, Exec, returned, rejected, thrown, if◌then◌else◌,
}
use simtrader.Http.{Handler, Response, ◌>>=◌, ◌>>◌, give, answer, ensure, lift, json_error}
use simtrader.Kv.{KvNamespace}
use simtrader.World.{World, sql}
use simtrader.Database.{User, Identity, EngineKey, Db, update_where}
use simtrader.Database.Accounts.{select_user, select_identity, is_identity}
use simtrader.Session.{SessionData}
use simtrader.Issuers.{Env, UrlResolver, issuer_config_for, unverified_issuer}
use simtrader.Jwt.{Runtime, IssuerConfig, IdTokenClaims, VerifyOptions}
use simtrader.Jwt.Verify.{VerifyResult, verify_id_token}
use simtrader.Access.{HonoVars, find_session}

pub data AuthMethod : Type 0 where
  session_method engine_key_method bridge_jwt_method : AuthMethod

-- The variables that the middleware sets. Who comes with an engine key keeps the `userId` that the
-- session middleware may have set.
pub record Principal : Type 0 where
  pub method : AuthMethod
  pub user_id : Option String
  pub user_role : Option String
  pub api_key_id : Option String
  pub bridge_sub : Option String
  pub scopes : List String

-- `s.startsWith(prefix) ? s.slice(prefix.length) : null`
unfoldable pub strip_prefix : String → String → Option String
strip_prefix String.[] s = some s
strip_prefix (String.◌∷◌ p ps) String.[] = none
strip_prefix (String.◌∷◌ p ps) (String.◌∷◌ c s) =
    let rest = strip_prefix ps s in if eqb (code p) (code c) then rest else none

abbrev pub is_engine_key : String → Bool
is_engine_key bearer = starts_with bearer "sk_"

abbrev pub bearer_of : Option String → String
bearer_of header = or_else (strip_prefix "Bearer " (or_else header "")) ""

abbrev pub is_unexpired : Option ℕ → ℕ → Bool
is_unexpired none now = true
is_unexpired (some at) now = ltb now at

abbrev pub is_unrevoked : Option ℕ → Bool
is_unrevoked none = true
is_unrevoked (some at) = false

-- `key_hash = … AND revoked_at IS NULL AND (expires_at IS NULL OR expires_at > NOW())`
abbrev pub is_usable : ℕ → String → EngineKey → Bool
is_usable now hash k =
    k.key_hash == hash && is_unrevoked k.revoked_at && is_unexpired k.expires_at now

unfoldable pub select_key : ℕ → String → Db → Option EngineKey
select_key now hash db = find (is_usable now hash) db.engine_api_keys

-- The joined row of a member. The pair (iss, sub) is unique.
abbrev pub join_user : Db → Option Identity → Option User
join_user db none = none
join_user db (some e) = select_user e.user_id db

unfoldable pub select_member : String → String → Db → Option User
select_member iss sub db = join_user db (select_identity iss sub db)

unfoldable pub touch_key : ℕ → String → Db → Db
touch_key now key_id db = record db {
  engine_api_keys =
      update_where (λ k. k.id == key_id) (λ k. record k { last_used_at = some now })
        db.engine_api_keys;
}

unfoldable pub touch_identity : ℕ → String → String → Db → Db
touch_identity now iss sub db = record db {
  identities =
      update_where (is_identity iss sub) (λ e. record e { last_seen_at = now }) db.identities;
}

abbrev pub key_principal : HonoVars → EngineKey → Principal
key_principal vars key = record {
  method = engine_key_method;
  user_id = vars.user_id;
  user_role = vars.user_role;
  api_key_id = some key.id;
  bridge_sub = none;
  scopes = key.scopes;
}

abbrev pub jwt_principal : User → String → Principal
jwt_principal user sub = record {
  method = bridge_jwt_method;
  user_id = some user.id;
  user_role = some user.role;
  api_key_id = none;
  bridge_sub = some sub;
  scopes = "signals:read" ∷ "signals:write" ∷ "evaluations:read" ∷ "evaluations:write" ∷ [];
}

-- The role is the session's copy here, unlike in middleware/auth.ts.
abbrev pub session_principal : SessionData → Principal
session_principal session = record {
  method = session_method;
  user_id = some session.user_id;
  user_role = some session.role;
  api_key_id = none;
  bridge_sub = none;
  scopes = "signals:read" ∷ "evaluations:read" ∷ [];
}

abbrev pub as_bearer : VerifyOptions
as_bearer = record { nonce = none; typ = none; now = none }

abbrev pub bearer_claims : VerifyResult → Exec Response IdTokenClaims
bearer_claims (returned claims) = returned claims
bearer_claims (rejected failure) = rejected (json_error 401 "Invalid or expired token")
bearer_claims thrown = thrown

abbrev pub issuer_config : UrlResolver → Env → Option String → Exec Response (Option IssuerConfig)
issuer_config resolve env none = returned none
issuer_config resolve env (some iss) =
    if truthy_text iss then issuer_config_for resolve env iss else returned none

-- A query with an undefined `sub` throws.
abbrev pub sub_or_throw : Option String → Exec Response String
sub_or_throw none = thrown
sub_or_throw (some sub) = returned sub

module _ {K : KvNamespace} where
  -- An update that nobody waits for.
  unfoldable pub attempt : (Db → Db) → Handler (World K) (Unit {0})
  attempt change w = ((sql (λ db. (change db, tt)) w).0, returned tt)

  abbrev pub key_or_refusal : Option EngineKey → Handler (World K) EngineKey
  key_or_refusal none = answer (json_error 401 "Invalid or revoked engine API key")
  key_or_refusal (some key) = give key

  -- The engine key path.
  unfoldable pub admit_key : ℕ → (String → String) → HonoVars → String → Handler (World K) Principal
  admit_key now sha256_hex vars bearer = do
    row ← sql (λ db. (db, select_key now (sha256_hex bearer) db))
    key ← key_or_refusal row
    attempt (touch_key now key.id)
    give (key_principal vars key)

  abbrev pub config_or_unknown : Option IssuerConfig → Handler (World K) IssuerConfig
  config_or_unknown none = answer (json_error 401 "Unknown token issuer")
  config_or_unknown (some config) = give config

  unfoldable pub verify_bearer : Runtime → IssuerConfig → String → Handler (World K) IdTokenClaims
  verify_bearer r config bearer w =
      let (cache, result) = verify_id_token r w.jwks bearer config as_bearer in
      (record w { jwks = cache }, bearer_claims result)

  abbrev pub user_or_refusal : Option User → Handler (World K) User
  user_or_refusal none =
      answer (json_error 403 "No simtrader account for this identity — sign in first")
  user_or_refusal (some user) = give user

  -- What follows the verification: the account of the member.
  unfoldable pub admit_claims : ℕ → IdTokenClaims → String → Handler (World K) Principal
  admit_claims now claims sub = do
    row ← sql (λ db. (db, select_member claims.iss sub db))
    user ← user_or_refusal row
    ensure (user.status == "active") (json_error 403 "Account is not active")
    attempt (touch_identity now claims.iss sub)
    give (jwt_principal user sub)

  -- The ID token path.
  unfoldable pub admit_jwt : Runtime → UrlResolver → Env → String → Handler (World K) Principal
  admit_jwt r resolve env bearer = do
    issuer ← lift (issuer_config resolve env (unverified_issuer r bearer))
    config ← config_or_unknown issuer
    claims ← verify_bearer r config bearer
    sub ← lift (sub_or_throw claims.sub)
    admit_claims (r.now_ms / 1000) claims sub

  -- `requireResearchAuth`, on the Authorization header.
  unfoldable pub require_research_auth :
      Runtime
      → UrlResolver
      → Env
      → (String → String)
      → HonoVars
      → Option String
      → Handler (World K) Principal
  require_research_auth r resolve env sha256_hex vars header =
      let bearer = bearer_of header in
      if truthy_text bearer && is_engine_key bearer
      then admit_key (r.now_ms / 1000) sha256_hex vars bearer
      else if truthy_text bearer && has_char "." bearer
      then admit_jwt r resolve env bearer
      else answer (json_error 401 "Missing or unsupported Authorization header")

  abbrev pub principal_of_row : SessionData → Option User → Handler (World K) Principal
  principal_of_row session none = answer (json_error 401 "Authentication required")
  principal_of_row session (some user) =
      if user.status == "active"
      then give (session_principal session)
      else answer (json_error 401 "Authentication required")

  abbrev pub admit_session : Option SessionData → Handler (World K) Principal
  admit_session none = answer (json_error 401 "Authentication required")
  admit_session (some session) =
      sql (λ db. (db, select_user session.user_id db)) >>= principal_of_row session

  -- `requireResearchOrSession`, on the header and the `__session` cookie.
  unfoldable pub require_research_or_session :
      Runtime
      → UrlResolver
      → Env
      → (String → String)
      → HonoVars
      → Option String
      → Option String
      → Handler (World K) Principal
  require_research_or_session r resolve env sha256_hex vars header cookie =
      let token = or_else cookie "" in
      if truthy_text (bearer_of header)
      then require_research_auth r resolve env sha256_hex vars header
      else if truthy_text token
      then find_session (r.now_ms / 1000) token >>= admit_session
      else answer (json_error 401 "Authentication required")
