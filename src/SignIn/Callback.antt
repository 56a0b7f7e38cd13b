-- ===== src/SignIn/Callback.antt =====
-- GET /callback of workers/src/routes/budgetapp-auth.ts.
pub mod Steps
pub mod SignedIn
pub mod Spent
pub mod Once
use Prim.Native.String
use simtrader.Base.{
  ℕ, ◌/◌, max, pos_part, whole, scale, ◌-ℤ◌, ◌+ℤ◌, String, ◌==◌, Bool, true, false, not, ◌&&◌,
  Option, none, some, or_else, is_some, truthy_text, Exec, returned, rejected, thrown,
  if◌then◌else◌, List,
}
use simtrader.Json.{Json, num, str, arr, obj, field, end, of_strings}
use simtrader.Http.{Handler, Response, redirect, issued, ◌>>=◌, ◌>>◌, give, answer, ensure, lift}
use simtrader.Kv.{KvNamespace}
use simtrader.World.{World, kv}
use simtrader.Audit.{write_audit}
use simtrader.Issuers.{Env, budgetapp_issuer}
use simtrader.Jwt.{Runtime, IssuerConfig, IdTokenClaims, VerifyOptions}
use simtrader.Jwt.Verify.{VerifyResult, verify_id_token}
use simtrader.Session.{SessionData, write_entry, write_list}
use simtrader.SignIn.{
  Web, TokenEndpoint, FlowState, error_page, configured, consume_flow, exchange_code,
}
use simtrader.SignIn.Accounts.{Account, find_or_provision}

pub record CallbackRequest : Type 0 where
  pub error : Option String
  pub code : Option String
  pub state : Option String
  pub connecting_ip : Option String

abbrev pub as_text : Option String → String
as_text o = or_else o ""

unfoldable pub jti_key : String → String → String
jti_key issuer jti = String.◌++◌ "sso:jti:" (String.◌++◌ issuer (String.◌++◌ ":" jti))

-- How long a `jti` is remembered, in whole seconds.
unfoldable pub jti_ttl : ℕ → IdTokenClaims → ℕ
jti_ttl now claims = max 60 (pos_part (claims.exp -ℤ whole now +ℤ whole 60) / scale)

abbrev pub id_token_options : FlowState → VerifyOptions
id_token_options flow = record { nonce = flow.nonce; typ = none; now = none }

abbrev pub claims_or_refusal : VerifyResult → Exec Response IdTokenClaims
claims_or_refusal (returned claims) = returned claims
claims_or_refusal (rejected failure) =
    rejected (error_page 401 "The identity token did not verify.")
claims_or_refusal thrown = thrown

abbrev pub login_detail : IdTokenClaims → Json
login_detail claims =
    obj (field "provider" (str "budgetapp") (field "amr" (arr (of_strings claims.amr)) end))

abbrev pub new_session : Account → IdTokenClaims → SessionData
new_session account claims = record {
  user_id = account.user_id;
  role = account.role;
  amr = claims.amr;
  auth_time = or_else claims.auth_time claims.iat;
}

unfoldable pub destination : FlowState → Account → String
destination flow account =
    or_else flow.next (if account.role == "admin" then "/admin" else "/dashboard")

abbrev pub signed_in_response : String → FlowState → Account → Response
signed_in_response token flow account = record {
  status = 302;
  body = redirect (destination flow account);
  cookie = issued token;
}

module _ {K : KvNamespace} where
  -- The verification; it writes the JWKS cache of the isolate.
  unfoldable pub verify :
      Runtime → IssuerConfig → String → FlowState → Handler (World K) IdTokenClaims
  verify r config id_token flow w =
      let (cache, result) = verify_id_token r w.jwks id_token config (id_token_options flow) in
      (record w { jwks = cache }, claims_or_refusal result)

  abbrev pub config_or_unconfigured : Option IssuerConfig → Handler (World K) IssuerConfig
  config_or_unconfigured none = answer (error_page 503 "Sign-in is not configured.")
  config_or_unconfigured (some config) = give config

  unfoldable pub read_jti : ℕ → String → String → Handler (World K) (Option Json)
  read_jti now issuer jti = kv (λ s. (s, K.get s now (jti_key issuer jti)))

  unfoldable pub remember_jti : ℕ → String → String → ℕ → Handler (World K) (Unit {0})
  remember_jti now issuer jti ttl =
      kv (λ s. (K.put (jti_key issuer jti) (num (whole 1)) (some ttl) now s, tt))

  unfoldable pub claim_jti : ℕ → String → IdTokenClaims → String → Handler (World K) (Unit {0})
  claim_jti now issuer claims jti = do
    found ← read_jti now issuer jti
    ensure (not (is_some found)) (error_page 401 "That sign-in was already used.")
    remember_jti now issuer jti (jti_ttl now claims)

  -- The replay guard.
  unfoldable pub guard_replay : ℕ → String → IdTokenClaims → Handler (World K) (Unit {0})
  guard_replay now issuer claims =
      if truthy_text (as_text claims.jti)
      then claim_jti now issuer claims (as_text claims.jti)
      else give tt

  -- The call of `createSession`; a failure between its writes leaves the entry without the list.
  unfoldable pub store_session : ℕ → String → SessionData → Handler (World K) (Unit {0})
  store_session now token session = do
    kv (λ s. (write_entry K s now token session, tt))
    kv (λ s. (write_list K s now token session, tt))

  -- From the account to the answer.
  unfoldable pub finish :
      ℕ
      → String
      → CallbackRequest
      → FlowState
      → IdTokenClaims
      → Account
      → Handler (World K) Response
  finish now token q flow claims account = do
    ensure (account.status == "active") (error_page 403 "Your simtrader account is not active.")
    write_audit now (record {
      actor_id = some account.user_id;
      target_user_id = none;
      action = "user.login";
      detail = some (login_detail claims);
      ip_address = q.connecting_ip;
    })
    store_session now token (new_session account claims)
    give (signed_in_response token flow account)

  -- The three early answers, on the parameters alone.
  unfoldable pub check_request : Env → CallbackRequest → Handler (World K) (Unit {0})
  check_request env q = do
    ensure (configured env) (error_page 503 "Sign-in is not configured.")
    ensure (not (truthy_text (as_text q.error))) (
        error_page 400
          (String.◌++◌ "BudgetApp declined the request (" (String.◌++◌ (as_text q.error) ").")))
    ensure (truthy_text (as_text q.code) && truthy_text (as_text q.state))
        (error_page 400 "Missing code or state.")

  -- The handler, with the new session's token and the id that a new user gets.
  unfoldable pub callback :
      Runtime
      → Web
      → TokenEndpoint
      → Env
      → String
      → String
      → CallbackRequest
      → Handler (World K) Response
  callback r web endpoint env new_id token q = do
    let now = r.now_ms / 1000
    check_request env q
    flow ← consume_flow now (as_text q.state)
    id_token ← lift (exchange_code web endpoint env (as_text q.code) flow)
    issuer ← lift (budgetapp_issuer web.resolve env)
    config ← config_or_unconfigured issuer
    claims ← verify r config id_token flow
    guard_replay now config.issuer claims
    account ← find_or_provision now new_id claims
    finish now token q flow claims account
