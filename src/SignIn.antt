-- ===== src/SignIn.antt =====
-- BudgetApp sign-in: workers/src/routes/budgetapp-auth.ts. Random texts, the time, the URL functions
-- of the platform, the hash of the PKCE verifier and BudgetApp's token endpoint are arguments.
pub mod Accounts
pub mod Callback
use Prim.Native.String
use simtrader.Base.{
  ℕ, ◌+◌, ◌/◌, ℤ, pos, negsuc, pos_part, whole, scale, String, Bool, true, false, not, ◌&&◌, Option,
  none, some, List, [], ◌∷◌, or_else, is_some, truthy_text, sub_ℕ, max, Exec, returned, rejected,
  thrown, if◌then◌else◌, ◌-ℤ◌, ◌+ℤ◌, has_char,
}
use simtrader.Json.{Json, null, str, num, obj, field, end, get_prop, read_prop, as_string, truthy}
use simtrader.Http.{
  Handler, Response, html, ◌>>=◌, ◌>>◌, give, answer, ensure, lift, redirect_response, unchanged,
}
use simtrader.Kv.{KvNamespace}
use simtrader.World.{World, kv}
use simtrader.Issuers.{Env, UrlResolver, budgetapp_connect_url, budgetapp_token_url, or_text}
use simtrader.Access.{HonoVars, has_user}

-- `FLOW_TTL_SECONDS`
abbrev pub flow_ttl_seconds : ℕ
flow_ttl_seconds = 600

pub record FlowState : Type 0 where
  pub nonce : Option String
  pub code_verifier : Option String
  pub next : Option String

-- `errorPage(message)`, without the markup around the message, and its status.
abbrev pub error_page : ℕ → String → Response
error_page status message = record { status = status; body = html message; cookie = unchanged }

unfoldable pub configured : Env → Bool
configured env =
    truthy_text env.budgetapp_issuer
    && truthy_text env.budgetapp_connect_url
    && truthy_text env.simtrader_public_url

unfoldable pub flow_key : String → String
flow_key state = String.◌++◌ "sso:flow:" state

-- `next.startsWith('/')`
abbrev pub starts_with_slash : String → Bool
starts_with_slash String.[] = false
starts_with_slash (String.◌∷◌ c s) = has_char c "/"

-- `next && next.startsWith('/') ? next : null`
unfoldable pub safe_next : Option String → Option String
safe_next none = none
safe_next (some next) = if starts_with_slash next then some next else none

abbrev pub text_or_null : Option String → Json
text_or_null none = null
text_or_null (some s) = str s

-- `JSON.stringify(flow)`
unfoldable pub encode_flow : String → String → Option String → ℕ → Json
encode_flow nonce code_verifier next started_at = obj (
    field "nonce" (str nonce) (
      field "codeVerifier" (str code_verifier)
        (field "next" (text_or_null next) (field "startedAt" (num (whole started_at)) end))))

-- `JSON.parse(flowRaw) as FlowState`; only the start of a flow writes such an entry.
unfoldable pub decode_flow : Json → FlowState
decode_flow stored = record {
  nonce = as_string (get_prop stored "nonce");
  code_verifier = as_string (get_prop stored "codeVerifier");
  next = as_string (get_prop stored "next");
}

-- The platform: `new URL`, search parameters on a URL, and `s256Challenge`. None is an exception.
pub record Web : Type 0 where
  pub resolve : UrlResolver
  pub with_params : String → List (String × String) → Option String
  pub challenge : String → String

-- What the token endpoint answers: the status is good or not, and a body that parses or not.
pub record TokenResponse : Type 0 where
  pub ok : Bool
  pub body : Option Json

pub record TokenRequest : Type 0 where
  pub url : String
  pub code : String
  pub code_verifier : Option String
  pub client_id : String
  pub redirect_uri : String

-- BudgetApp's answer to the exchange of a code; none is a failed connection.
abbrev pub TokenEndpoint : Type 0
TokenEndpoint = TokenRequest → Option TokenResponse

abbrev pub or_throw {ℓ κ} : {E : Type κ} {A : Type ℓ} → Option A → Exec E A
or_throw none = thrown
or_throw (some a) = returned a

-- `redirectUri`
unfoldable pub redirect_uri : Web → Env → Option String
redirect_uri web env = web.resolve "/auth/budgetapp/callback" env.simtrader_public_url

abbrev pub client_id : Env → String
client_id env = or_text env.sso_client_id "simtrader"

-- The random texts of one start.
pub record StartSecrets : Type 0 where
  pub state : String
  pub nonce : String
  pub code_verifier : String

abbrev pub authorize_params : Web → Env → StartSecrets → String → List (String × String)
authorize_params web env secrets redirect =
    ("client_id", client_id env)
    ∷ ("redirect_uri", redirect)
    ∷ ("response_type", "code")
    ∷ ("scope", "openid profile email")
    ∷ ("state", secrets.state)
    ∷ ("nonce", secrets.nonce)
    ∷ ("code_challenge", web.challenge secrets.code_verifier)
    ∷ ("code_challenge_method", "S256")
    ∷ []

module _ {K : KvNamespace} where
  unfoldable pub remember_flow : ℕ → StartSecrets → Option String → Handler (World K) (Unit {0})
  remember_flow now secrets next = kv (λ s. (
    K.put (flow_key secrets.state)
        (encode_flow secrets.nonce secrets.code_verifier (safe_next next) now)
        (some flow_ttl_seconds) now s,
    tt,
  ))

  -- GET /start
  unfoldable pub start :
      Web → Env → ℕ → HonoVars → StartSecrets → Option String → Handler (World K) Response
  start web env now vars secrets next = do
    ensure (not (has_user vars)) (redirect_response "/dashboard")
    ensure (configured env) (error_page 503 "Sign-in is not configured on this deployment.")
    remember_flow now secrets next
    redirect ← lift (or_throw (redirect_uri web env))
    url ← lift (
        or_throw
          (web.with_params (budgetapp_connect_url env) (authorize_params web env secrets redirect)))
    give (redirect_response url)

  unfoldable pub read_flow : ℕ → String → Handler (World K) (Option Json)
  read_flow now state = kv (λ s. (s, K.get s now (flow_key state)))

  unfoldable pub drop_flow : String → Handler (World K) (Unit {0})
  drop_flow state = kv (λ s. (K.delete (flow_key state) s, tt))

  abbrev pub flow_or_expired : Option Json → Handler (World K) Json
  flow_or_expired none =
      answer (error_page 400 "This sign-in link has expired or was already used.")
  flow_or_expired (some stored) = give stored

  -- Reading the flow also consumes it.
  unfoldable pub consume_flow : ℕ → String → Handler (World K) FlowState
  consume_flow now state = do
    found ← read_flow now state
    stored ← flow_or_expired found
    drop_flow state
    give (decode_flow stored)

-- `resp.json()` and the check of `id_token`, inside the try block: an exception is a 502.
unfoldable pub unreachable : Response
unreachable = error_page 502 "Could not reach BudgetApp."

-- A truthy `id_token` that is no text makes the verifier throw, outside the try block.
abbrev pub text_or_throw : Option Json → Exec Response String
text_or_throw (some (str s)) = returned s
text_or_throw v = thrown

unfoldable pub read_id_token : Json → Exec Response String
read_id_token null = rejected unreachable
read_id_token body =
    if truthy (get_prop body "id_token")
    then text_or_throw (get_prop body "id_token")
    else rejected (error_page 502 "BudgetApp returned no identity token.")

abbrev pub read_body : Option Json → Exec Response String
read_body none = rejected unreachable
read_body (some body) = read_id_token body

abbrev pub read_response : Option TokenResponse → Exec Response String
read_response none = rejected unreachable
read_response (some r) =
    if r.ok then read_body r.body else rejected (error_page 401 "BudgetApp rejected the sign-in.")

-- The exchange of the code for an ID token.
unfoldable pub exchange_code : Web → TokenEndpoint → Env → String → FlowState → Exec Response String
exchange_code web endpoint env code flow = elim (redirect_uri web env) [
  | none ↦ rejected unreachable
  | some redirect ↦ read_response (
      endpoint (record {
        url = budgetapp_token_url env;
        code = code;
        code_verifier = flow.code_verifier;
        client_id = client_id env;
        redirect_uri = redirect;
      }))
]
