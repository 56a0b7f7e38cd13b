-- ===== src/Research/Router.antt =====
-- The routes under /research: workers/src/routes/research/index.ts, with the routers it mounts and
-- the guard that stands before each handler. A path is given by its segments, decoded.
pub mod Refusal
pub mod Entry
pub mod Guard
use Prim.Native.String
use simtrader.Base.{
  ℕ, ◌/◌, String, ◌==◌, Bool, true, false, ◌&&◌, Option, none, some, List, [], ◌∷◌, join, Exec,
  returned, if◌then◌else◌,
}
use simtrader.Json.{Json, bool, str, object}
use simtrader.Http.{Handler, Response, ◌>>=◌, ◌>>◌, give, answer, json_response, plain_response}
use simtrader.Kv.{KvNamespace}
use simtrader.World.{World}
use simtrader.Database.Queries.{Postgres}
use simtrader.Issuers.{Env, UrlResolver}
use simtrader.Jwt.{Runtime}
use simtrader.Access.{HonoVars, session_middleware, require_admin}
use simtrader.Research.{Principal, require_research_auth, require_research_or_session}
use simtrader.Research.EngineKeys.{KeyRequest, KeyPlatform, create_key, revoke_key}
use simtrader.Research.Signals.{push_signal, act_on_signal}
use simtrader.Research.Evaluations.{EvaluationQuery, push_evaluation, list_evaluations}
use simtrader.Research.Instruments.{list_instruments, register_instrument}
use simtrader.Research.Portfolio.{HoldingsQuery, portfolio_context}
use simtrader.Research.Listings.{SignalQuery, list_signals, show_signal, list_keys}

pub data Method : Type 0 where
  get_method post_method delete_method : Method

-- Handlers behind requireAdmin.
pub data KeyEndpoint : Type 0 where
  list_keys_end create_key_end missing_key_end : KeyEndpoint
  revoke_key_end : String → KeyEndpoint

-- Handlers behind requireResearchAuth.
pub data EngineEndpoint : Type 0 where
  push_signal_end push_evaluation_end register_end instruments_end portfolio_end : EngineEndpoint

-- Handlers behind requireResearchOrSession.
pub data SharedEndpoint : Type 0 where
  signals_end evaluations_end : SharedEndpoint
  signal_end : String → SharedEndpoint
  action_end : String → SharedEndpoint

pub data ResearchEndpoint : Type 0 where
  health_end unknown_end : ResearchEndpoint
  key_end : KeyEndpoint → ResearchEndpoint
  engine_end : EngineEndpoint → ResearchEndpoint
  shared_end : SharedEndpoint → ResearchEndpoint

-- `/research/a`
abbrev pub route_one : Method → String → ResearchEndpoint
route_one get_method a =
    if a == "health"
    then ResearchEndpoint.health_end
    else if a == "engine-keys"
    then ResearchEndpoint.key_end KeyEndpoint.list_keys_end
    else if a == "instruments"
    then ResearchEndpoint.engine_end EngineEndpoint.instruments_end
    else if a == "signals"
    then ResearchEndpoint.shared_end SharedEndpoint.signals_end
    else if a == "evaluations"
    then ResearchEndpoint.shared_end SharedEndpoint.evaluations_end
    else if a == "portfolio-context"
    then ResearchEndpoint.engine_end EngineEndpoint.portfolio_end
    else ResearchEndpoint.unknown_end
route_one post_method a =
    if a == "engine-keys"
    then ResearchEndpoint.key_end KeyEndpoint.create_key_end
    else if a == "instruments"
    then ResearchEndpoint.engine_end EngineEndpoint.register_end
    else if a == "signals"
    then ResearchEndpoint.engine_end EngineEndpoint.push_signal_end
    else if a == "evaluations"
    then ResearchEndpoint.engine_end EngineEndpoint.push_evaluation_end
    else ResearchEndpoint.unknown_end
route_one delete_method a =
    if a == "engine-keys"
    then ResearchEndpoint.key_end KeyEndpoint.missing_key_end
    else ResearchEndpoint.unknown_end

-- `/research/a/b`
abbrev pub route_two : Method → String → String → ResearchEndpoint
route_two get_method a b =
    if a == "signals"
    then ResearchEndpoint.shared_end (SharedEndpoint.signal_end b)
    else if a == "engine-keys"
    then ResearchEndpoint.key_end KeyEndpoint.missing_key_end
    else ResearchEndpoint.unknown_end
route_two post_method a b =
    if a == "engine-keys"
    then ResearchEndpoint.key_end KeyEndpoint.missing_key_end
    else ResearchEndpoint.unknown_end
route_two delete_method a b =
    if a == "engine-keys"
    then ResearchEndpoint.key_end (KeyEndpoint.revoke_key_end b)
    else ResearchEndpoint.unknown_end

abbrev pub is_post : Method → Bool
is_post post_method = true
is_post _ = false

-- `/research/a/b/c`
abbrev pub route_three : Method → String → String → String → ResearchEndpoint
route_three method a b c =
    if is_post method && a == "signals" && c == "actions"
    then ResearchEndpoint.shared_end (SharedEndpoint.action_end b)
    else if a == "engine-keys"
    then ResearchEndpoint.key_end KeyEndpoint.missing_key_end
    else ResearchEndpoint.unknown_end

-- The guard of `/engine-keys/*` stands before unknown paths too.
abbrev pub route_longer : String → ResearchEndpoint
route_longer a =
    if a == "engine-keys"
    then ResearchEndpoint.key_end KeyEndpoint.missing_key_end
    else ResearchEndpoint.unknown_end

-- The routing table, on the segments after /research.
unfoldable pub research_route : Method → List String → ResearchEndpoint
research_route method [] = ResearchEndpoint.unknown_end
research_route method (a ∷ []) = route_one method a
research_route method (a ∷ b ∷ []) = route_two method a b
research_route method (a ∷ b ∷ c ∷ []) = route_three method a b c
research_route method (a ∷ b ∷ c ∷ d ∷ rest) = route_longer a

pub record ResearchCall : Type 0 where
  pub method : Method
  pub path : List String
  -- The `__session` cookie and the Authorization header.
  pub cookie : Option String
  pub authorization : Option String
  pub connecting_ip : Option String
  pub body : Exec Response Json
  pub tracked : Option String
  pub signal_query : SignalQuery
  pub evaluation_query : EvaluationQuery

-- What the platform gives.
pub record ResearchPlatform : Type 1 where
  pub runtime : Runtime
  pub resolve : UrlResolver
  pub env : Env
  pub pg : Postgres
  pub sha256_hex : String → String
  pub keys : KeyPlatform
  pub new_id : String
  pub holdings : HoldingsQuery

abbrev pub now_of : ResearchPlatform → ℕ
now_of p = p.runtime.now_ms / 1000

abbrev pub key_request : ResearchCall → HonoVars → KeyRequest
key_request call vars = record {
  actor_id = vars.user_id;
  connecting_ip = call.connecting_ip;
  body = call.body;
}

abbrev pub not_found : Response
not_found = plain_response 404 "Not found"

abbrev pub research_path : ResearchCall → String
research_path call = join "/" ("" ∷ "research" ∷ call.path)

module _ {K : KvNamespace} (p : ResearchPlatform) (call : ResearchCall) where
  unfoldable pub serve_key : HonoVars → KeyEndpoint → Handler (World K) Response
  serve_key vars KeyEndpoint.list_keys_end = list_keys p.pg
  serve_key vars KeyEndpoint.create_key_end = create_key p.keys (now_of p) (key_request call vars)
  serve_key vars (KeyEndpoint.revoke_key_end id) = revoke_key (now_of p) (key_request call vars) id
  serve_key vars KeyEndpoint.missing_key_end = answer not_found

  unfoldable pub serve_engine : Principal → EngineEndpoint → Handler (World K) Response
  serve_engine principal EngineEndpoint.push_signal_end =
      push_signal p.pg (now_of p) p.new_id principal call.body
  serve_engine principal EngineEndpoint.push_evaluation_end =
      push_evaluation p.pg (now_of p) p.new_id principal call.body
  serve_engine principal EngineEndpoint.register_end =
      register_instrument p.pg (now_of p) p.new_id call.body
  serve_engine principal EngineEndpoint.instruments_end = list_instruments p.pg call.tracked
  serve_engine principal EngineEndpoint.portfolio_end = portfolio_context p.pg p.holdings principal

  unfoldable pub serve_shared : Principal → SharedEndpoint → Handler (World K) Response
  serve_shared principal SharedEndpoint.signals_end = list_signals p.pg call.signal_query
  serve_shared principal SharedEndpoint.evaluations_end =
      list_evaluations p.pg call.evaluation_query
  serve_shared principal (SharedEndpoint.signal_end id) = show_signal p.pg id
  serve_shared principal (SharedEndpoint.action_end id) =
      act_on_signal p.pg (now_of p) p.new_id principal id call.body

  -- The guard and the handler of an endpoint.
  unfoldable pub serve_research_end : HonoVars → ResearchEndpoint → Handler (World K) Response
  serve_research_end vars ResearchEndpoint.health_end = give (
      json_response 200 (object (("ok", bool true) ∷ ("ts", str (p.pg.show_time (now_of p))) ∷ [])))
  serve_research_end vars ResearchEndpoint.unknown_end = answer not_found
  serve_research_end vars (ResearchEndpoint.key_end end) =
      require_admin vars (research_path call) >>= λ u. serve_key vars end
  serve_research_end vars (ResearchEndpoint.engine_end end) =
      require_research_auth p.runtime p.resolve p.env p.sha256_hex vars call.authorization
      >>= λ principal. serve_engine principal end
  serve_research_end vars (ResearchEndpoint.shared_end end) =
      require_research_or_session p.runtime p.resolve p.env p.sha256_hex vars call.authorization
        call.cookie
      >>= λ principal. serve_shared principal end

  -- Every request under /research: the session middleware, then the endpoint.
  unfoldable pub serve_research : Handler (World K) Response
  serve_research = session_middleware (now_of p) call.cookie >>= λ vars.
      serve_research_end vars (research_route call.method call.path)
