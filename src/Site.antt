-- ===== src/Site.antt =====
-- The routes of workers/src/index.ts: the health check, the dashboard, and everything under /admin,
-- with the routers of workers/src/routes/admin mounted there. A path is given by its segments,
-- decoded.
pub mod Reading
pub mod Guard
use Prim.Native.String
use simtrader.Base.{
  ℕ, ltb, String, ◌==◌, Bool, true, false, ◌&&◌, Option, none, some, List, [], ◌∷◌, map, find, join,
  or_else, is_some, Exec, returned, rejected, thrown, if◌then◌else◌,
}
use mathlib.Core.Option
use simtrader.Json.{Json, bool, str, object}
use simtrader.Pages
use simtrader.Http.{
  Handler, Response, ◌>>=◌, ◌>>◌, give, answer, continue, json_response, plain_response,
  redirect_response, page_response,
}
use simtrader.Kv.{KvNamespace}
use simtrader.World.{World, sql}
use simtrader.Database.{User, SaxoToken, Db}
use simtrader.Database.Accounts.{select_user}
use simtrader.Database.Queries.{Postgres}
use simtrader.Access.{HonoVars, session_middleware, require_auth, enter_admin}
use simtrader.Admin.{
  AdminRequest, AdminAction, suspension, unsuspension, role_change, token_expiry, deletion, perform,
}
use simtrader.Admin.Listing.{UserFilters, list_users, show_user}
use simtrader.Admin.Dashboard.{admin_dashboard}
use simtrader.AuditLog.{AuditQuery, audit_list, audit_export}

-- `email`, `token: { active, expiresAt }` of the rows that were found.
abbrev pub dashboard_of : Option User → Option ℕ → Pages.Dashboard
dashboard_of user token = record {
  email = or_else (Option.map (λ (u : User). u.email) user) "";
  active = is_some token;
  expires_at = token;
}

unfoldable pub live_token : ℕ → String → Db → Option ℕ
live_token now user_id db =
    Option.map (λ (t : SaxoToken). t.expires_at)
      (find (λ t. t.user_id == user_id && ltb now t.expires_at) db.saxo_tokens)

abbrev pub healthy : String → Bool → Response
healthy environment ok =
    json_response (if ok then 200 else 503)
      (object (("ok", bool ok) ∷ ("db", bool ok) ∷ ("environment", str environment) ∷ []))

-- `catch { return … 503 }`
abbrev pub health_of : String → Exec Response (Unit {0}) → Response
health_of environment (returned u) = healthy environment true
health_of environment (rejected e) = healthy environment false
health_of environment thrown = healthy environment false

abbrev pub system_of : Postgres → String → ℕ → Exec Response (Unit {0}) → Response
system_of pg environment now (returned u) = json_response 200 (
    object (
      ("db", object (("ok", bool true) ∷ ("serverTime", str (pg.now_text now)) ∷ []))
      ∷ ("environment", str environment)
      ∷ ("worker", str "ok")
      ∷ []))
system_of pg environment now failed =
    json_response 500
      (object (("db", object (("ok", bool false) ∷ ("error", str pg.error_text) ∷ [])) ∷ []))

module _ {K : KvNamespace} where
  -- GET /health
  unfoldable pub health : String → Handler (World K) Response
  health environment w =
      let (left, result) = sql (λ db. (db, tt)) w in (left, returned (health_of environment result))

  -- GET /dashboard
  unfoldable pub dashboard : ℕ → HonoVars → Handler (World K) Response
  dashboard now vars = do
    require_auth vars "/dashboard"
    let user_id = or_else vars.user_id ""
    user ← sql (λ db. (db, select_user user_id db))
    token ← sql (λ db. (db, live_token now user_id db))
    give (page_response (Pages.dashboard_page (dashboard_of user token)))

  -- GET /admin/system
  unfoldable pub system : Postgres → String → ℕ → Handler (World K) Response
  system pg environment now w =
      let (left, result) = sql (λ db. (db, tt)) w in
      (left, returned (system_of pg environment now result))

-- What is under /admin.
pub data AdminEndpoint : Type 0 where
  dashboard_end users_end audit_end export_end system_end missing_end : AdminEndpoint
  user_end : String → AdminEndpoint
  action_end : AdminAction → String → AdminEndpoint

abbrev pub get_one : String → AdminEndpoint
get_one a =
    if a == "users"
    then AdminEndpoint.users_end
    else if a == "audit"
    then AdminEndpoint.audit_end
    else if a == "system"
    then AdminEndpoint.system_end
    else AdminEndpoint.missing_end

abbrev pub get_two : String → String → AdminEndpoint
get_two a b =
    if a == "users"
    then AdminEndpoint.user_end b
    else if a == "audit" && b == "export"
    then AdminEndpoint.export_end
    else AdminEndpoint.missing_end

abbrev pub post_three : String → String → String → AdminEndpoint
post_three a id action =
    if a == "users" && action == "suspend"
    then AdminEndpoint.action_end suspension id
    else if a == "users" && action == "unsuspend"
    then AdminEndpoint.action_end unsuspension id
    else if a == "users" && action == "role"
    then AdminEndpoint.action_end role_change id
    else if a == "users" && action == "delete"
    then AdminEndpoint.action_end deletion id
    else AdminEndpoint.missing_end

abbrev pub post_four : String → String → String → String → AdminEndpoint
post_four a id b c =
    if a == "users" && b == "token" && c == "expire"
    then AdminEndpoint.action_end token_expiry id
    else AdminEndpoint.missing_end

-- The routing table, on whether the method is GET (or else POST) and the segments after /admin.
unfoldable pub admin_route : Bool → List String → AdminEndpoint
admin_route true [] = AdminEndpoint.dashboard_end
admin_route true (a ∷ []) = get_one a
admin_route true (a ∷ b ∷ []) = get_two a b
admin_route false (a ∷ b ∷ c ∷ []) = post_three a b c
admin_route false (a ∷ b ∷ c ∷ d ∷ []) = post_four a b c d
admin_route is_get path = AdminEndpoint.missing_end

-- A request under /admin.
pub record AdminCall : Type 0 where
  pub is_get : Bool
  pub path : List String
  -- The `__session` cookie.
  pub cookie : Option String
  pub connecting_ip : Option String
  pub body : Exec Response Json
  pub filters : UserFilters
  pub audit_query : AuditQuery

-- What the platform gives: Postgres, the time and the date, and the name of the environment.
pub record SitePlatform : Type 0 where
  pub pg : Postgres
  pub now : ℕ
  pub today : String
  pub environment : String

abbrev pub action_request : AdminCall → HonoVars → String → AdminRequest
action_request call vars id = record {
  target_id = id;
  actor_id = vars.user_id;
  connecting_ip = call.connecting_ip;
  body = call.body;
}

-- GET /admin/login, which stands before the guard.
abbrev pub is_login : AdminCall → Bool
is_login call = call.is_get && join "/" call.path == "login"

abbrev pub login_response : Response
login_response = redirect_response "/auth/budgetapp/start?next=%2Fadmin"

abbrev pub path_text : AdminCall → String
path_text call = join "/" ("" ∷ "admin" ∷ call.path)

module _ {K : KvNamespace} where
  -- The handler of an endpoint.
  unfoldable pub serve_end :
      SitePlatform → AdminCall → HonoVars → AdminEndpoint → Handler (World K) Response
  serve_end p call vars AdminEndpoint.dashboard_end = admin_dashboard p.now
  serve_end p call vars AdminEndpoint.users_end =
      list_users p.pg p.now call.filters call.audit_query.page
  serve_end p call vars (AdminEndpoint.user_end id) = show_user id
  serve_end p call vars AdminEndpoint.audit_end = audit_list p.pg call.audit_query
  serve_end p call vars AdminEndpoint.export_end = audit_export p.pg p.today call.audit_query
  serve_end p call vars AdminEndpoint.system_end = system p.pg p.environment p.now
  serve_end p call vars (AdminEndpoint.action_end action id) =
      perform action p.now (action_request call vars id)
  serve_end p call vars AdminEndpoint.missing_end = answer (plain_response 404 "Not found")

  -- Every request under /admin.
  unfoldable pub serve_admin : SitePlatform → AdminCall → Handler (World K) Response
  serve_admin p call =
      if is_login call
      then session_middleware p.now call.cookie >> give login_response
      else enter_admin p.now call.cookie (path_text call) >>= λ vars.
          serve_end p call vars (admin_route call.is_get call.path)
