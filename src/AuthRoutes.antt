-- ===== src/AuthRoutes.antt =====
-- The way out, and the redirects of the site: workers/src/routes/auth.ts and workers/src/index.ts.
pub mod Logout
use mathlib.Core.Option
use simtrader.Base.{
  ℕ, String, ◌==◌, ◌&&◌, Option, none, some, List, [], ◌∷◌, find, or_else, truthy_text,
  if◌then◌else◌,
}
use simtrader.Json.{Json, null, str, object, text_or_null}
use simtrader.Database.Queries.{Postgres, time_or_null}
use simtrader.Http.{
  Handler, Response, redirect, deleted, ◌>>=◌, ◌>>◌, give, ensure, redirect_response, json_response,
  json_error,
}
use simtrader.Kv.{KvNamespace}
use simtrader.World.{World, sql, kv}
use simtrader.Database.{User, Identity, Db}
use simtrader.Database.Accounts.{select_user}
use simtrader.Session.{destroy_session}
use simtrader.Access.{HonoVars, has_user}

-- GET /auth/login
unfoldable pub login_redirect : HonoVars → Response
login_redirect vars =
    redirect_response (if has_user vars then "/dashboard" else "/auth/budgetapp/start")

-- GET /
unfoldable pub home_redirect : HonoVars → Response
home_redirect vars =
    redirect_response (if has_user vars then "/dashboard" else "/auth/budgetapp/start")

abbrev pub goodbye : Response
goodbye = record { status = 302; body = redirect "/goodbye"; cookie = deleted }

abbrev pub name_or_null : Option Identity → Json
name_or_null none = null
name_or_null (some i) = text_or_null i.name

-- The first row of the user joined with an identity.
abbrev pub me_json : Postgres → User → Option Identity → Json
me_json pg u e = object (
    ("id", str u.id)
    ∷ ("email", str u.email)
    ∷ ("role", str u.role)
    ∷ ("status", str u.status)
    ∷ ("createdAt", str (pg.show_time u.created_at))
    ∷ ("lastLoginAt", time_or_null pg u.last_login_at)
    ∷ ("provider", text_or_null (Option.map (λ (i : Identity). i.provider) e))
    ∷ ("providerSub", text_or_null (Option.map (λ (i : Identity). i.sub) e))
    ∷ ("name", name_or_null e)
    ∷ [])

abbrev pub me_of : Postgres → Db → Option User → Json
me_of pg db none = null
me_of pg db (some u) = me_json pg u (find (λ e. e.user_id == u.id) db.identities)

unfoldable pub select_me : Postgres → String → Db → Json
select_me pg user_id db = me_of pg db (select_user user_id db)

module _ {K : KvNamespace} where
  unfoldable pub end_session : ℕ → String → Handler (World K) (Unit {0})
  end_session now token =
      if truthy_text token then kv (λ s. (destroy_session K s now token, tt)) else give tt

  -- POST /auth/logout, on the `__session` cookie.
  unfoldable pub logout : ℕ → Option String → Handler (World K) Response
  logout now cookie = end_session now (or_else cookie "") >> give goodbye

  -- GET /auth/me
  unfoldable pub me : Postgres → HonoVars → Handler (World K) Response
  me pg vars = do
    ensure (has_user vars) (json_error 401 "Unauthenticated")
    row ← sql (λ db. (db, select_me pg (or_else vars.user_id "") db))
    give (json_response 200 row)
