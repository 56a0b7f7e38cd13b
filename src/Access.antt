-- ===== src/Access.antt =====
-- Who is signed in, and who may pass: workers/src/middleware/auth.ts.
pub mod Admission
pub mod Fresh
use Prim.Native.String
use simtrader.Base.{
  ℕ, String, ◌==◌, Bool, true, false, not, Option, none, some, List, [], ◌∷◌, any, or_else,
  truthy_text, encode_uri_component, if◌then◌else◌,
}
use simtrader.Http.{
  Handler, Response, ◌>>=◌, ◌>>◌, give, lift, ensure, redirect_response, plain_response,
}
use simtrader.Kv.{KvNamespace}
use simtrader.Database.{User, Db}
use simtrader.Database.Accounts.{select_user}
use simtrader.World.{World, sql, kv}
use simtrader.Session.{SessionData, validate_session}

-- The variables that the middleware sets on the request.
pub record HonoVars : Type 0 where
  pub user_id : Option String
  pub user_role : Option String
  pub user_status : Option String
  pub auth_methods : Option (List String)

abbrev pub no_vars : HonoVars
no_vars = record { user_id = none; user_role = none; user_status = none; auth_methods = none }

-- The role comes from the database, the rest from the session.
abbrev pub signed_in : SessionData → User → HonoVars
signed_in session user = record {
  user_id = some session.user_id;
  user_role = some user.role;
  user_status = some "active";
  auth_methods = some session.amr;
}

abbrev pub vars_of : SessionData → Option User → HonoVars
vars_of session none = no_vars
vars_of session (some user) = if user.status == "active" then signed_in session user else no_vars

-- `c.var.userId` as a condition.
abbrev pub has_user : HonoVars → Bool
has_user vars = truthy_text (or_else vars.user_id "")

abbrev pub has_otp : HonoVars → Bool
has_otp vars = any (λ method. method == "otp") (or_else vars.auth_methods [])

abbrev pub is_role : Option String → String → Bool
is_role none role = false
is_role (some r) role = r == role

unfoldable pub start_url_for : String → String
start_url_for path = String.◌++◌ "/auth/budgetapp/start?next=" (encode_uri_component path)

-- `requireAuth`, on the path of the request.
unfoldable pub require_auth : {S : Type 0} → HonoVars → String → Handler S (Unit {0})
unfolding start_url_for
require_auth vars path = ensure (has_user vars) (redirect_response (start_url_for path))

abbrev pub forbidden : Response
forbidden = plain_response 403 "Forbidden"

abbrev pub needs_two_factor : Response
needs_two_factor =
    plain_response 403
      "Admin access requires two-factor authentication. Turn on 2FA in BudgetApp, sign out, and sign in again."

-- `requireAdmin`
unfoldable pub require_admin : {S : Type 0} → HonoVars → String → Handler S (Unit {0})
unfolding start_url_for
require_admin vars path = do
  ensure (has_user vars) (redirect_response (start_url_for path))
  ensure (is_role vars.user_role "admin") forbidden
  ensure (has_otp vars) needs_two_factor

module _ {K : KvNamespace} where
  -- The second look, in the database, at the user of a session.
  abbrev pub recheck : Option SessionData → Handler (World K) HonoVars
  recheck none = give no_vars
  recheck (some session) =
      sql (λ db. (db, select_user session.user_id db)) >>= λ user. give (vars_of session user)

  abbrev pub find_session : ℕ → String → Handler (World K) (Option SessionData)
  find_session now token = kv (λ s. (s, validate_session K s now token)) >>= lift

  -- `sessionMiddleware`, on the `__session` cookie.
  unfoldable pub session_middleware : ℕ → Option String → Handler (World K) HonoVars
  session_middleware now cookie =
      let token = or_else cookie "" in
      if truthy_text token then find_session now token >>= recheck else give no_vars

  -- What stands before every handler under /admin (routes/admin/index.ts).
  unfoldable pub enter_admin : ℕ → Option String → String → Handler (World K) HonoVars
  enter_admin now cookie path =
      session_middleware now cookie >>= λ vars. require_admin vars path >>= λ u. give vars
