-- ===== src/Admin.antt =====
-- The actions of an administrator on a user: the POST handlers of
-- workers/src/routes/admin/users.ts, and the admin part of workers/src/index.ts.
pub mod Effects
pub mod Barring
pub mod Isolation
pub mod Listing
pub mod Dashboard
use Prim.Native.String
use simtrader.Base.{
  ℕ, String, Bool, true, false, not, ◌||◌, Option, none, some, or_else, Exec, rejected, thrown,
  returned, if◌then◌else◌,
}
use mathlib.Core.Option
use simtrader.Json.{Json, bool, str, obj, field, end, read_prop, as_string, truthy}
use simtrader.Http.{Handler, Response, ◌>>=◌, ◌>>◌, give, lift, ensure, json_response, json_error}
use simtrader.Kv.{KvNamespace}
use simtrader.World.{World, sql, kv}
use simtrader.Database.{User, Db}
use simtrader.Database.Accounts.{select_user, update_user, delete_identities, expire_saxo_tokens}
use simtrader.Session.{destroy_all_user_sessions}
use simtrader.Audit.{write_audit}
use simtrader.Access.{is_role}

pub record AdminRequest : Type 0 where
  pub target_id : String
  -- `c.var.userId`
  pub actor_id : Option String
  -- The CF-Connecting-IP header.
  pub connecting_ip : Option String
  -- What `c.req.json()` gives.
  pub body : Exec Response Json

unfoldable pub get_ip : AdminRequest → String
get_ip r = or_else r.connecting_ip "unknown"

-- `targetId === actorId`
abbrev pub is_self : AdminRequest → Bool
is_self r = is_role r.actor_id r.target_id

abbrev pub ok_response : Response
ok_response = json_response 200 (obj (field "ok" (bool true) end))

abbrev pub set_status : String → ℕ → User → User
set_status status now u = record u { status = status; updated_at = now }

abbrev pub set_role : String → ℕ → User → User
set_role role now u = record u { role = role; updated_at = now }

-- The row of a soft deletion.
abbrev pub anonymise : ℕ → User → User
anonymise now u = record u {
  email = String.◌++◌ "deleted_" (String.◌++◌ u.id "@deleted");
  status = "deleted";
  updated_at = now;
}

abbrev pub role_detail : Option User → String → Json
role_detail current role = obj (
    field "from" (str (or_else (Option.map (λ (u : User). u.role) current) "unknown"))
      (field "to" (str role) end))

-- `body.confirm`, of a body that is `{ confirm: false }` where it could not be read.
abbrev pub read_confirm : Exec Response Json → Exec Response (Option Json)
read_confirm (returned body) = read_prop body "confirm"
read_confirm (rejected e) = returned (some (bool false))
read_confirm thrown = returned (some (bool false))

-- `body.role` of a body that must be read.
abbrev pub read_role : Exec Response Json → Exec Response (Option Json)
read_role (returned body) = read_prop body "role"
read_role (rejected e) = thrown
read_role thrown = thrown

-- `['user', 'admin'].includes(role)`
unfoldable pub is_known_role : Option Json → Bool
is_known_role role = is_role (as_string role) "user" || is_role (as_string role) "admin"

module _ {K : KvNamespace} (now : ℕ) (r : AdminRequest) where
  -- An UPDATE or DELETE.
  unfoldable pub run : (Db → Db) → Handler (World K) (Unit {0})
  run change = sql (λ db. (change db, tt))

  unfoldable pub end_sessions : Handler (World K) (Unit {0})
  end_sessions = kv (λ s. (destroy_all_user_sessions K s now r.target_id, tt))

  unfoldable pub audit : String → Option Json → Handler (World K) (Unit {0})
  audit action detail = write_audit now (record {
    actor_id = r.actor_id;
    target_user_id = some r.target_id;
    action = action;
    detail = detail;
    ip_address = some (get_ip r);
  })

  -- POST /:id/suspend
  unfoldable pub suspend : Handler (World K) Response
  suspend = do
    ensure (not (is_self r)) (json_error 400 "Cannot suspend yourself")
    run (update_user r.target_id (set_status "suspended" now))
    end_sessions
    audit "user.suspend" none
    give ok_response

  -- POST /:id/unsuspend
  unfoldable pub unsuspend : Handler (World K) Response
  unsuspend = do
    run (update_user r.target_id (set_status "active" now))
    audit "user.unsuspend" none
    give ok_response

  -- POST /:id/role
  unfoldable pub change_role : Handler (World K) Response
  change_role = do
    ensure (not (is_self r)) (json_error 400 "Cannot change your own role")
    role ← lift (read_role r.body)
    ensure (is_known_role role) (json_error 400 "Invalid role")
    let to = or_else (as_string role) ""
    current ← sql (λ db. (db, select_user r.target_id db))
    run (update_user r.target_id (set_role to now))
    audit "user.role_change" (some (role_detail current to))
    give ok_response

  -- POST /:id/token/expire
  unfoldable pub expire_token : Handler (World K) Response
  expire_token = do
    run (expire_saxo_tokens r.target_id now)
    audit "token.force_expire" none
    give ok_response

  -- POST /:id/delete
  unfoldable pub soft_delete : Handler (World K) Response
  soft_delete = do
    ensure (not (is_self r)) (json_error 400 "Cannot delete yourself")
    confirm ← lift (read_confirm r.body)
    ensure (truthy confirm) (json_error 400 "confirm required")
    run (update_user r.target_id (anonymise now))
    run (delete_identities r.target_id)
    end_sessions
    audit "user.delete" none
    give ok_response

-- The POST routes under /admin/users/:id.
pub data AdminAction : Type 0 where
  suspension unsuspension role_change token_expiry deletion : AdminAction

abbrev pub perform : {K : KvNamespace} → AdminAction → ℕ → AdminRequest → Handler (World K) Response
perform suspension = suspend
perform unsuspension = unsuspend
perform role_change = change_role
perform token_expiry = expire_token
perform deletion = soft_delete
