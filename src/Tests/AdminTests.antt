-- ===== src/Tests/AdminTests.antt =====
-- The admin guard and the actions on users at concrete inputs.
use simtrader.Base.{
  String, Option, none, some, [], ◌∷◌, any, ◌==◌, eq_iff, true, returned, rejected, ◌≡◌, ◌≢◌, refl,
  whole, All, arith,
}
use simtrader.Json.{Json, str, bool, obj, field, end}
use simtrader.World.{World}
use simtrader.Database.{User, Identity}
use simtrader.Database.Accounts
use simtrader.Database.Accounts.{select_user}
use simtrader.Audit.{write_audit}
use simtrader.Json
use simtrader.Session
use simtrader.Session.{
  SessionData, create_session, validate_session, decode_session, destroy_all_user_sessions,
}
use simtrader.Access.{
  HonoVars, no_vars, has_user, session_middleware, enter_admin, require_admin, forbidden,
}
use simtrader.Access.Admission.{IsSignedIn, session_middleware-IsSignedIn, enter_admin-IsSignedIn}
use simtrader.Admin
use simtrader.Admin.{AdminRequest, perform, suspension, deletion, suspend, soft_delete, ok_response}
use simtrader.Admin.Effects.{action_row, action_name, perform-IsAudited}
use simtrader.Admin.Barring.{suspend-bars, soft_delete-bars, soft_delete-unlinks}
use simtrader.Admin.Isolation.{perform-isolated}
use simtrader.AuthRoutes
use simtrader.AuthRoutes.{logout, goodbye}
use simtrader.AuthRoutes.Logout.{logout-ends}
use simtrader.Tests.{memory, no_entries}

abbrev pub admin_session : SessionData
admin_session = record {
  user_id = "a1";
  role = "user";
  amr = "pwd" ∷ "otp" ∷ [];
  auth_time = whole 1000;
}

abbrev member_session : SessionData
member_session = record { user_id = "u1"; role = "user"; amr = []; auth_time = whole 1000 }

abbrev pub user_row : String → String → User
user_row id role = record {
  id = id;
  email = "a@b";
  role = role;
  status = "active";
  created_at = 1;
  last_login_at = none;
  updated_at = 1;
}

abbrev identity : Identity
identity = record {
  user_id = "u1";
  provider = "budgetapp";
  iss = "https://id";
  sub = "member";
  email = none;
  name = none;
  last_seen_at = 1;
}

abbrev pub world : World memory
world = record {
  db = record {
    users = user_row "a1" "admin" ∷ user_row "u1" "user" ∷ [];
    identities = identity ∷ [];
    saxo_tokens = [];
    signal_actions = [];
    audit_log = [];
    engine_api_keys = [];
    signals = [];
    evaluations = [];
    instruments = [];
  };
  kv =
      create_session memory (create_session memory no_entries 1000 "t1" member_session) 1000 "ta"
        admin_session;
  jwks = [];
  outages = [];
}

abbrev on_member : AdminRequest
on_member = record {
  target_id = "u1";
  actor_id = some "a1";
  connecting_ip = some "1.2.3.4";
  body = returned (obj (field "confirm" (bool true) end));
}

unfoldable pub console : Unit {0}
unfolding Session.encode_session create_session validate_session decode_session
    destroy_all_user_sessions Session.delete_sessions Session.session_key Session.user_sessions_key
    Session.tokens_of Json.strings_of Json.of_strings Json.read_prop Json.get_prop
    session_middleware enter_admin require_admin Admin.suspend Admin.soft_delete Admin.run
    Admin.audit Admin.end_sessions Admin.get_ip Accounts.select_user Accounts.update_user
    Accounts.delete_identities Accounts.insert_audit write_audit
console = tt

abbrev admin_vars : HonoVars
admin_vars = record {
  user_id = some "a1";
  user_role = some "admin";
  user_status = some "active";
  auth_methods = some ("pwd" ∷ "otp" ∷ []);
}

admin_enters :
    enter_admin {K = memory} 1100 (some "ta") "/admin" world ≡ (world, returned admin_vars)
unfolding console
admin_enters = refl

admin_seen : session_middleware {K = memory} 1100 (some "ta") world ≡ (world, returned admin_vars)
unfolding console
admin_seen = refl

member_is_stopped :
    (enter_admin {K = memory} 1100 (some "t1") "/admin" world).1 ≡ rejected forbidden
unfolding console
member_is_stopped = refl

enter_admin-IsSignedIn_example :
    (admission : IsSignedIn memory 1100 (some "ta") world admin_vars) × (admission.user.role
      ≡ "admin")
    × (any (λ method. method == "otp") admission.session.amr ≡ true)
enter_admin-IsSignedIn_example =
    enter_admin-IsSignedIn memory 1100 (some "ta") "/admin" world world admin_vars admin_enters

session_middleware-IsSignedIn_example : IsSignedIn memory 1100 (some "ta") world admin_vars
session_middleware-IsSignedIn_example =
    session_middleware-IsSignedIn memory 1100 (some "ta") world world admin_vars admin_seen refl

abbrev suspended : World memory
suspended = (suspend 1100 on_member world).0

suspension_runs : suspend 1100 on_member world ≡ (suspended, returned ok_response)
unfolding console
suspension_runs = refl

-- The administrator is still signed in after the suspension.
admin_stays : session_middleware 1200 (some "ta") suspended ≡ (suspended, returned admin_vars)
unfolding console
admin_stays = refl

suspend-bars_example : admin_vars.user_id ≢ some "u1"
suspend-bars_example =
    suspend-bars memory 1100 on_member world suspended ok_response suspension_runs 1200 (some "ta")
      suspended admin_vars admin_stays refl

abbrev deleted : World memory
deleted = (soft_delete 1100 on_member world).0

deletion_runs : soft_delete 1100 on_member world ≡ (deleted, returned ok_response)
unfolding console
deletion_runs = refl

admin_stays_on : session_middleware 1200 (some "ta") deleted ≡ (deleted, returned admin_vars)
unfolding console
admin_stays_on = refl

soft_delete-bars_example : admin_vars.user_id ≢ some "u1"
soft_delete-bars_example =
    soft_delete-bars memory 1100 on_member world deleted ok_response deletion_runs 1200 (some "ta")
      deleted admin_vars admin_stays_on refl

soft_delete-unlinks_example : All (λ (i : Identity). i.user_id ≢ "u1") deleted.db.identities
soft_delete-unlinks_example =
    soft_delete-unlinks memory 1100 on_member world deleted ok_response deletion_runs

perform-IsAudited_example :
    (detail : Option Json) × (suspended.db.audit_log
      ≡ action_row 1100 on_member (action_name suspension) detail ∷ world.db.audit_log)
perform-IsAudited_example =
    perform-IsAudited memory suspension 1100 on_member world suspended ok_response suspension_runs

administrator_is_other : ◌≢◌ {A = String} "a1" "u1"
administrator_is_other e = cc ((eq_iff "a1" "u1").1 e)

perform-isolated_example :
    select_user "a1" (perform {K = memory} deletion 1100 on_member world).0.db
    ≡ select_user "a1" world.db
perform-isolated_example =
    perform-isolated "a1" 1100 on_member administrator_is_other deletion world

abbrev logged_out : World memory
logged_out = (logout 1100 (some "t1") world).0

logout_runs : logout 1100 (some "t1") world ≡ (logged_out, returned goodbye)
unfolding console logout AuthRoutes.end_session Session.destroy_session Session.untrack
logout_runs = refl

nobody_is_seen : session_middleware 1200 (some "t1") logged_out ≡ (logged_out, returned no_vars)
unfolding console logout AuthRoutes.end_session Session.destroy_session Session.untrack
nobody_is_seen = refl

logout-ends_example : has_user no_vars ≢ true
logout-ends_example =
    logout-ends memory 1100 1200 "t1" world logged_out logged_out goodbye no_vars refl (omega arith)
      logout_runs nobody_is_seen
