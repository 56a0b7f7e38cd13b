-- ===== src/SignIn/Accounts.antt =====
-- The mapping of a member, named by issuer and subject, to a user: the database part of the callback
-- in workers/src/routes/budgetapp-auth.ts.
pub mod Linking
pub mod Standing
use simtrader.Base.{ℕ, String, ◌==◌, Option, none, some, ◌∷◌, or_else, if◌then◌else◌}
use simtrader.Json.{Json, str, obj, field, end}
use simtrader.Http.{Handler, Response, ◌>>=◌, ◌>>◌, give, answer}
use simtrader.Kv.{KvNamespace}
use simtrader.World.{World, sql}
use simtrader.Database.{User, Identity, Db, update_where}
use simtrader.Database.Accounts.{select_user, update_user, is_identity}
use simtrader.Audit.{write_audit}
use simtrader.Jwt.{IdTokenClaims}
use simtrader.Events.Route.{find_user_id}
use simtrader.SignIn.{error_page}

pub record Account : Type 0 where
  pub user_id : String
  pub role : String
  pub status : String

abbrev pub sub_text : IdTokenClaims → String
sub_text claims = or_else claims.sub ""

abbrev pub seen_now : ℕ → IdTokenClaims → Identity → Identity
seen_now now claims e = record e { last_seen_at = now; email = claims.email; name = claims.name }

-- `UPDATE external_identities SET … WHERE iss = … AND sub = …`
unfoldable pub update_identity : ℕ → IdTokenClaims → Db → Db
update_identity now claims db = record db {
  identities =
      update_where (is_identity claims.iss (sub_text claims)) (seen_now now claims) db.identities;
}

abbrev pub logged_in : ℕ → IdTokenClaims → User → User
logged_in now claims u = record u {
  email = or_else claims.email "";
  last_login_at = some now;
  updated_at = now;
}

-- `INSERT INTO users … RETURNING id`, with the generated id as an argument.
unfoldable pub insert_user : ℕ → String → IdTokenClaims → Db → Db
insert_user now id claims db = record db {
  users =
      record {
        id = id;
        email = or_else claims.email "";
        role = "user";
        status = "active";
        created_at = now;
        last_login_at = some now;
        updated_at = now;
      }
      ∷ db.users;
}

-- `INSERT INTO external_identities …`
unfoldable pub insert_identity : ℕ → String → IdTokenClaims → Db → Db
insert_identity now user_id claims db = record db {
  identities =
      record {
        user_id = user_id;
        provider = "budgetapp";
        iss = claims.iss;
        sub = sub_text claims;
        email = claims.email;
        name = claims.name;
        last_seen_at = now;
      }
      ∷ db.identities;
}

abbrev pub provider_detail : Json
provider_detail = obj (field "provider" (str "budgetapp") end)

module _ {K : KvNamespace} (now : ℕ) (new_id : String) (claims : IdTokenClaims) where
  unfoldable pub change_db : (Db → Db) → Handler (World K) (Unit {0})
  change_db change = sql (λ db. (change db, tt))

  abbrev pub row_or_missing : Option User → Handler (World K) User
  row_or_missing none = answer (error_page 500 "Your simtrader account is missing.")
  row_or_missing (some user) = give user

  -- A member who was here before.
  unfoldable pub refresh_account : String → Handler (World K) Account
  refresh_account user_id = do
    row ← sql (λ db. (db, select_user user_id db))
    user ← row_or_missing row
    change_db (update_identity now claims)
    change_db (update_user user_id (logged_in now claims))
    give (record { user_id = user_id; role = user.role; status = user.status })

  -- A member who is new.
  unfoldable pub provision_account : Handler (World K) Account
  provision_account = do
    change_db (insert_user now new_id claims)
    change_db (insert_identity now new_id claims)
    write_audit now (record {
      actor_id = some new_id;
      target_user_id = none;
      action = "user.provisioned";
      detail = some provider_detail;
      ip_address = none;
    })
    give (record { user_id = new_id; role = "user"; status = "active" })

  abbrev pub account_of : Option String → Handler (World K) Account
  account_of none = provision_account
  account_of (some user_id) = refresh_account user_id

  unfoldable pub find_or_provision : Handler (World K) Account
  find_or_provision = find_user_id claims.iss claims.sub >>= account_of
