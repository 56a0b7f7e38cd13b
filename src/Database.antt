-- ===== src/Database.antt =====
-- The Postgres tables that the Worker reads and writes, with the columns that its SQL names
-- (alembic/versions), and the shapes of its statements. Times are in seconds.
pub mod Accounts
pub mod Erasure
pub mod Client
pub mod Queries
use simtrader.Base.{
  ℕ, ℤ, String, Bool, true, false, not, Option, none, some, List, [], ◌∷◌, ◌++◌, filter,
  if◌then◌else◌,
}
use simtrader.Json.{Json}

pub record User : Type 0 where
  pub id : String
  pub email : String
  pub role : String
  pub status : String
  pub created_at : ℕ
  pub last_login_at : Option ℕ
  pub updated_at : ℕ

-- `external_identities`
pub record Identity : Type 0 where
  pub user_id : String
  pub provider : String
  pub iss : String
  pub sub : String
  pub email : Option String
  pub name : Option String
  pub last_seen_at : ℕ

pub record SaxoToken : Type 0 where
  pub user_id : String
  pub expires_at : ℕ

pub record SignalActionRow : Type 0 where
  pub id : String
  pub signal_id : String
  pub user_id : String
  pub action : String
  pub detail : Option Json
  pub created_at : ℕ

pub record AuditRow : Type 0 where
  pub actor_id : Option String
  pub target_user_id : Option String
  pub action : String
  pub detail : Option Json
  pub ip_address : Option String
  pub ts : ℕ

pub record EngineKey : Type 0 where
  pub id : String
  pub name : String
  pub key_hash : String
  pub key_prefix : String
  pub scopes : List String
  pub last_used_at : Option ℕ
  pub expires_at : Option ℕ
  pub revoked_at : Option ℕ
  pub created_at : ℕ

pub record Signal : Type 0 where
  pub id : String
  pub instrument_key : String
  pub symbol : String
  pub mic : String
  pub score : ℤ
  pub horizon : String
  pub source : String
  pub payload : Option Json
  pub api_key_id : Option String
  pub bridge_sub : Option String
  pub expires_at : Option String
  pub created_at : ℕ

pub record Evaluation : Type 0 where
  pub id : String
  pub signal_id : Option String
  pub instrument_key : String
  pub verdict : String
  pub confidence : ℤ
  pub rationale : Option String
  pub model : Option String
  pub api_key_id : Option String
  pub bridge_sub : Option String
  pub created_at : ℕ

pub record Instrument : Type 0 where
  pub id : String
  pub symbol : String
  pub mic : String
  pub name : Option String
  pub asset_class : String
  pub currency : String
  pub tracked : Bool
  pub created_at : ℕ
  pub updated_at : ℕ

pub record Db : Type 0 where
  pub users : List User
  pub identities : List Identity
  pub saxo_tokens : List SaxoToken
  pub signal_actions : List SignalActionRow
  pub audit_log : List AuditRow
  pub engine_api_keys : List EngineKey
  pub signals : List Signal
  pub evaluations : List Evaluation
  pub instruments : List Instrument

module _ {ℓ} {A : Type ℓ} where
  -- `UPDATE … SET change WHERE test`
  abbrev pub update_where : (A → Bool) → (A → A) → List A → List A
  update_where test change [] = []
  update_where test change (x ∷ xs) = (if test x then change x else x) ∷ update_where test change xs

  -- `DELETE … WHERE test`
  abbrev pub delete_where : (A → Bool) → List A → List A
  delete_where test rows = filter (λ x. not (test x)) rows
