-- ===== src/Pages.antt =====
-- What the HTML pages of workers/src/ui show: the arguments of the page functions, without the
-- markup around them. Ids of audit rows, which no page prints, and `email_verified`, which no code
-- writes, are left out.
use simtrader.Base.{ℕ, String, Bool, Option, List}
use simtrader.Json.{Json}

-- A row of the users' list.
pub record UserRow : Type 0 where
  pub id : String
  pub email : String
  pub role : String
  pub status : String
  pub created_at : ℕ
  pub last_login_at : Option ℕ
  pub has_token : Bool

pub record UsersPage : Type 0 where
  pub users : List UserRow
  pub page : ℕ
  pub total : ℕ
  pub limit : ℕ
  pub search : String
  pub role_filter : String
  pub status_filter : String

pub record DetailUser : Type 0 where
  pub id : String
  pub email : String
  pub role : String
  pub status : String
  pub created_at : ℕ
  pub last_login_at : Option ℕ

-- An audit row joined with the emails of its actor and its target.
pub record AuditEntry : Type 0 where
  pub action : String
  pub ts : ℕ
  pub detail : Option Json
  pub ip_address : Option String
  pub actor_email : Option String
  pub target_email : Option String

pub record UserDetailPage : Type 0 where
  pub user : DetailUser
  pub audit_trail : List AuditEntry
  -- When the token expires, if there is one.
  pub token : Option ℕ

pub record AuditLogPage : Type 0 where
  pub entries : List AuditEntry
  pub page : ℕ
  pub total : ℕ
  pub limit : ℕ
  pub action_filter : String
  pub from : String
  pub to : String

pub record Stats : Type 0 where
  pub total_users : ℕ
  pub active_users : ℕ
  pub suspended_users : ℕ
  pub active_today : ℕ
  pub active_tokens : ℕ
  pub expirings_soon : ℕ

pub record AdminDashboard : Type 0 where
  pub stats : Stats
  pub recent_audit : List AuditEntry

pub record Dashboard : Type 0 where
  pub email : String
  pub active : Bool
  pub expires_at : Option ℕ

pub data Page : Type 0 where
  users_page : UsersPage → Page
  user_detail_page : UserDetailPage → Page
  audit_log_page : AuditLogPage → Page
  admin_dashboard_page : AdminDashboard → Page
  dashboard_page : Dashboard → Page
