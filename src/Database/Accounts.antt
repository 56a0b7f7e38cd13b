-- ===== src/Database/Accounts.antt =====
-- The SQL statements about users, identities, Saxo tokens and the audit log. A deletion of a user
-- follows the foreign keys of alembic/versions: identities, tokens and signal actions go with the
-- user, audit rows stay and lose the reference.
use simtrader.Base.{
  ℕ, String, ◌==◌, Bool, false, ◌&&◌, ◌||◌, Option, none, some, ◌∷◌, find, if◌then◌else◌,
}
use simtrader.Database.{User, Identity, AuditRow, Db, update_where, delete_where}

-- `column = value`, false where the column is NULL.
abbrev pub refers_to : Option String → String → Bool
refers_to none user_id = false
refers_to (some id) user_id = id == user_id

unfoldable pub select_user : String → Db → Option User
select_user user_id db = find (λ u. u.id == user_id) db.users

abbrev pub is_identity : String → String → Identity → Bool
is_identity iss sub e = e.iss == iss && e.sub == sub

unfoldable pub select_identity : String → String → Db → Option Identity
select_identity iss sub db = find (is_identity iss sub) db.identities

abbrev pub names_user : String → AuditRow → Bool
names_user user_id row = refers_to row.actor_id user_id || refers_to row.target_user_id user_id

-- `UPDATE audit_log SET ip_address = NULL WHERE actor_id = … OR target_user_id = …`
unfoldable pub clear_ip_addresses : String → Db → Db
clear_ip_addresses user_id db = record db {
  audit_log =
      update_where (names_user user_id) (λ row. record row { ip_address = none }) db.audit_log;
}

abbrev pub unset : String → Option String → Option String
unset user_id reference = if refers_to reference user_id then none else reference

-- ON DELETE SET NULL
abbrev pub unlink : String → AuditRow → AuditRow
unlink user_id row = record row {
  actor_id = unset user_id row.actor_id;
  target_user_id = unset user_id row.target_user_id;
}

-- `DELETE FROM users WHERE id = …`
unfoldable pub delete_user : String → Db → Db
delete_user user_id db = record db {
  users = delete_where (λ u. u.id == user_id) db.users;
  identities = delete_where (λ e. e.user_id == user_id) db.identities;
  saxo_tokens = delete_where (λ t. t.user_id == user_id) db.saxo_tokens;
  signal_actions = delete_where (λ a. a.user_id == user_id) db.signal_actions;
  audit_log = update_where (names_user user_id) (unlink user_id) db.audit_log;
}

-- `INSERT INTO audit_log …`
unfoldable pub insert_audit : AuditRow → Db → Db
insert_audit row db = record db { audit_log = row ∷ db.audit_log }

-- `UPDATE users SET … WHERE id = …`
unfoldable pub update_user : String → (User → User) → Db → Db
update_user user_id change db = record db {
  users = update_where (λ u. u.id == user_id) change db.users;
}

-- `DELETE FROM external_identities WHERE user_id = …`
unfoldable pub delete_identities : String → Db → Db
delete_identities user_id db = record db {
  identities = delete_where (λ e. e.user_id == user_id) db.identities;
}

-- `UPDATE saxo_tokens SET expires_at = NOW() WHERE user_id = …`
unfoldable pub expire_saxo_tokens : String → ℕ → Db → Db
expire_saxo_tokens user_id now db = record db {
  saxo_tokens =
      update_where (λ t. t.user_id == user_id) (λ t. record t { expires_at = now }) db.saxo_tokens;
}
