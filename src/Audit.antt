-- ===== src/Audit.antt =====
-- `writeAudit` of workers/src/lib/audit.ts.
use simtrader.Base.{ℕ, String, Option}
use simtrader.Json.{Json}
use simtrader.Http.{Handler}
use simtrader.Database.{AuditRow}
use simtrader.Database.Accounts.{insert_audit}
use simtrader.Kv.{KvNamespace}
use simtrader.World.{World, sql}

pub record AuditParams : Type 0 where
  pub actor_id : Option String
  pub target_user_id : Option String
  pub action : String
  pub detail : Option Json
  pub ip_address : Option String

-- The row that the statement inserts; `ts` is the table's default.
abbrev pub audit_row : ℕ → AuditParams → AuditRow
audit_row now p = record {
  actor_id = p.actor_id;
  target_user_id = p.target_user_id;
  action = p.action;
  detail = p.detail;
  ip_address = p.ip_address;
  ts = now;
}

unfoldable pub write_audit : {K : KvNamespace} → ℕ → AuditParams → Handler (World K) (Unit {0})
write_audit now p = sql (λ db. (insert_audit (audit_row now p) db, tt))
