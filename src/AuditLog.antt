-- ===== src/AuditLog.antt =====
-- The audit log: workers/src/routes/admin/audit-log.ts. Today's date, which names the export's file,
-- is an argument.
pub mod Csv
pub mod RoundTrip
pub mod Export
use mathlib.Core.Option
use Prim.Native.String
use simtrader.Base.{
  ℕ, ◌≤◌, leb, String, ◌==◌, Bool, true, ◌&&◌, ◌||◌, Option, none, some, List, [], ◌∷◌, map, filter,
  length, take, or_else, truthy_text, Exec, returned, thrown, if◌then◌else◌,
}
use simtrader.Json.{Json}
use simtrader.Pages
use simtrader.Pages.{AuditEntry, AuditLogPage}
use simtrader.Http.{Handler, Response, csv, unchanged, ◌>>=◌, ◌>>◌, give, lift, page_response}
use simtrader.Kv.{KvNamespace}
use simtrader.World.{World, sql}
use simtrader.Database.{User, AuditRow, Db}
use simtrader.Database.Accounts.{select_user}
use simtrader.Database.Queries.{Postgres, matches, newest_first, page_number, page_of}
use simtrader.AuditLog.Csv.{csv_lines}

-- `LEFT JOIN users u ON u.id = …`
abbrev pub email_of : Db → Option String → Option String
email_of db none = none
email_of db (some id) = Option.map (λ (u : User). u.email) (select_user id db)

abbrev pub join_emails : Db → AuditRow → AuditEntry
join_emails db row = record {
  action = row.action;
  ts = row.ts;
  detail = row.detail;
  ip_address = row.ip_address;
  actor_email = email_of db row.actor_id;
  target_email = email_of db row.target_user_id;
}

abbrev pub entry_time : AuditEntry → ℕ
entry_time e = e.ts

-- The joined rows that pass a test, `ORDER BY al.ts DESC`.
unfoldable pub select_entries : (AuditRow → Bool) → Db → List AuditEntry
select_entries test db = newest_first entry_time (map (join_emails db) (filter test db.audit_log))

-- `${bound}::timestamptz`, where the bound is given.
abbrev pub bound_or_throw : Postgres → String → Exec Response (Option ℕ)
bound_or_throw pg bound =
    if truthy_text bound
    then elim (pg.parse_time bound) [ none ↦ thrown | some at ↦ returned (some at) ]
    else returned none

abbrev pub is_after : Option ℕ → AuditRow → Bool
is_after none row = true
is_after (some from) row = leb from row.ts

abbrev pub is_before : Option ℕ → AuditRow → Bool
is_before none row = true
is_before (some to) row = leb row.ts to

abbrev pub has_action : Postgres → String → AuditRow → Bool
has_action pg part row = if truthy_text part then pg.contains row.action part else true

-- `const limit = 50`
abbrev pub audit_page_size : ℕ
audit_page_size = 50

-- The query string.
pub record AuditQuery : Type 0 where
  pub page : Option String
  pub action : Option String
  pub from : Option String
  pub to : Option String

-- The WHERE clause of the list.
abbrev pub is_listed : Postgres → String → Option ℕ → Option ℕ → AuditRow → Bool
is_listed pg action from to row = has_action pg action row && is_after from row && is_before to row

-- `SELECT COUNT(*)`
abbrev pub count_rows : (AuditRow → Bool) → Db → ℕ
count_rows test db = length (filter test db.audit_log)

unfoldable pub select_page : (AuditRow → Bool) → ℕ → Db → List AuditEntry
unfolding select_entries
select_page test page db = page_of audit_page_size page (select_entries test db)

-- The values of a row of the export.
abbrev pub audit_fields : Postgres → AuditEntry → List String
audit_fields pg e =
    pg.date_text e.ts
    ∷ or_else e.actor_email ""
    ∷ or_else e.target_email ""
    ∷ e.action
    ∷ or_else e.ip_address ""
    ∷ or_else (Option.map pg.json_text e.detail) ""
    ∷ []

abbrev pub csv_header : String
csv_header = "timestamp,actor,target,action,ip,detail\n"

unfoldable pub csv_text : Postgres → List AuditEntry → String
unfolding csv_lines
csv_text pg entries = String.◌++◌ csv_header (csv_lines (map (audit_fields pg) entries))

-- `ORDER BY al.ts DESC LIMIT 10000`
unfoldable pub select_export : Option ℕ → Option ℕ → Db → List AuditEntry
unfolding select_entries
select_export from to db =
    take 10000 (select_entries (λ row. is_after from row && is_before to row) db)

module _ {K : KvNamespace} where
  -- GET /admin/audit
  unfoldable pub audit_list : Postgres → AuditQuery → Handler (World K) Response
  audit_list pg q = do
    let action = or_else q.action ""
    let from = or_else q.from ""
    let to = or_else q.to ""
    page ← lift (page_number q.page)
    after ← lift (bound_or_throw pg from)
    before ← lift (bound_or_throw pg to)
    let test = is_listed pg action after before
    entries ← sql (λ db. (db, select_page test page db))
    total ← sql (λ db. (db, count_rows test db))
    give (
        page_response (
          Pages.audit_log_page (record {
            entries = entries;
            page = page;
            total = total;
            limit = audit_page_size;
            action_filter = action;
            from = from;
            to = to;
          })))

  -- GET /admin/audit/export
  unfoldable pub audit_export : Postgres → String → AuditQuery → Handler (World K) Response
  audit_export pg today q = do
    after ← lift (bound_or_throw pg (or_else q.from ""))
    before ← lift (bound_or_throw pg (or_else q.to ""))
    entries ← sql (λ db. (db, select_export after before db))
    give (record {
      status = 200;
      body = csv (String.◌++◌ "audit-" (String.◌++◌ today ".csv")) (csv_text pg entries);
      cookie = unchanged;
    })
