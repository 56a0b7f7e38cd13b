-- ===== src/Tests/SiteTests.antt =====
-- The pages, the export and the guard of /admin at concrete inputs.
use Prim.Native.String
use native.Mathlib.Decide
use simtrader.Base
use simtrader.Base.{
  ℕ, String, Bool, true, false, Option, none, some, List, [], ◌∷◌, map, any, ◌==◌, or_else,
  returned, rejected, Exec, ◌≡◌, ◌⊎◌, refl, parse_int, show_number, pos, arith,
}
use simtrader.Json.{obj, end}
use simtrader.Http.{Response, csv, unchanged}
use simtrader.World.{World}
use simtrader.World.ReadOnly.{stored}
use simtrader.Database.{User, SaxoToken}
use simtrader.Database.Accounts
use simtrader.Access.{session_middleware}
use simtrader.Access.Fresh.{with_session, session_middleware-create_session}
use simtrader.Admin.{ok_response}
use simtrader.Admin.Listing.{UserFilters}
use simtrader.Admin.Dashboard
use simtrader.AuditLog
use simtrader.AuditLog.{AuditQuery, audit_export}
use simtrader.AuditLog.Csv
use simtrader.AuditLog.Csv.{read_csv}
use simtrader.AuditLog.Export.{IsBound, IsBetween, entry_of, columns, audit_export-reads}
use simtrader.Database.Queries.Newest.{IsNewest}
use simtrader.Pages.{AuditEntry}
use simtrader.Site
use simtrader.Site.{SitePlatform, AdminCall, is_login, serve_admin}
use simtrader.Site.Guard.{IsTurnedAway, IsAdmitted, serve_admin-IsGuarded}
use simtrader.Ui
use simtrader.Ui.{paginate}
use simtrader.Tests.{memory, postgres}
use simtrader.Tests.AdminTests
use simtrader.Tests.AdminTests.{world, admin_session, console}

abbrev audited : World memory
audited = record world {
  db = record world.db {
    audit_log =
        record {
          actor_id = some "a1";
          target_user_id = none;
          action = "say \"hi\", all";
          detail = none;
          ip_address = none;
          ts = 7;
        }
        ∷ [];
  };
}

abbrev no_bounds : AuditQuery
no_bounds = record { page = none; action = none; from = none; to = none }

desk : Unit {0}
unfolding audit_export AuditLog.select_export AuditLog.select_entries AuditLog.csv_text
    Csv.csv_lines Csv.csv_line Csv.quote Csv.double_quotes Base.join
desk = tt

abbrev export_text : String
export_text =
    "timestamp,actor,target,action,ip,detail\n\"Thu Jan 01 2026\",\"a@b\",\"\",\"say \"\"hi\"\", all\",\"\",\"\""

abbrev exported : Response
exported = record {
  status = 200;
  body = csv "audit-2026-01-01.csv" export_text;
  cookie = unchanged;
}

export_runs : audit_export postgres "2026-01-01" no_bounds audited ≡ (audited, returned exported)
unfolding desk Accounts.select_user
export_runs = refl

audit_export-reads_example :
    (from to : Option ℕ) × IsBound postgres (or_else no_bounds.from "") from
    × IsBound postgres (or_else no_bounds.to "") to
    × ((entries : List AuditEntry) × (lines : String) × (exported.body
          ≡ csv "audit-2026-01-01.csv"
              (String.◌++◌ "timestamp,actor,target,action,ip,detail\n" lines))
        × (read_csv lines ≡ some (map (columns postgres) entries))
        × IsNewest
            (λ e. e.ts)
            (IsBetween from to)
            10000
            (map (entry_of audited.db) audited.db.audit_log)
            entries
        × (audited.db ≡ audited.db))
audit_export-reads_example =
    audit_export-reads memory postgres "2026-01-01" no_bounds audited audited exported export_runs

abbrev no_filters : UserFilters
no_filters = record { search = ""; role = ""; status = "" }

abbrev admin_row : User
admin_row = AdminTests.user_row "a1" "admin"

admin_is_found : Accounts.select_user "a1" world.db ≡ some admin_row
unfolding console
admin_is_found = refl

session_middleware-create_session_example :
    (session_middleware 2000 (some "tb") (with_session memory world 1500 "tb" admin_session)).1
    ≡ returned (record {
      user_id = some "a1";
      user_role = some "admin";
      user_status = some "active";
      auth_methods = some admin_session.amr;
    })
session_middleware-create_session_example =
    session_middleware-create_session memory world 1500 2000 "tb" admin_session admin_row refl refl
      (refl, refl) (omega arith) admin_is_found refl

abbrev platform : SitePlatform
platform = record { pg = postgres; now = 1100; today = "2026-01-01"; environment = "test" }

abbrev suspension_call : AdminCall
suspension_call = record {
  is_get = false;
  path = "users" ∷ "u1" ∷ "suspend" ∷ [];
  cookie = some "ta";
  connecting_ip = some "1.2.3.4";
  body = returned (obj end);
  filters = no_filters;
  audit_query = no_bounds;
}

abbrev served : World memory
served = (serve_admin platform suspension_call world).0

call_runs : serve_admin platform suspension_call world ≡ (served, returned ok_response)
unfolding console serve_admin Site.serve_end Site.admin_route Base.join
call_runs = refl

serve_admin-IsGuarded_example :
    ((stored served ≡ stored world)
      × ((is_login suspension_call ≡ true)
          ⊎ IsTurnedAway platform suspension_call world served (returned ok_response)))
    ⊎ (IsAdmitted {K = memory} platform suspension_call world
        × ((stored served ≡ stored world) ⊎ (suspension_call.is_get ≡ false)))
serve_admin-IsGuarded_example =
    serve_admin-IsGuarded platform suspension_call world served (returned ok_response) call_runs

-- The second page of three, without filters.
links_of_three :
    paginate 2 41 20 "/admin/users"
    ≡ "<div class=\"pagination\"><a href=\"/admin/users?page=1\">1</a><span class=\"current\">2</span><a href=\"/admin/users?page=3\">3</a></div>"
unfolding paginate Ui.page_link Ui.template show_number Base.put_digits Base.join Decide.dec_lt
links_of_three = refl

-- A token that expires within the hour is not counted: the column is read under another name.
expiring_is_not_shown :
    (tokens : List SaxoToken)
    → (Dashboard.stats_of
        (Dashboard.user_counts 1100 world.db)
        (Dashboard.token_counts 1100 (record world.db { saxo_tokens = tokens }))).expirings_soon
      ≡ 0
unfolding Dashboard.token_counts
expiring_is_not_shown tokens = refl
