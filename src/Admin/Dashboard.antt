-- ===== src/Admin/Dashboard.antt =====
-- The dashboard of the administration: workers/src/routes/admin/index.ts.
use simtrader.Base.{
  ℕ, ◌+◌, ltb, leb, String, ◌==◌, Bool, true, false, not, ◌&&◌, Option, none, some, List, [], ◌∷◌,
  filter, length, find, take, or_else,
}
use mathlib.Core.Option
use simtrader.Pages
use simtrader.Pages.{AuditEntry, Stats}
use simtrader.Http.{Handler, Response, ◌>>=◌, give, page_response}
use simtrader.Kv.{KvNamespace}
use simtrader.World.{World, sql}
use simtrader.Database.{User, SaxoToken, Db}
use simtrader.AuditLog.{select_entries}

-- A row of numbers, by the names that the client library gives to the columns: `a_b` is `aB`.
abbrev pub Counts : Type 0
Counts = List (String × ℕ)

-- `row?.name ?? 0`
abbrev pub count_named : String → Counts → ℕ
count_named name row =
    or_else (Option.map (λ (c : String × ℕ). c.1) (find (λ c. c.0 == name) row)) 0

abbrev pub is_kept : User → Bool
is_kept u = not (u.status == "deleted")

-- `last_login_at > NOW() - INTERVAL '7 days'`
abbrev pub is_recent : ℕ → Option ℕ → Bool
is_recent now none = false
is_recent now (some at) = ltb now (at + 604800)

abbrev pub count_where : (User → Bool) → Db → ℕ
count_where test db = length (filter (λ u. is_kept u && test u) db.users)

-- The counts of the users, with the columns' names in camel case.
unfoldable pub user_counts : ℕ → Db → Counts
user_counts now db =
    ("total", count_where (λ u. true) db)
    ∷ ("active", count_where (λ u. u.status == "active") db)
    ∷ ("suspended", count_where (λ u. u.status == "suspended") db)
    ∷ ("activeToday", count_where (λ u. is_recent now u.last_login_at) db)
    ∷ []

-- `expires_at BETWEEN NOW() AND NOW() + INTERVAL '1 hour'`
abbrev pub is_expiring : ℕ → SaxoToken → Bool
is_expiring now t = leb now t.expires_at && leb t.expires_at (now + 3600)

abbrev pub count_tokens : (SaxoToken → Bool) → Db → ℕ
count_tokens test db = length (filter test db.saxo_tokens)

-- The counts of the tokens; `expiring_soon` becomes `expiringSoon`.
unfoldable pub token_counts : ℕ → Db → Counts
token_counts now db =
    ("activeTokens", count_tokens (λ t. ltb now t.expires_at) db)
    ∷ ("expiringSoon", count_tokens (is_expiring now) db)
    ∷ []

-- The six numbers that the page shows, under the names by which the code reads them.
abbrev pub stats_of : Counts → Counts → Stats
stats_of users tokens = record {
  total_users = count_named "total" users;
  active_users = count_named "active" users;
  suspended_users = count_named "suspended" users;
  active_today = count_named "activeToday" users;
  active_tokens = count_named "activeTokens" tokens;
  expirings_soon = count_named "expiringsSoon" tokens;
}

unfoldable pub recent_audit : Db → List AuditEntry
recent_audit db = take 20 (select_entries (λ row. true) db)

module _ {K : KvNamespace} where
  -- GET /admin
  unfoldable pub admin_dashboard : ℕ → Handler (World K) Response
  admin_dashboard now = do
    users ← sql (λ db. (db, user_counts now db))
    tokens ← sql (λ db. (db, token_counts now db))
    recent ← sql (λ db. (db, recent_audit db))
    give (
        page_response (
          Pages.admin_dashboard_page
            (record { stats = stats_of users tokens; recent_audit = recent })))
