-- ===== src/Ui/Dashboards.antt =====
-- The two dashboards: workers/src/ui/admin/dashboard.ts and workers/src/ui/dashboard.ts.
use simtrader.Base.{ℕ, ltb, String, some, [], ◌∷◌, map, join, or_else, show_number, if◌then◌else◌}
use simtrader.Pages.{AuditEntry, Stats, AdminDashboard, Dashboard}
use simtrader.Ui.{template, format_date}
use simtrader.Ui.Assets.{css}
use simtrader.Ui.Layout.{admin_layout}
use simtrader.Ui.Users.{rows_or}
use simtrader.Ui.Detail.{Printer}
use simtrader.Ui.AuditLog.{mail_or}

-- `n > 0 ? 'kpi-warn' : ''`
abbrev pub warn_if : ℕ → String
warn_if n = if ltb 0 n then "kpi-warn" else ""

-- The numbers.
unfoldable pub kpis : Stats → String
unfolding template show_number
kpis s = template (
    "\n"
    ∷ "    <div class=\"kpi-grid\">\n"
    ∷ "      <div class=\"kpi\">\n"
    ∷ "        <div class=\"kpi-label\">Total users</div>\n"
    ∷ "        <div class=\"kpi-value\">"
    ∷ show_number s.total_users
    ∷ "</div>\n"
    ∷ "      </div>\n"
    ∷ "      <div class=\"kpi\">\n"
    ∷ "        <div class=\"kpi-label\">Active (7d)</div>\n"
    ∷ "        <div class=\"kpi-value\">"
    ∷ show_number s.active_today
    ∷ "</div>\n"
    ∷ "      </div>\n"
    ∷ "      <div class=\"kpi "
    ∷ warn_if s.suspended_users
    ∷ "\">\n"
    ∷ "        <div class=\"kpi-label\">Suspended</div>\n"
    ∷ "        <div class=\"kpi-value\">"
    ∷ show_number s.suspended_users
    ∷ "</div>\n"
    ∷ "      </div>\n"
    ∷ "      <div class=\"kpi\">\n"
    ∷ "        <div class=\"kpi-label\">Active Saxo tokens</div>\n"
    ∷ "        <div class=\"kpi-value\">"
    ∷ show_number s.active_tokens
    ∷ "</div>\n"
    ∷ "      </div>\n"
    ∷ "      <div class=\"kpi "
    ∷ warn_if s.expirings_soon
    ∷ "\">\n"
    ∷ "        <div class=\"kpi-label\">Expiring &lt;1h</div>\n"
    ∷ "        <div class=\"kpi-value\">"
    ∷ show_number s.expirings_soon
    ∷ "</div>\n"
    ∷ "        <div class=\"kpi-sub\">tokens expiring soon</div>\n"
    ∷ "      </div>\n"
    ∷ "    </div>\n"
    ∷ "  "
    ∷ [])

unfoldable pub recent_row_html : Printer → AuditEntry → String
unfolding template format_date
recent_row_html pr e = template (
    "\n"
    ∷ "    <tr>\n"
    ∷ "      <td style=\"color:var(--muted);font-size:12px\">"
    ∷ format_date pr.locale (some e.ts)
    ∷ "</td>\n"
    ∷ "      <td>"
    ∷ mail_or "<span style=\"color:var(--muted)\">system</span>" e.actor_email
    ∷ "</td>\n"
    ∷ "      <td><code style=\"font-size:12px;background:#f1f5f9;padding:.1rem .4rem;border-radius:4px\">"
    ∷ e.action
    ∷ "</code></td>\n"
    ∷ "      <td>"
    ∷ mail_or "—" e.target_email
    ∷ "</td>\n"
    ∷ "    </tr>\n"
    ∷ "  "
    ∷ [])

unfoldable pub admin_dashboard_content : Printer → AdminDashboard → String
unfolding template kpis recent_row_html join
admin_dashboard_content pr p = template (
    "\n"
    ∷ "    <div class=\"page-header\">\n"
    ∷ "      <h1 class=\"page-title\">Dashboard</h1>\n"
    ∷ "    </div>\n"
    ∷ "    "
    ∷ kpis p.stats
    ∷ "\n"
    ∷ "    <div class=\"card\">\n"
    ∷ "      <div style=\"display:flex;align-items:center;justify-content:space-between;margin-bottom:1rem\">\n"
    ∷ "        <strong>Recent activity</strong>\n"
    ∷ "        <a href=\"/admin/audit\" style=\"font-size:13px\">View all →</a>\n"
    ∷ "      </div>\n"
    ∷ "      <table>\n"
    ∷ "        <thead><tr><th>Time</th><th>Actor</th><th>Action</th><th>Target</th></tr></thead>\n"
    ∷ "        <tbody>"
    ∷ rows_or
        "<tr><td colspan=\"4\" style=\"text-align:center;color:var(--muted)\">No activity yet</td></tr>"
        (join "" (map (recent_row_html pr) p.recent_audit))
    ∷ "</tbody>\n"
    ∷ "      </table>\n"
    ∷ "    </div>\n"
    ∷ "  "
    ∷ [])

-- `adminDashboardPage`, with the empty email that the route passes.
unfoldable pub admin_dashboard_html : Printer → AdminDashboard → String
unfolding admin_dashboard_content admin_layout
admin_dashboard_html pr p = admin_layout "Dashboard" "/admin" "" (admin_dashboard_content pr p)

unfoldable pub user_layout : String → String → String
unfolding template css
user_layout email content = template (
    "<!DOCTYPE html>\n" ∷ "<html lang=\"en\">\n" ∷ "<head>\n" ∷ "  <meta charset=\"UTF-8\">\n"
    ∷ "  <meta name=\"viewport\" content=\"width=device-width, initial-scale=1\">\n"
    ∷ "  <title>Dashboard — SimTrader</title>\n" ∷ "  <style>\n" ∷ "    " ∷ css ∷ "\n"
    ∷ "    .topnav { background: var(--card); border-bottom: 1px solid var(--border);\n"
    ∷ "              padding: 0 2rem; height: 56px; display: flex; align-items: center;\n"
    ∷ "              justify-content: space-between; position: sticky; top: 0; z-index: 10; }\n"
    ∷ "    .topnav-brand { font-weight: 800; font-size: 1.1rem; color: var(--primary); }\n"
    ∷ "    .topnav-right { display: flex; align-items: center; gap: 1rem; font-size: 13px; color: var(--muted); }\n"
    ∷ "    .main { max-width: 1100px; margin: 0 auto; padding: 2rem; }\n"
    ∷ "    .grid-2 { display: grid; grid-template-columns: repeat(auto-fit, minmax(260px, 1fr)); gap: 1rem; margin-bottom: 1.5rem; }\n"
    ∷ "    .empty-state { text-align: center; padding: 3rem 1rem; color: var(--muted); }\n"
    ∷ "    .empty-state .icon { font-size: 2.5rem; margin-bottom: .75rem; }\n"
    ∷ "    .token-active { display: flex; align-items: center; gap: .5rem; color: var(--success); font-weight: 600; }\n"
    ∷ "    .token-expired { color: var(--danger); font-weight: 600; }\n" ∷ "  </style>\n"
    ∷ "</head>\n" ∷ "<body>\n" ∷ "  <nav class=\"topnav\">\n"
    ∷ "    <span class=\"topnav-brand\">📈 SimTrader</span>\n" ∷ "    <div class=\"topnav-right\">\n"
    ∷ "      <span>" ∷ email ∷ "</span>\n"
    ∷ "      <form method=\"POST\" action=\"/auth/logout\" style=\"display:inline\">\n"
    ∷ "        <button type=\"submit\" class=\"btn btn-ghost btn-sm\">Log out</button>\n"
    ∷ "      </form>\n" ∷ "    </div>\n" ∷ "  </nav>\n" ∷ "  <main class=\"main\">" ∷ content
    ∷ "</main>\n" ∷ "</body>\n" ∷ "</html>" ∷ [])

unfoldable pub active_card : Printer → ℕ → String
unfolding template
active_card pr expires_at = template (
    "<p class=\"token-active\">✓ Active</p>\n"
    ∷ "       <p style=\"color:var(--muted);font-size:12px;margin-top:.25rem\">Expires "
    ∷ pr.locale_default expires_at
    ∷ "</p>\n"
    ∷ "       <div style=\"margin-top:1rem;display:flex;gap:.5rem\">\n"
    ∷ "         <a href=\"/saxo/token\" class=\"btn btn-ghost btn-sm\">Update token</a>\n"
    ∷ "       </div>"
    ∷ [])

unfoldable pub inactive_card : String
unfolding template
inactive_card = template (
    "<p class=\"token-expired\">No active token</p>\n"
    ∷ "       <p style=\"color:var(--muted);font-size:12px;margin-top:.25rem\">Submit your Saxo 24h dev token to connect your account.</p>\n"
    ∷ "       <div style=\"margin-top:1rem\">\n"
    ∷ "         <a href=\"/saxo/token\" class=\"btn btn-primary btn-sm\">Connect Saxo</a>\n"
    ∷ "       </div>" ∷ [])

-- `tokenCard`; a page with an active token has its time.
unfoldable pub token_card : Printer → Dashboard → String
unfolding active_card inactive_card
token_card pr p = if p.active then active_card pr (or_else p.expires_at 0) else inactive_card

unfoldable pub dashboard_content : Printer → Dashboard → String
unfolding template token_card
dashboard_content pr p = template (
    "\n"
    ∷ "    <div class=\"page-header\">\n"
    ∷ "      <h1 class=\"page-title\">Dashboard</h1>\n"
    ∷ "    </div>\n"
    ∷ "\n"
    ∷ "    <div class=\"grid-2\">\n"
    ∷ "      <div class=\"card\">\n"
    ∷ "        <div style=\"font-weight:700;margin-bottom:.75rem\">Saxo connection</div>\n"
    ∷ "        "
    ∷ token_card pr p
    ∷ "\n"
    ∷ "      </div>\n"
    ∷ "      <div class=\"card\">\n"
    ∷ "        <div style=\"font-weight:700;margin-bottom:.75rem\">Quick actions</div>\n"
    ∷ "        <div style=\"display:flex;flex-direction:column;gap:.5rem\">\n"
    ∷ "          <a href=\"/portfolios/new\" class=\"btn btn-ghost btn-sm\">+ New portfolio</a>\n"
    ∷ "          <a href=\"/simulations/new\" class=\"btn btn-ghost btn-sm\">+ Run simulation</a>\n"
    ∷ "        </div>\n"
    ∷ "      </div>\n"
    ∷ "    </div>\n"
    ∷ "\n"
    ∷ "    <div class=\"card\" style=\"margin-bottom:1rem\">\n"
    ∷ "      <div style=\"font-weight:700;margin-bottom:.75rem\">Portfolios</div>\n"
    ∷ "      <div class=\"empty-state\">\n"
    ∷ "        <div class=\"icon\">📁</div>\n"
    ∷ "        <p>No portfolios yet.</p>\n"
    ∷ "        <a href=\"/portfolios/new\" class=\"btn btn-primary btn-sm\" style=\"margin-top:.75rem\">Upload portfolio</a>\n"
    ∷ "      </div>\n"
    ∷ "    </div>\n"
    ∷ "\n"
    ∷ "    <div class=\"card\">\n"
    ∷ "      <div style=\"font-weight:700;margin-bottom:.75rem\">Recent simulations</div>\n"
    ∷ "      <div class=\"empty-state\">\n"
    ∷ "        <div class=\"icon\">📊</div>\n"
    ∷ "        <p>No simulations run yet.</p>\n"
    ∷ "      </div>\n"
    ∷ "    </div>\n"
    ∷ "  "
    ∷ [])

-- `dashboardPage`
unfoldable pub dashboard_html : Printer → Dashboard → String
unfolding dashboard_content user_layout
dashboard_html pr p = user_layout p.email (dashboard_content pr p)
