-- ===== src/Ui/AuditLog.antt =====
-- The page of the audit log: workers/src/ui/admin/audit-log.ts.
use Prim.Native.String
use simtrader.Base.{
  String, Option, none, some, [], ◌∷◌, map, join, or_else, truthy_text, show_number,
  encode_uri_component, if◌then◌else◌,
}
use simtrader.Json.{Json}
use simtrader.Pages.{AuditEntry, AuditLogPage}
use simtrader.Ui.{template, format_date}
use simtrader.Ui.Links.{export_url, audit_pagination}
use simtrader.Ui.Layout.{admin_layout}
use simtrader.Ui.Users.{rows_or}
use simtrader.Ui.Detail.{Printer}

unfoldable pub mail_link : String → String
unfolding template encode_uri_component
mail_link email =
    template
      ("<a href=\"/admin/users?q=" ∷ encode_uri_component email ∷ "\">" ∷ email ∷ "</a>" ∷ [])

-- `email ? link : otherwise`
abbrev pub mail_or : String → Option String → String
mail_or otherwise email =
    if truthy_text (or_else email "") then mail_link (or_else email "") else otherwise

abbrev pub detail_code : Printer → Option Json → String
detail_code pr none = "—"
detail_code pr (some detail) = String.◌++◌ "<code>" (String.◌++◌ (pr.stringify detail) "</code>")

-- One row of the log.
unfoldable pub audit_row_html : Printer → AuditEntry → String
unfolding template format_date mail_link
audit_row_html pr e = template (
    "\n"
    ∷ "    <tr>\n"
    ∷ "      <td style=\"color:var(--muted);font-size:12px;white-space:nowrap\">"
    ∷ format_date pr.locale (some e.ts)
    ∷ "</td>\n"
    ∷ "      <td style=\"font-size:13px\">"
    ∷ mail_or "<span style=\"color:var(--muted)\">system</span>" e.actor_email
    ∷ "</td>\n"
    ∷ "      <td><code style=\"font-size:12px;background:#f1f5f9;padding:.1rem .4rem;border-radius:4px\">"
    ∷ e.action
    ∷ "</code></td>\n"
    ∷ "      <td style=\"font-size:13px\">"
    ∷ mail_or "—" e.target_email
    ∷ "</td>\n"
    ∷ "      <td style=\"font-size:12px;color:var(--muted);max-width:240px;overflow:hidden;text-overflow:ellipsis\">\n"
    ∷ "        "
    ∷ detail_code pr e.detail
    ∷ "\n"
    ∷ "      </td>\n"
    ∷ "      <td style=\"font-size:12px;color:var(--muted)\">"
    ∷ or_else e.ip_address "—"
    ∷ "</td>\n"
    ∷ "    </tr>\n"
    ∷ "  "
    ∷ [])

-- What stands in the frame.
unfoldable pub audit_content : Printer → AuditLogPage → String
unfolding template audit_row_html export_url audit_pagination show_number join
audit_content pr p = template (
    "\n"
    ∷ "    <div class=\"page-header\">\n"
    ∷ "      <h1 class=\"page-title\">Audit log <span style=\"font-weight:400;color:var(--muted);font-size:1rem\">("
    ∷ show_number p.total
    ∷ ")</span></h1>\n"
    ∷ "      <a href=\""
    ∷ export_url p
    ∷ "\" class=\"btn btn-ghost btn-sm\">↓ Export CSV</a>\n"
    ∷ "    </div>\n"
    ∷ "\n"
    ∷ "    <form method=\"GET\" class=\"filter-bar card\" style=\"padding:.75rem\">\n"
    ∷ "      <input type=\"text\" name=\"action\" placeholder=\"Filter action…\" value=\""
    ∷ p.action_filter
    ∷ "\" style=\"width:180px\">\n"
    ∷ "      <input type=\"date\" name=\"from\" value=\""
    ∷ p.from
    ∷ "\" title=\"From date\">\n"
    ∷ "      <input type=\"date\" name=\"to\" value=\""
    ∷ p.to
    ∷ "\" title=\"To date\">\n"
    ∷ "      <button type=\"submit\" class=\"btn btn-primary btn-sm\">Filter</button>\n"
    ∷ "      <a href=\"/admin/audit\" class=\"btn btn-ghost btn-sm\">Clear</a>\n"
    ∷ "    </form>\n"
    ∷ "\n"
    ∷ "    <div class=\"card\" style=\"padding:0;overflow:hidden\">\n"
    ∷ "      <table>\n"
    ∷ "        <thead><tr><th>Time</th><th>Actor</th><th>Action</th><th>Target</th><th>Detail</th><th>IP</th></tr></thead>\n"
    ∷ "        <tbody>\n"
    ∷ "          "
    ∷ rows_or
        "<tr><td colspan=\"6\" style=\"text-align:center;padding:2rem;color:var(--muted)\">No entries found</td></tr>"
        (join "" (map (audit_row_html pr) p.entries))
    ∷ "\n"
    ∷ "        </tbody>\n"
    ∷ "      </table>\n"
    ∷ "    </div>\n"
    ∷ "    "
    ∷ audit_pagination p
    ∷ "\n"
    ∷ "  "
    ∷ [])

-- `adminAuditLogPage`
unfoldable pub audit_log_html : Printer → AuditLogPage → String
unfolding audit_content admin_layout
audit_log_html pr p = admin_layout "Audit log" "/admin/audit" "" (audit_content pr p)
