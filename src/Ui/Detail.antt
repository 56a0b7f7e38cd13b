-- ===== src/Ui/Detail.antt =====
-- The page about one user: `adminUserDetailPage` of workers/src/ui/admin/users.ts.
use simtrader.Base.{
  ℕ, ltb, String, ◌==◌, Bool, Option, none, some, [], ◌∷◌, map, join, or_else, if◌then◌else◌,
}
use simtrader.Json.{Json}
use simtrader.Pages.{AuditEntry, DetailUser, UserDetailPage}
use simtrader.Ui.{template, format_date, status_badge, role_badge}
use simtrader.Ui.Layout.{admin_layout}
use simtrader.Ui.Users.{selected_if, rows_or}

-- How dates and JSON values are written.
pub record Printer : Type 0 where
  pub locale : ℕ → String
  pub locale_default : ℕ → String
  pub stringify : Json → String

abbrev pub expire_button : String
expire_button =
    "<button class=\"btn btn-danger btn-sm\" onclick=\"forceExpire()\">Force expire</button>"

unfoldable pub token_details : Printer → Bool → ℕ → String
unfolding template format_date
token_details pr is_active expires_at = template (
    "<div style=\"display:flex;align-items:center;gap:1rem;flex-wrap:wrap\">\n"
    ∷ "        <span class=\"badge "
    ∷ (if is_active then "badge-green" else "badge-red")
    ∷ "\">"
    ∷ (if is_active then "Active" else "Expired")
    ∷ "</span>\n"
    ∷ "        <span style=\"font-size:12px;color:var(--muted)\">Expires "
    ∷ format_date pr.locale (some expires_at)
    ∷ "</span>\n"
    ∷ "        "
    ∷ (if is_active then expire_button else "")
    ∷ "\n"
    ∷ "      </div>"
    ∷ [])

-- `isActive`, and the section about the token.
unfoldable pub token_section : Printer → ℕ → Option ℕ → String
unfolding token_details
token_section pr now none = "<span style=\"color:var(--muted)\">No token on file</span>"
token_section pr now (some expires_at) = token_details pr (ltb now expires_at) expires_at

abbrev pub detail_text : Printer → Option Json → String
detail_text pr none = "—"
detail_text pr (some detail) = pr.stringify detail

unfoldable pub trail_row_html : Printer → AuditEntry → String
unfolding template format_date
trail_row_html pr e = template (
    "\n"
    ∷ "    <tr>\n"
    ∷ "      <td style=\"color:var(--muted);font-size:12px\">"
    ∷ format_date pr.locale (some e.ts)
    ∷ "</td>\n"
    ∷ "      <td>"
    ∷ or_else e.actor_email "<span style=\"color:var(--muted)\">system</span>"
    ∷ "</td>\n"
    ∷ "      <td><code style=\"font-size:12px;background:#f1f5f9;padding:.1rem .4rem;border-radius:4px\">"
    ∷ e.action
    ∷ "</code></td>\n"
    ∷ "      <td style=\"font-size:12px;color:var(--muted)\">"
    ∷ detail_text pr e.detail
    ∷ "</td>\n"
    ∷ "    </tr>\n"
    ∷ "  "
    ∷ [])

-- The buttons that fit the status.
abbrev pub detail_actions : DetailUser → String
detail_actions u =
    if u.status == "active"
    then "<button class=\"btn btn-danger\" onclick=\"confirmSuspend()\">Suspend user</button>"
    else if u.status == "suspended"
    then "<button class=\"btn btn-ghost\" onclick=\"doUnsuspend()\">Unsuspend user</button>"
    else ""

-- What stands in the frame; `verified` is the column `email_verified`, which no code writes.
unfoldable pub detail_content : Printer → ℕ → Bool → UserDetailPage → String
unfolding template format_date status_badge role_badge token_section trail_row_html join
detail_content pr now verified p = template (
    "\n"
    ∷ "    <div class=\"page-header\">\n"
    ∷ "      <div>\n"
    ∷ "        <a href=\"/admin/users\" style=\"font-size:13px;color:var(--muted)\">← Users</a>\n"
    ∷ "        <h1 class=\"page-title\" style=\"margin-top:.25rem\">"
    ∷ p.user.email
    ∷ "</h1>\n"
    ∷ "      </div>\n"
    ∷ "      <div style=\"display:flex;gap:.5rem\">\n"
    ∷ "        "
    ∷ detail_actions p.user
    ∷ "\n"
    ∷ "      </div>\n"
    ∷ "    </div>\n"
    ∷ "\n"
    ∷ "    <div style=\"display:grid;grid-template-columns:1fr 1fr;gap:1rem;margin-bottom:1rem\">\n"
    ∷ "      <div class=\"card\">\n"
    ∷ "        <strong style=\"display:block;margin-bottom:.75rem\">Profile</strong>\n"
    ∷ "        <table style=\"font-size:13px\">\n"
    ∷ "          <tr><td style=\"color:var(--muted);padding:.35rem 0\">ID</td><td style=\"font-family:monospace;font-size:11px\">"
    ∷ p.user.id
    ∷ "</td></tr>\n"
    ∷ "          <tr><td style=\"color:var(--muted);padding:.35rem 0\">Role</td><td>"
    ∷ role_badge p.user.role
    ∷ "</td></tr>\n"
    ∷ "          <tr><td style=\"color:var(--muted);padding:.35rem 0\">Status</td><td>"
    ∷ status_badge p.user.status
    ∷ "</td></tr>\n"
    ∷ "          <tr><td style=\"color:var(--muted);padding:.35rem 0\">Email verified</td><td>"
    ∷ (if verified then "✓ Yes" else "No")
    ∷ "</td></tr>\n"
    ∷ "          <tr><td style=\"color:var(--muted);padding:.35rem 0\">Created</td><td>"
    ∷ format_date pr.locale (some p.user.created_at)
    ∷ "</td></tr>\n"
    ∷ "          <tr><td style=\"color:var(--muted);padding:.35rem 0\">Last login</td><td>"
    ∷ format_date pr.locale p.user.last_login_at
    ∷ "</td></tr>\n"
    ∷ "        </table>\n"
    ∷ "        <div style=\"margin-top:1rem;border-top:1px solid var(--border);padding-top:1rem\">\n"
    ∷ "          <strong style=\"font-size:12px;display:block;margin-bottom:.5rem\">Change role</strong>\n"
    ∷ "          <div style=\"display:flex;gap:.5rem\">\n"
    ∷ "            <select id=\"role-select\" style=\"width:auto\">\n"
    ∷ "              <option value=\"user\" "
    ∷ selected_if (p.user.role == "user")
    ∷ ">User</option>\n"
    ∷ "              <option value=\"admin\" "
    ∷ selected_if (p.user.role == "admin")
    ∷ ">Admin</option>\n"
    ∷ "            </select>\n"
    ∷ "            <button class=\"btn btn-ghost btn-sm\" onclick=\"changeRole()\">Save</button>\n"
    ∷ "          </div>\n"
    ∷ "        </div>\n"
    ∷ "      </div>\n"
    ∷ "\n"
    ∷ "      <div class=\"card\">\n"
    ∷ "        <strong style=\"display:block;margin-bottom:.75rem\">Saxo token</strong>\n"
    ∷ "        "
    ∷ token_section pr now p.token
    ∷ "\n"
    ∷ "        <div style=\"margin-top:1.5rem\">\n"
    ∷ "          <strong style=\"font-size:12px;display:block;margin-bottom:.5rem\">Danger zone</strong>\n"
    ∷ "          <button class=\"btn btn-danger btn-sm\" onclick=\"confirmDelete()\">Delete account</button>\n"
    ∷ "        </div>\n"
    ∷ "      </div>\n"
    ∷ "    </div>\n"
    ∷ "\n"
    ∷ "    <div class=\"card\">\n"
    ∷ "      <strong style=\"display:block;margin-bottom:.75rem\">Audit trail (last 50)</strong>\n"
    ∷ "      <table>\n"
    ∷ "        <thead><tr><th>Time</th><th>Actor</th><th>Action</th><th>Detail</th></tr></thead>\n"
    ∷ "        <tbody>"
    ∷ rows_or
        "<tr><td colspan=\"4\" style=\"text-align:center;color:var(--muted);padding:1.5rem\">No audit entries</td></tr>"
        (join "" (map (trail_row_html pr) p.audit_trail))
    ∷ "</tbody>\n"
    ∷ "      </table>\n"
    ∷ "    </div>\n"
    ∷ "\n"
    ∷ "    <dialog id=\"delete-dialog\">\n"
    ∷ "      <p class=\"modal-title\" style=\"color:var(--danger)\">Delete account?</p>\n"
    ∷ "      <p style=\"color:var(--muted);font-size:13px\">\n"
    ∷ "        This soft-deletes the account and anonymises the email. The audit trail is preserved.\n"
    ∷ "        This cannot be undone easily.\n"
    ∷ "      </p>\n"
    ∷ "      <div class=\"modal-actions\">\n"
    ∷ "        <button class=\"btn btn-ghost\" onclick=\"document.getElementById('delete-dialog').close()\">Cancel</button>\n"
    ∷ "        <button class=\"btn btn-danger\" id=\"delete-confirm-btn\">Delete</button>\n"
    ∷ "      </div>\n"
    ∷ "    </dialog>\n"
    ∷ "\n"
    ∷ "    <script>\n"
    ∷ "      const userId = '"
    ∷ p.user.id
    ∷ "'\n"
    ∷ "      async function confirmSuspend() {\n"
    ∷ "        if (!confirm('Suspend this user? Their sessions will be invalidated.')) return\n"
    ∷ "        const ok = await adminAction('/admin/users/' + userId + '/suspend')\n"
    ∷ "        if (ok) { toast('Suspended'); setTimeout(() => location.reload(), 800) }\n"
    ∷ "      }\n"
    ∷ "      async function doUnsuspend() {\n"
    ∷ "        const ok = await adminAction('/admin/users/' + userId + '/unsuspend')\n"
    ∷ "        if (ok) { toast('Unsuspended'); setTimeout(() => location.reload(), 800) }\n"
    ∷ "      }\n"
    ∷ "      async function changeRole() {\n"
    ∷ "        const role = document.getElementById('role-select').value\n"
    ∷ "        const ok = await adminAction('/admin/users/' + userId + '/role', { role })\n"
    ∷ "        if (ok) { toast('Role updated'); setTimeout(() => location.reload(), 800) }\n"
    ∷ "      }\n"
    ∷ "      async function forceExpire() {\n"
    ∷ "        if (!confirm('Force-expire this token?')) return\n"
    ∷ "        const ok = await adminAction('/admin/users/' + userId + '/token/expire')\n"
    ∷ "        if (ok) { toast('Token expired'); setTimeout(() => location.reload(), 800) }\n"
    ∷ "      }\n"
    ∷ "      function confirmDelete() {\n"
    ∷ "        document.getElementById('delete-dialog').showModal()\n"
    ∷ "      }\n"
    ∷ "      document.getElementById('delete-confirm-btn').onclick = async () => {\n"
    ∷ "        document.getElementById('delete-dialog').close()\n"
    ∷ "        const ok = await adminAction('/admin/users/' + userId + '/delete', { confirm: true })\n"
    ∷ "        if (ok) { toast('Account deleted'); setTimeout(() => location.href = '/admin/users', 1000) }\n"
    ∷ "      }\n"
    ∷ "    </script>\n"
    ∷ "  "
    ∷ [])

-- `adminUserDetailPage`
unfoldable pub detail_html : Printer → ℕ → Bool → UserDetailPage → String
unfolding detail_content admin_layout
detail_html pr now verified p =
    admin_layout p.user.email "/admin/users" "" (detail_content pr now verified p)
