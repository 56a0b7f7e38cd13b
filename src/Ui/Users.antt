-- ===== src/Ui/Users.antt =====
-- The pages about users: workers/src/ui/admin/users.ts.
use simtrader.Base.{
  ℕ, String, ◌==◌, Bool, true, false, some, [], ◌∷◌, map, join, truthy_text, show_number,
  if◌then◌else◌,
}
use simtrader.Pages.{UserRow, UsersPage}
use simtrader.Ui.{template, format_date, status_badge, role_badge}
use simtrader.Ui.Links.{users_pagination}
use simtrader.Ui.Layout.{admin_layout}

unfoldable pub suspend_button : UserRow → String
unfolding template
suspend_button u = template (
    "<button class=\"btn btn-danger btn-sm\" onclick=\"confirmSuspend('" ∷ u.id ∷ "','" ∷ u.email
    ∷ "')\">Suspend</button>" ∷ [])

unfoldable pub unsuspend_button : UserRow → String
unfolding template
unsuspend_button u = template (
    "<button class=\"btn btn-ghost btn-sm\" onclick=\"doUnsuspend('" ∷ u.id
    ∷ "')\">Unsuspend</button>" ∷ [])

-- The button that fits the status.
abbrev pub row_action : UserRow → String
row_action u =
    if u.status == "active"
    then suspend_button u
    else if u.status == "suspended"
    then unsuspend_button u
    else ""

abbrev pub token_badge : Bool → String
token_badge true = "<span class=\"badge badge-green\">active</span>"
token_badge false = "<span class=\"badge badge-gray\">none</span>"

-- One row of the list.
unfoldable pub user_row_html : (ℕ → String) → UserRow → String
unfolding template format_date status_badge role_badge suspend_button unsuspend_button
user_row_html locale u = template (
    "\n"
    ∷ "    <tr>\n"
    ∷ "      <td><a href=\"/admin/users/"
    ∷ u.id
    ∷ "\">"
    ∷ u.email
    ∷ "</a></td>\n"
    ∷ "      <td>"
    ∷ role_badge u.role
    ∷ "</td>\n"
    ∷ "      <td>"
    ∷ status_badge u.status
    ∷ "</td>\n"
    ∷ "      <td>"
    ∷ token_badge u.has_token
    ∷ "</td>\n"
    ∷ "      <td style=\"color:var(--muted);font-size:12px\">"
    ∷ format_date locale (some u.created_at)
    ∷ "</td>\n"
    ∷ "      <td style=\"color:var(--muted);font-size:12px\">"
    ∷ format_date locale u.last_login_at
    ∷ "</td>\n"
    ∷ "      <td>\n"
    ∷ "        <div style=\"display:flex;gap:.35rem\">\n"
    ∷ "          <a href=\"/admin/users/"
    ∷ u.id
    ∷ "\" class=\"btn btn-ghost btn-sm\">View</a>\n"
    ∷ "          "
    ∷ row_action u
    ∷ "\n"
    ∷ "        </div>\n"
    ∷ "      </td>\n"
    ∷ "    </tr>\n"
    ∷ "  "
    ∷ [])

abbrev pub selected_if : Bool → String
selected_if true = "selected"
selected_if false = ""

-- `rows || otherwise`
abbrev pub rows_or : String → String → String
rows_or otherwise rows = if truthy_text rows then rows else otherwise

-- What stands in the frame of the list.
unfoldable pub users_content : (ℕ → String) → UsersPage → String
unfolding template user_row_html users_pagination show_number join
users_content locale p = template (
    "\n"
    ∷ "    <div class=\"page-header\">\n"
    ∷ "      <h1 class=\"page-title\">Users <span style=\"font-weight:400;color:var(--muted);font-size:1rem\">("
    ∷ show_number p.total
    ∷ ")</span></h1>\n"
    ∷ "    </div>\n"
    ∷ "\n"
    ∷ "    <form method=\"GET\" class=\"filter-bar card\" style=\"padding:.75rem\">\n"
    ∷ "      <input type=\"search\" name=\"q\" placeholder=\"Search email…\" value=\""
    ∷ p.search
    ∷ "\" style=\"width:220px\">\n"
    ∷ "      <select name=\"role\">\n"
    ∷ "        <option value=\"\">All roles</option>\n"
    ∷ "        <option value=\"user\" "
    ∷ selected_if (p.role_filter == "user")
    ∷ ">User</option>\n"
    ∷ "        <option value=\"admin\" "
    ∷ selected_if (p.role_filter == "admin")
    ∷ ">Admin</option>\n"
    ∷ "      </select>\n"
    ∷ "      <select name=\"status\">\n"
    ∷ "        <option value=\"\">All statuses</option>\n"
    ∷ "        <option value=\"active\" "
    ∷ selected_if (p.status_filter == "active")
    ∷ ">Active</option>\n"
    ∷ "        <option value=\"suspended\" "
    ∷ selected_if (p.status_filter == "suspended")
    ∷ ">Suspended</option>\n"
    ∷ "        <option value=\"pending\" "
    ∷ selected_if (p.status_filter == "pending")
    ∷ ">Pending</option>\n"
    ∷ "      </select>\n"
    ∷ "      <button type=\"submit\" class=\"btn btn-primary btn-sm\">Filter</button>\n"
    ∷ "      <a href=\"/admin/users\" class=\"btn btn-ghost btn-sm\">Clear</a>\n"
    ∷ "    </form>\n"
    ∷ "\n"
    ∷ "    <div class=\"card\" style=\"padding:0;overflow:hidden\">\n"
    ∷ "      <table>\n"
    ∷ "        <thead><tr><th>Email</th><th>Role</th><th>Status</th><th>Saxo token</th><th>Created</th><th>Last login</th><th>Actions</th></tr></thead>\n"
    ∷ "        <tbody>\n"
    ∷ "          "
    ∷ rows_or
        "<tr><td colspan=\"7\" style=\"text-align:center;padding:2rem;color:var(--muted)\">No users found</td></tr>"
        (join "" (map (user_row_html locale) p.users))
    ∷ "\n"
    ∷ "        </tbody>\n"
    ∷ "      </table>\n"
    ∷ "    </div>\n"
    ∷ "    "
    ∷ users_pagination p
    ∷ "\n"
    ∷ "\n"
    ∷ "    <!-- Suspend confirmation dialog -->\n"
    ∷ "    <dialog id=\"suspend-dialog\">\n"
    ∷ "      <p class=\"modal-title\">Suspend user?</p>\n"
    ∷ "      <p id=\"suspend-desc\" style=\"color:var(--muted);font-size:13px\"></p>\n"
    ∷ "      <p style=\"color:var(--muted);font-size:12px;margin-top:.5rem\">Their active sessions will be invalidated immediately.</p>\n"
    ∷ "      <div class=\"modal-actions\">\n"
    ∷ "        <button class=\"btn btn-ghost\" onclick=\"document.getElementById('suspend-dialog').close()\">Cancel</button>\n"
    ∷ "        <button class=\"btn btn-danger\" id=\"suspend-confirm-btn\">Suspend</button>\n"
    ∷ "      </div>\n"
    ∷ "    </dialog>\n"
    ∷ "\n"
    ∷ "    <script>\n"
    ∷ "      let _suspendId = null\n"
    ∷ "      function confirmSuspend(id, email) {\n"
    ∷ "        _suspendId = id\n"
    ∷ "        document.getElementById('suspend-desc').textContent = 'Suspending: ' + email\n"
    ∷ "        document.getElementById('suspend-dialog').showModal()\n"
    ∷ "      }\n"
    ∷ "      document.getElementById('suspend-confirm-btn').onclick = async () => {\n"
    ∷ "        document.getElementById('suspend-dialog').close()\n"
    ∷ "        const ok = await adminAction('/admin/users/' + _suspendId + '/suspend')\n"
    ∷ "        if (ok) { toast('User suspended'); setTimeout(() => location.reload(), 800) }\n"
    ∷ "      }\n"
    ∷ "      async function doUnsuspend(id) {\n"
    ∷ "        const ok = await adminAction('/admin/users/' + id + '/unsuspend')\n"
    ∷ "        if (ok) { toast('User unsuspended'); setTimeout(() => location.reload(), 800) }\n"
    ∷ "      }\n"
    ∷ "    </script>\n"
    ∷ "  "
    ∷ [])

-- `adminUsersPage`
unfoldable pub users_html : (ℕ → String) → UsersPage → String
unfolding users_content admin_layout
users_html locale p = admin_layout "Users" "/admin/users" "" (users_content locale p)
