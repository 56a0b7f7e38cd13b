-- ===== src/Ui/Layout.antt =====
-- The frame of the admin pages: workers/src/ui/admin/layout.ts.
use simtrader.Base.{String, [], ◌∷◌}
use simtrader.Ui.{template}
use simtrader.Ui.Assets.{admin_css, toast_script}
use simtrader.Ui.Links.{sidebar_link}

-- The links and the footer of the sidebar.
unfoldable pub sidebar : String → String → String
unfolding template sidebar_link
sidebar current_path email = template (
    "\n"
    ∷ "    <aside class=\"sidebar\">\n"
    ∷ "      <div class=\"sidebar-brand\">⚡ Admin</div>\n"
    ∷ "      <div style=\"padding:.5rem 0\">\n"
    ∷ "        <div class=\"sidebar-section\">Overview</div>\n"
    ∷ "        "
    ∷ sidebar_link current_path "/admin" "📊" "Dashboard"
    ∷ "\n"
    ∷ "        <div class=\"sidebar-section\">Users</div>\n"
    ∷ "        "
    ∷ sidebar_link current_path "/admin/users" "👥" "All users"
    ∷ "\n"
    ∷ "        <div class=\"sidebar-section\">System</div>\n"
    ∷ "        "
    ∷ sidebar_link current_path "/admin/audit" "📋" "Audit log"
    ∷ "\n"
    ∷ "        "
    ∷ sidebar_link current_path "/admin/system" "🖥\u{fe0f}" "System health"
    ∷ "\n"
    ∷ "      </div>\n"
    ∷ "      <div class=\"sidebar-footer\">\n"
    ∷ "        <div class=\"email\">"
    ∷ email
    ∷ "</div>\n"
    ∷ "        <form method=\"POST\" action=\"/auth/logout\">\n"
    ∷ "          <button type=\"submit\">Log out</button>\n"
    ∷ "        </form>\n"
    ∷ "      </div>\n"
    ∷ "    </aside>\n"
    ∷ "  "
    ∷ [])

-- `adminLayout`
unfoldable pub admin_layout : String → String → String → String → String
unfolding template sidebar admin_css toast_script
admin_layout title current_path email content = template (
    "<!DOCTYPE html>\n"
    ∷ "<html lang=\"en\">\n"
    ∷ "<head>\n"
    ∷ "  <meta charset=\"UTF-8\">\n"
    ∷ "  <meta name=\"viewport\" content=\"width=device-width, initial-scale=1\">\n"
    ∷ "  <title>"
    ∷ title
    ∷ " — SimTrader Admin</title>\n"
    ∷ "  <style>"
    ∷ admin_css
    ∷ "</style>\n"
    ∷ "</head>\n"
    ∷ "<body>\n"
    ∷ "  "
    ∷ sidebar current_path email
    ∷ "\n"
    ∷ "  <main class=\"content\">\n"
    ∷ "    "
    ∷ content
    ∷ "\n"
    ∷ "  </main>\n"
    ∷ "  <div class=\"toast-container\" id=\"toast-container\"></div>\n"
    ∷ "  <script>"
    ∷ toast_script
    ∷ "</script>\n"
    ∷ "</body>\n"
    ∷ "</html>"
    ∷ [])
