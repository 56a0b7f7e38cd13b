-- ===== src/Ui.antt =====
-- The pieces of HTML that the pages share: workers/src/ui/base.ts. The writing of a date is an
-- argument.
pub mod Links
pub mod Assets
pub mod Layout
pub mod Users
pub mod Detail
pub mod AuditLog
pub mod Dashboards
use Prim.Native.String
use simtrader.Base.{
  ℕ, leb, eqb, String, ◌==◌, Option, none, some, List, [], ◌∷◌, map, join, show_number,
  if◌then◌else◌,
}
use simtrader.Database.Queries.Pages.{page_count, numbers}

-- A template: its pieces, one after the other.
unfoldable pub template : List String → String
unfolding join
template pieces = join "" pieces

unfoldable pub page_link : ℕ → String → ℕ → String
unfolding template show_number
page_link page base_url p =
    if eqb p page
    then template ("<span class=\"current\">" ∷ show_number p ∷ "</span>" ∷ [])
    else template
        ("<a href=\"" ∷ base_url ∷ "?page=" ∷ show_number p ∷ "\">" ∷ show_number p ∷ "</a>" ∷ [])

-- `paginate`
unfoldable pub paginate : ℕ → ℕ → ℕ → String → String
unfolding template page_link
paginate page total limit base_url =
    let total_pages = page_count total limit in
    if leb total_pages 1
    then ""
    else template (
        "<div class=\"pagination\">"
        ∷ join "" (map (page_link page base_url) (numbers total_pages 0))
        ∷ "</div>"
        ∷ [])

-- `formatDate`
unfoldable pub format_date : (ℕ → String) → Option ℕ → String
format_date locale none = "—"
format_date locale (some at) = locale at

abbrev pub badge_class : String → String
badge_class status =
    if status == "active"
    then "badge-green"
    else if status == "suspended"
    then "badge-red"
    else if status == "pending"
    then "badge-yellow"
    else "badge-gray"

-- `statusBadge`
unfoldable pub status_badge : String → String
unfolding template
status_badge status =
    template ("<span class=\"badge " ∷ badge_class status ∷ "\">" ∷ status ∷ "</span>" ∷ [])

-- `roleBadge`
unfoldable pub role_badge : String → String
unfolding template
role_badge role = template (
    "<span class=\"badge "
    ∷ (if role == "admin" then "badge-blue" else "badge-gray")
    ∷ "\">"
    ∷ role
    ∷ "</span>"
    ∷ [])
