-- ===== src/Ui/Links.antt =====
-- The links of the admin pages: the sidebar of workers/src/ui/admin/layout.ts, and the query strings
-- that workers/src/ui/admin/users.ts and audit-log.ts build.
use Prim.Native.Char.{Char, code}
use Prim.Native.String
use Prim.Native.String.{◌∷◌}
use mathlib.Core.List.{List, ◌++◌}
use simtrader.Base.{
  leb, eqb, String, Bool, ◌&&◌, ◌||◌, map, has_char, starts_with, truthy_text, join, percent_code,
  if◌then◌else◌,
}
use simtrader.Ui.{template, paginate}
use simtrader.Pages.{UsersPage, AuditLogPage}

-- The characters that `URLSearchParams` leaves as they are.
abbrev pub is_form_safe : Char → Bool
unfolding has_char
is_form_safe c =
    (leb 48 (code c) && leb (code c) 57)
    || (leb 65 (code c) && leb (code c) 90)
    || (leb 97 (code c) && leb (code c) 122)
    || has_char c "*-._"

-- One value as `URLSearchParams` writes it.
unfoldable pub form_encode : String → String
unfolding has_char percent_code
form_encode String.[] = ""
form_encode (c ∷ s) =
    let rest = form_encode s in
    if is_form_safe c
    then c ∷ rest
    else if eqb (code c) 32
    then "+" ∷ rest
    else String.◌++◌ (percent_code (code c)) rest

-- `...(value ? { name: value } : {})`
abbrev pub given : String → String → List (String × String)
given name value = if truthy_text value then List.◌∷◌ (name, value) List.[] else List.[]

abbrev pub pair_text : String × String → String
pair_text p = String.◌++◌ p.0 (String.◌++◌ "=" (form_encode p.1))

-- `new URLSearchParams(…).toString()`
unfoldable pub search_params : List (String × String) → String
unfolding join form_encode
search_params pairs = join "&" (map pair_text pairs)

-- `s ? '?' + s : ''`
abbrev pub with_question_mark : String → String
with_question_mark s = if truthy_text s then String.◌++◌ "?" s else ""

-- `qs()` of the users' list.
unfoldable pub users_qs : UsersPage → String
unfolding search_params
users_qs p = with_question_mark (
    search_params
      (given "q" p.search ++ given "role" p.role_filter ++ given "status" p.status_filter))

-- The page links of the users' list.
unfoldable pub users_pagination : UsersPage → String
unfolding users_qs paginate
users_pagination p = paginate p.page p.total p.limit (String.◌++◌ "/admin/users" (users_qs p))

-- The address of the export.
unfoldable pub export_url : AuditLogPage → String
unfolding search_params
export_url p =
    String.◌++◌ "/admin/audit/export"
      (with_question_mark (search_params (given "from" p.from ++ given "to" p.to)))

-- The page links of the audit log.
unfoldable pub audit_pagination : AuditLogPage → String
unfolding paginate
audit_pagination p = paginate p.page p.total p.limit "/admin/audit"

-- `link` of the sidebar.
unfoldable pub sidebar_link : String → String → String → String → String
unfolding template starts_with
sidebar_link current_path href icon label = template (
    List.◌∷◌ "<a href=\"" (
      List.◌∷◌ href (
        List.◌∷◌ "\" class=\"sidebar-link" (
          List.◌∷◌ (if starts_with current_path href then " active" else "") (
            List.◌∷◌ "\">"
              (List.◌∷◌ icon (List.◌∷◌ " " (List.◌∷◌ label (List.◌∷◌ "</a>" List.[])))))))))
