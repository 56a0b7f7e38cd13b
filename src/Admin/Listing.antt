-- ===== src/Admin/Listing.antt =====
-- The pages about users: the GET handlers of workers/src/routes/admin/users.ts.
pub mod Pagination
use Prim.Native.String
use simtrader.Base.{
  ℕ, ltb, String, ◌==◌, Bool, true, not, ◌&&◌, ◌||◌, Option, none, some, List, [], ◌∷◌, map, filter,
  find, any, length, take, or_else, truthy_text, Exec, returned, if◌then◌else◌,
}
use mathlib.Core.Option
use simtrader.Pages
use simtrader.Pages.{UserRow, DetailUser, AuditEntry, UserDetailPage}
use simtrader.Http.{
  Handler, Response, ◌>>=◌, ◌>>◌, give, answer, lift, plain_response, page_response,
}
use simtrader.Kv.{KvNamespace}
use simtrader.World.{World, sql}
use simtrader.Database.{User, SaxoToken, AuditRow, Db}
use simtrader.Database.Accounts.{select_user, names_user}
use simtrader.Database.Queries.{Postgres, newest_first, page_number, page_of}
use simtrader.AuditLog.{select_entries}

-- `const limit = 20`
abbrev pub user_page_size : ℕ
user_page_size = 20

-- The filters of the list, empty where they are not given.
pub record UserFilters : Type 0 where
  pub search : String
  pub role : String
  pub status : String

-- A filter that is given must hold.
abbrev pub when_given : String → Bool → Bool
when_given value test = if truthy_text value then test else true

-- The WHERE clause.
abbrev pub is_listed : Postgres → UserFilters → User → Bool
is_listed pg f u =
    not (u.status == "deleted")
    && when_given f.search (pg.contains u.email f.search)
    && when_given f.role (u.role == f.role)
    && when_given f.status (u.status == f.status)

-- `EXISTS(SELECT 1 FROM saxo_tokens … AND st.expires_at > NOW())`
abbrev pub has_live_token : ℕ → Db → String → Bool
has_live_token now db user_id =
    any (λ t. t.user_id == user_id && ltb now t.expires_at) db.saxo_tokens

abbrev pub user_row : ℕ → Db → User → UserRow
user_row now db u = record {
  id = u.id;
  email = u.email;
  role = u.role;
  status = u.status;
  created_at = u.created_at;
  last_login_at = u.last_login_at;
  has_token = has_live_token now db u.id;
}

abbrev pub joined : UserRow → ℕ
joined row = row.created_at

-- All rows of the list, `ORDER BY u.created_at DESC`.
unfoldable pub listed_users : Postgres → ℕ → UserFilters → Db → List UserRow
listed_users pg now f db =
    newest_first joined (map (user_row now db) (filter (is_listed pg f) db.users))

-- `LIMIT … OFFSET …`
unfoldable pub select_users : Postgres → ℕ → UserFilters → ℕ → Db → List UserRow
select_users pg now f page db = page_of user_page_size page (listed_users pg now f db)

-- `SELECT COUNT(*)`
unfoldable pub count_users : Postgres → UserFilters → Db → ℕ
count_users pg f db = length (filter (is_listed pg f) db.users)

abbrev pub detail_user : User → DetailUser
detail_user u = record {
  id = u.id;
  email = u.email;
  role = u.role;
  status = u.status;
  created_at = u.created_at;
  last_login_at = u.last_login_at;
}

-- The last 50 audit rows about or by the user.
unfoldable pub audit_trail : String → Db → List AuditEntry
audit_trail id db = take 50 (select_entries (names_user id) db)

-- `tokenRows[0]`
unfoldable pub token_expiry : String → Db → Option ℕ
token_expiry id db =
    Option.map (λ (t : SaxoToken). t.expires_at) (find (λ t. t.user_id == id) db.saxo_tokens)

module _ {K : KvNamespace} where
  -- GET /admin/users
  unfoldable pub list_users :
      Postgres → ℕ → UserFilters → Option String → Handler (World K) Response
  list_users pg now f page_text = do
    page ← lift (page_number page_text)
    rows ← sql (λ db. (db, select_users pg now f page db))
    total ← sql (λ db. (db, count_users pg f db))
    give (
        page_response (
          Pages.users_page (record {
            users = rows;
            page = page;
            total = total;
            limit = user_page_size;
            search = f.search;
            role_filter = f.role;
            status_filter = f.status;
          })))

  abbrev pub user_or_missing : Option User → Handler (World K) User
  user_or_missing none = answer (plain_response 404 "User not found")
  user_or_missing (some u) = give u

  -- GET /admin/users/:id
  unfoldable pub show_user : String → Handler (World K) Response
  show_user id = do
    row ← sql (λ db. (db, select_user id db))
    trail ← sql (λ db. (db, audit_trail id db))
    token ← sql (λ db. (db, token_expiry id db))
    user ← user_or_missing row
    give (
        page_response (
          Pages.user_detail_page
            (record { user = detail_user user; audit_trail = trail; token = token })))
