-- ===== src/Admin/Listing/Pagination.antt =====
-- The pages of the list of users.
use simtrader.Pages.{UserRow}
use simtrader.Base.{ℕ, true, ◌↔◌, ◌≢◌, In, List, some, show_number, Exec, returned, ◌≡◌}
use simtrader.Http.{Response}
use simtrader.Database.{User, Db}
use simtrader.Database.Queries.{Postgres, page_number}
use simtrader.Database.Queries.Newest.{IsNewestFirst}
use simtrader.Admin.Listing.{UserFilters, user_row, joined}

-- A request whose `page` is a number in decimal is for that page.
abbrev pub IsReadBack : ℕ → Type 0
IsReadBack p = ◌≡◌ {A = Exec Response ℕ} (page_number (some (show_number p))) (returned p)

-- The users that the filters are for: none that is deleted, and of the others those whose email
-- contains the search, with the role and the status, where these are given.
pub record IsShown (pg : Postgres) (f : UserFilters) (u : User) : Type 0 where
  pub kept : u.status ≢ "deleted"
  pub searched : f.search ≢ "" → pg.contains u.email f.search ≡ true
  pub of_role : f.role ≢ "" → u.role ≡ f.role
  pub of_status : f.status ≢ "" → u.status ≡ f.status

-- The rows of these users, each of them and no others, the newest first.
pub record IsListing (pg : Postgres) (now : ℕ) (f : UserFilters) (db : Db) (rows : List UserRow)
    : Type 0 where
  pub ordered : IsNewestFirst joined rows
  pub of_users :
      (r : UserRow)
      → In r rows ↔ ((u : User) × In u db.users × IsShown pg f u × (user_row now db u ≡ r))
