-- ===== src/Site/Reading.antt =====
-- The guard of /admin and the pages behind it only read what is stored.
use simtrader.Base.{ℕ, String, Option, none, some, or_else, truthy_text, Bool-cases, inl, inr}
use simtrader.Http.{lift, ensure}
use simtrader.Kv.{KvNamespace}
use simtrader.World.{sql, kv}
use simtrader.World.ReadOnly.{
  IsReading, then-IsReading, query-IsReading, get-IsReading, ensure-IsReading, lift-IsReading,
  give-IsReading, answer-IsReading,
}
use simtrader.Database.Accounts.{select_user}
use simtrader.Database.Queries.{Postgres, page_number}
use simtrader.Session.{SessionData, validate_session}
use simtrader.Access.{
  HonoVars, has_user, is_role, require_admin, find_session, recheck, session_middleware,
  enter_admin,
}
use simtrader.Admin.Listing
use simtrader.Admin.Listing.{list_users, show_user, user_or_missing}
use simtrader.Admin.Dashboard
use simtrader.Admin.Dashboard.{admin_dashboard}
use simtrader.AuditLog
use simtrader.AuditLog.{AuditQuery, audit_list, audit_export, bound_or_throw}
use simtrader.Site.{system}

module _ {K : KvNamespace} where
  recheck-IsReading : (found : Option SessionData) → IsReading {K = K} (recheck found)
  recheck-IsReading none = give-IsReading _
  recheck-IsReading (some session) =
      then-IsReading (sql (λ db. (db, select_user session.user_id db))) _
        (query-IsReading (select_user session.user_id)) (λ user. give-IsReading _)

  pub find_session-IsReading :
      (now : ℕ) (token : String) → IsReading {K = K} (find_session now token)
  find_session-IsReading now token =
      then-IsReading (kv (λ s. (s, validate_session K s now token))) lift
        (get-IsReading (λ s. validate_session K s now token)) (λ result. lift-IsReading result)

  pub session_middleware-IsReading :
      (now : ℕ) (cookie : Option String) → IsReading {K = K} (session_middleware now cookie)
  unfolding session_middleware
  session_middleware-IsReading now cookie = elim (Bool-cases (truthy_text (or_else cookie ""))) [
    | inl given ↦ rw given (
        then-IsReading (find_session now (or_else cookie "")) recheck
          (find_session-IsReading now (or_else cookie "")) recheck-IsReading)
    | inr absent ↦ rw absent (give-IsReading _)
  ]

  pub require_admin-IsReading :
      (vars : HonoVars) (path : String) → IsReading {K = K} (require_admin vars path)
  unfolding require_admin
  require_admin-IsReading vars path =
      then-IsReading (ensure (has_user vars) _) _ (ensure-IsReading _ _) λ u.
        then-IsReading (ensure (is_role vars.user_role "admin") _) _ (ensure-IsReading _ _)
          λ v. ensure-IsReading _ _

  pub enter_admin-IsReading :
      (now : ℕ) (cookie : Option String) (path : String)
      → IsReading {K = K} (enter_admin now cookie path)
  unfolding enter_admin
  enter_admin-IsReading now cookie path =
      then-IsReading (session_middleware now cookie) _ (session_middleware-IsReading now cookie)
        λ vars.
          then-IsReading (require_admin vars path) _ (require_admin-IsReading vars path)
            (λ u. give-IsReading vars)

  pub system-IsReading :
      (pg : Postgres) (environment : String) (now : ℕ)
      → IsReading {K = K} (system pg environment now)
  unfolding system
  system-IsReading pg environment now = record { keeps = λ w. (query-IsReading (λ db. tt)).keeps w }

  pub admin_dashboard-IsReading : (now : ℕ) → IsReading {K = K} (admin_dashboard now)
  unfolding admin_dashboard
  admin_dashboard-IsReading now =
      then-IsReading (sql _) _ (query-IsReading (Dashboard.user_counts now)) λ users.
        then-IsReading (sql _) _ (query-IsReading (Dashboard.token_counts now)) λ tokens.
          then-IsReading (sql _) _ (query-IsReading Dashboard.recent_audit)
            λ recent. give-IsReading _

  pub list_users-IsReading :
      (pg : Postgres) (now : ℕ) (f : Listing.UserFilters) (page : Option String)
      → IsReading {K = K} (list_users pg now f page)
  unfolding list_users
  list_users-IsReading pg now f page =
      then-IsReading (lift (page_number page)) _ (lift-IsReading _) λ n.
        then-IsReading (sql _) _ (query-IsReading (Listing.select_users pg now f n)) λ rows.
          then-IsReading (sql _) _ (query-IsReading (Listing.count_users pg f))
            λ total. give-IsReading _

  user_or_missing-IsReading : (found : _) → IsReading {K = K} (user_or_missing found)
  user_or_missing-IsReading none = answer-IsReading _
  user_or_missing-IsReading (some u) = give-IsReading u

  pub show_user-IsReading : (id : String) → IsReading {K = K} (show_user id)
  unfolding show_user
  show_user-IsReading id = then-IsReading (sql _) _ (query-IsReading (select_user id)) λ row.
      then-IsReading (sql _) _ (query-IsReading (Listing.audit_trail id)) λ trail.
        then-IsReading (sql _) _ (query-IsReading (Listing.token_expiry id)) λ token.
          then-IsReading (user_or_missing row) _ (user_or_missing-IsReading row)
            λ user. give-IsReading _

  pub audit_list-IsReading : (pg : Postgres) (q : AuditQuery) → IsReading {K = K} (audit_list pg q)
  unfolding audit_list
  audit_list-IsReading pg q =
      then-IsReading (lift (page_number q.page)) _ (lift-IsReading _) λ page.
        then-IsReading (lift (bound_or_throw pg (or_else q.from ""))) _ (lift-IsReading _) λ after.
          then-IsReading (lift (bound_or_throw pg (or_else q.to ""))) _ (lift-IsReading _) λ before.
            let test = AuditLog.is_listed pg (or_else q.action "") after before in
            then-IsReading (sql _) _ (query-IsReading (AuditLog.select_page test page)) λ entries.
              then-IsReading (sql _) _ (query-IsReading (AuditLog.count_rows test))
                λ total. give-IsReading _

  pub audit_export-IsReading :
      (pg : Postgres) (today : String) (q : AuditQuery)
      → IsReading {K = K} (audit_export pg today q)
  unfolding audit_export
  audit_export-IsReading pg today q =
      then-IsReading (lift (bound_or_throw pg (or_else q.from ""))) _ (lift-IsReading _) λ after.
        then-IsReading (lift (bound_or_throw pg (or_else q.to ""))) _ (lift-IsReading _) λ before.
          then-IsReading (sql _) _ (query-IsReading (AuditLog.select_export after before))
            λ entries. give-IsReading _
