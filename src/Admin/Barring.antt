-- ===== src/Admin/Barring.antt =====
-- Who is suspended or deleted is shut out at once, and an action reaches no other user.
use simtrader.Base.{
  ℕ, String, ◌==◌, true, Option, none, some, List, [], ◌∷◌, All, find, ◌≡◌, refl, sym, ap, ◌∙◌, ◌≢◌,
  subst, Bool-cases, inl, inr, returned,
}
use mathlib.Core.Option
use simtrader.Http.{Response}
use simtrader.Kv.{KvNamespace}
use simtrader.World.{World}
use simtrader.Database.{User, Identity, AuditRow, Db, update_where}
use simtrader.Database.Accounts.{select_user, update_user, delete_identities, insert_audit}
use simtrader.Database.Erasure.{delete_where-All}
use simtrader.Access.{HonoVars, has_user, session_middleware}
use simtrader.Access.Admission.{session_middleware-IsSignedIn}
use simtrader.Admin.{AdminRequest, suspend, soft_delete, set_status, anonymise}
use simtrader.Admin.Effects.{action_row, suspend-returned, soft_delete-returned}

-- The row of the user whose row is changed, if the change keeps the id.
find-update_where :
    (user_id : String) (change : User → User)
    → ((u : User) → (change u).id ≡ u.id)
    → (rows : List User)
    → find (λ u. u.id == user_id) (update_where (λ u. u.id == user_id) change rows)
      ≡ Option.map change (find (λ u. u.id == user_id) rows)
find-update_where user_id change kept [] = refl
find-update_where user_id change kept (u ∷ rows) = elim (Bool-cases (u.id == user_id)) [
  | inl mine ↦ rw mine (rw (kept u, mine) refl)
  | inr other ↦ rw (other, other) (find-update_where user_id change kept rows)
]

pub select_user-update_user :
    (user_id : String) (change : User → User)
    → ((u : User) → (change u).id ≡ u.id)
    → (db : Db)
    → select_user user_id (update_user user_id change db)
      ≡ Option.map change (select_user user_id db)
unfolding select_user update_user
select_user-update_user user_id change kept db = find-update_where user_id change kept db.users

select_user-insert_audit :
    (user_id : String) (row : AuditRow) (db : Db)
    → select_user user_id (insert_audit row db) ≡ select_user user_id db
unfolding select_user insert_audit
select_user-insert_audit user_id row db = refl

select_user-delete_identities :
    (user_id other : String) (db : Db)
    → select_user user_id (delete_identities other db) ≡ select_user user_id db
unfolding select_user delete_identities
select_user-delete_identities user_id other db = refl

status_of_map :
    (change : User → User) (status : String)
    → ((u : User) → (change u).status ≡ status)
    → (o : Option User) (user : User) → Option.map change o ≡ some user
    → user.status ≡ status
status_of_map change status sets none user e = cc
status_of_map change status sets (some u) user e =
    let same : change u ≡ user = cc in ap (λ v. v.status) (sym same) ∙ sets u

module _ (K : KvNamespace) where
  -- A database in which the user's row has another status signs the user in no more.
  barred :
      (user_id status : String) (later : ℕ) (cookie : Option String) (w w' : World K)
      (vars : HonoVars)
      → ((user : User) → select_user user_id w.db ≡ some user → user.status ≡ status)
      → "active" ≢ status
      → session_middleware later cookie w ≡ (w', returned vars)
      → has_user vars ≡ true
      → vars.user_id ≢ some user_id
  barred user_id status later cookie w w' vars has_status differ e named mine =
      let admission = session_middleware-IsSignedIn K later cookie w w' vars e named in
      let same : admission.session.user_id ≡ user_id =
        cc (sym (ap (λ v. v.user_id) admission.sets) ∙ mine) in
      let stored = subst (λ i. select_user i w.db ≡ some admission.user) same admission.stored in
      differ (sym admission.active ∙ has_status admission.user stored)

  suspended_row :
      (now : ℕ) (r : AdminRequest) (w w' : World K)
      → w'.db
        ≡ insert_audit
            (action_row now r "user.suspend" none)
            (update_user r.target_id (set_status "suspended" now) w.db)
      → (user : User) → select_user r.target_id w'.db ≡ some user
      → user.status ≡ "suspended"
  suspended_row now r w w' db user found =
      status_of_map (set_status "suspended" now) "suspended" (λ u. refl)
        (select_user r.target_id w.db) user
        (sym (select_user-update_user r.target_id (set_status "suspended" now) (λ u. refl) w.db)
          ∙ sym (ap (λ d. select_user r.target_id d) db ∙ select_user-insert_audit r.target_id _ _)
          ∙ found)

  deleted_row :
      (now : ℕ) (r : AdminRequest) (w w' : World K)
      → w'.db
        ≡ insert_audit
            (action_row now r "user.delete" none)
            (delete_identities r.target_id (update_user r.target_id (anonymise now) w.db))
      → (user : User) → select_user r.target_id w'.db ≡ some user
      → user.status ≡ "deleted"
  deleted_row now r w w' db user found =
      status_of_map (anonymise now) "deleted" (λ u. refl) (select_user r.target_id w.db) user
        (sym (select_user-update_user r.target_id (anonymise now) (λ u. refl) w.db)
          ∙ sym (
              ap (λ d. select_user r.target_id d) db
              ∙ select_user-insert_audit r.target_id _ _
              ∙ select_user-delete_identities r.target_id r.target_id _)
          ∙ found)

  -- In the state that a suspension answered with success left, no request signs the user in,
  -- whatever cookie it brings and whenever it comes.
  pub suspend-bars :
      (now : ℕ) (r : AdminRequest) (w w' : World K) (response : Response)
      → suspend now r w ≡ (w', returned response)
      → (later : ℕ) (cookie : Option String) (seen : World K) (vars : HonoVars)
      → session_middleware later cookie w' ≡ (seen, returned vars)
      → has_user vars ≡ true
      → vars.user_id ≢ some r.target_id
  suspend-bars now r w w' response e later cookie seen vars =
      barred r.target_id "suspended" later cookie w' seen vars
        (suspended_row now r w w' (suspend-returned K now r w w' e).1) (λ q. cc)

  -- In the state that a deletion answered with success left, no request signs the user in,
  -- whatever cookie it brings and whenever it comes.
  pub soft_delete-bars :
      (now : ℕ) (r : AdminRequest) (w w' : World K) (response : Response)
      → soft_delete now r w ≡ (w', returned response)
      → (later : ℕ) (cookie : Option String) (seen : World K) (vars : HonoVars)
      → session_middleware later cookie w' ≡ (seen, returned vars)
      → has_user vars ≡ true
      → vars.user_id ≢ some r.target_id
  soft_delete-bars now r w w' response e later cookie seen vars =
      barred r.target_id "deleted" later cookie w' seen vars
        (deleted_row now r w w' (soft_delete-returned K now r w w' e).1) (λ q. cc)

  -- A deletion that was answered with success leaves no identity row of the user.
  pub soft_delete-unlinks :
      (now : ℕ) (r : AdminRequest) (w w' : World K) (response : Response)
      → soft_delete now r w ≡ (w', returned response)
      → All (λ (i : Identity). i.user_id ≢ r.target_id) w'.db.identities
  unfolding insert_audit delete_identities update_user
  soft_delete-unlinks now r w w' response e =
      subst (λ d. All (λ (i : Identity). i.user_id ≢ r.target_id) d.identities)
        (sym (soft_delete-returned K now r w w' e).1)
        (delete_where-All r.target_id (λ (i : Identity). i.user_id) w.db.identities)
