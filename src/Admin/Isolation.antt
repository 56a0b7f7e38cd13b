-- ===== src/Admin/Isolation.antt =====
-- An action touches the row of no other user, however it ends.
use simtrader.Base.{
  String, ◌==◌, eq_iff, true, false, Bool, none, or_else, List, [], ◌∷◌, find, ◌≡◌, refl, sym, ◌∙◌,
  ◌≢◌, Bool-cases, inl, inr, returned, rejected, thrown, Exec, ℕ,
}
use simtrader.Json.{as_string}
use simtrader.Http.{Handler, Response, ◌>>=◌, continue, ensure, give, lift}
use simtrader.Kv.{KvNamespace}
use simtrader.World.{World, sql, kv, unless_fails, next_fails}
use simtrader.Database.{User, Db, update_where}
use simtrader.Database.Accounts.{
  select_user, update_user, insert_audit, delete_identities, expire_saxo_tokens,
}
use simtrader.Session.{destroy_all_user_sessions}
use simtrader.Audit.{write_audit}
use simtrader.Admin.{
  AdminRequest, AdminAction, suspension, unsuspension, role_change, token_expiry, deletion, perform,
  set_status, set_role, anonymise, read_role, read_confirm, run, end_sessions, audit, suspend,
  unsuspend, change_role, expire_token, soft_delete,
}

find-update_where_ne :
    (target user_id : String) (change : User → User)
    → ((u : User) → (change u).id ≡ u.id)
    → user_id ≢ target
    → (rows : List User)
    → find (λ u. u.id == user_id) (update_where (λ u. u.id == target) change rows)
      ≡ find (λ u. u.id == user_id) rows
find-update_where_ne target user_id change kept differ [] = refl
find-update_where_ne target user_id change kept differ (u ∷ rows) =
    let rest = find-update_where_ne target user_id change kept differ rows in
    elim (Bool-cases (u.id == target)) [
      | inr other ↦ rw (other, rest) refl
      | inl hit ↦ elim (Bool-cases (u.id == user_id)) [
        | inl mine ↦
            absurd (differ (sym ((eq_iff u.id user_id).0 mine) ∙ (eq_iff u.id target).0 hit))
        | inr others ↦ rw (hit, others, rest) (rw (kept u, others) refl)
      ]
    ]

module _ {K : KvNamespace} (user_id : String) where
  -- A computation that leaves what a lookup of the user finds.
  record Keeps {A : Type 0} (m : Handler (World K) A) : Type 0 where
    keeps : (w : World K) → select_user user_id (m w).0.db ≡ select_user user_id w.db

  continue-Keeps :
      {A B : Type 0} (w : World K) (p : World K × Exec Response A) (k : A → Handler (World K) B)
      → select_user user_id p.0.db ≡ select_user user_id w.db
      → ((a : A) → Keeps (k a))
      → select_user user_id (continue p k).0.db ≡ select_user user_id w.db
  continue-Keeps w (v, returned a) k first rest = (rest a).keeps v ∙ first
  continue-Keeps w (v, rejected e) k first rest = first
  continue-Keeps w (v, thrown) k first rest = first

  then-Keeps :
      {A B : Type 0} (m : Handler (World K) A) (k : A → Handler (World K) B)
      → Keeps m
      → ((a : A) → Keeps (k a))
      → Keeps (m >>= k)
  then-Keeps m k first rest = record { keeps = λ w. continue-Keeps w (m w) k (first.keeps w) rest }

  unless_fails-Keeps :
      {A : Type 0} (fails : Bool) (w failed : World K) (done : World K × A)
      → select_user user_id failed.db ≡ select_user user_id w.db
      → select_user user_id done.0.db ≡ select_user user_id w.db
      → select_user user_id (unless_fails fails failed done).0.db ≡ select_user user_id w.db
  unless_fails-Keeps true w failed (v, a) h1 h2 = h1
  unless_fails-Keeps false w failed (v, a) h1 h2 = h2

  sql-Keeps :
      {A : Type 0} (statement : Db → Db × A)
      → ((db : Db) → select_user user_id (statement db).0 ≡ select_user user_id db)
      → Keeps (sql statement)
  sql-Keeps statement h = record {
    keeps = λ w. unless_fails-Keeps (next_fails w.outages) w _ _ refl (h w.db);
  }

  kv-Keeps : {A : Type 0} (call : K.Store → K.Store × A) → Keeps (kv call)
  kv-Keeps call = record { keeps = λ w. unless_fails-Keeps (next_fails w.outages) w _ _ refl refl }

  ensure-Keeps : (b : Bool) (e : Response) → Keeps (ensure b e)
  ensure-Keeps true e = record { keeps = λ w. refl }
  ensure-Keeps false e = record { keeps = λ w. refl }

  lift-Keeps : {A : Type 0} (m : Exec Response A) → Keeps (lift m)
  lift-Keeps m = record { keeps = λ w. refl }

  give-Keeps : {A : Type 0} (a : A) → Keeps (give a)
  give-Keeps a = record { keeps = λ w. refl }

module _ {K : KvNamespace} (user_id : String) (now : ℕ) (r : AdminRequest)
    (differ : user_id ≢ r.target_id) where
  update-Keeps :
      (change : User → User)
      → ((u : User) → (change u).id ≡ u.id)
      → Keeps {K = K} user_id (run now r (update_user r.target_id change))
  unfolding run update_user select_user
  update-Keeps change kept =
      sql-Keeps user_id (λ db. (update_user r.target_id change db, tt))
        (λ db. find-update_where_ne r.target_id user_id change kept differ db.users)

  other-Keeps :
      Keeps {K = K} user_id (run now r (delete_identities r.target_id))
      × Keeps {K = K} user_id (run now r (expire_saxo_tokens r.target_id now))
  unfolding run delete_identities expire_saxo_tokens select_user
  other-Keeps = (
    sql-Keeps user_id (λ db. (delete_identities r.target_id db, tt)) (λ db. refl),
    sql-Keeps user_id (λ db. (expire_saxo_tokens r.target_id now db, tt)) (λ db. refl),
  )

  end-Keeps : Keeps {K = K} user_id (end_sessions now r)
  unfolding end_sessions
  end-Keeps = kv-Keeps user_id (λ s. (destroy_all_user_sessions K s now r.target_id, tt))

  audit-Keeps : (action : String) (detail : _) → Keeps {K = K} user_id (audit now r action detail)
  unfolding audit write_audit insert_audit select_user
  audit-Keeps action detail = sql-Keeps user_id _ (λ db. refl)

  suspend-Keeps : Keeps {K = K} user_id (suspend now r)
  unfolding suspend
  suspend-Keeps = then-Keeps user_id _ _ (ensure-Keeps user_id _ _) (λ u.
      then-Keeps user_id _ _ (update-Keeps (set_status "suspended" now) (λ u. refl)) (λ u.
        then-Keeps user_id _ _ end-Keeps (λ u.
          then-Keeps user_id _ _ (audit-Keeps "user.suspend" none) (λ u. give-Keeps user_id _))))

  unsuspend-Keeps : Keeps {K = K} user_id (unsuspend now r)
  unfolding unsuspend
  unsuspend-Keeps =
      then-Keeps user_id _ _ (update-Keeps (set_status "active" now) (λ u. refl)) (λ u.
        then-Keeps user_id _ _ (audit-Keeps "user.unsuspend" none) (λ u. give-Keeps user_id _))

  expire_token-Keeps : Keeps {K = K} user_id (expire_token now r)
  unfolding expire_token
  expire_token-Keeps = then-Keeps user_id _ _ other-Keeps.1 (λ u.
      then-Keeps user_id _ _ (audit-Keeps "token.force_expire" none) (λ u. give-Keeps user_id _))

  change_role-Keeps : Keeps {K = K} user_id (change_role now r)
  unfolding change_role
  change_role-Keeps = then-Keeps user_id _ _ (ensure-Keeps user_id _ _) (λ u.
      then-Keeps user_id (lift (read_role r.body)) _ (lift-Keeps user_id _) (λ role.
        then-Keeps user_id _ _ (ensure-Keeps user_id _ _) (λ u.
          then-Keeps user_id (sql (λ db. (db, select_user r.target_id db))) _
            (sql-Keeps user_id _ (λ db. refl))
            (λ current.
              then-Keeps user_id _ _
                (update-Keeps (set_role (or_else (as_string role) "") now) (λ u. refl))
                (λ u.
                  then-Keeps user_id _ _ (audit-Keeps "user.role_change" _)
                    (λ u. give-Keeps user_id _))))))

  soft_delete-Keeps : Keeps {K = K} user_id (soft_delete now r)
  unfolding soft_delete
  soft_delete-Keeps = then-Keeps user_id _ _ (ensure-Keeps user_id _ _) (λ u.
      then-Keeps user_id (lift (read_confirm r.body)) _ (lift-Keeps user_id _) (λ confirm.
        then-Keeps user_id _ _ (ensure-Keeps user_id _ _) (λ u.
          then-Keeps user_id _ _ (update-Keeps (anonymise now) (λ u. refl)) (λ u.
            then-Keeps user_id _ _ other-Keeps.0 (λ u. then-Keeps user_id _ _ end-Keeps (λ u.
              then-Keeps user_id _ _ (audit-Keeps "user.delete" none)
                (λ u. give-Keeps user_id _)))))))

  -- Whatever is done to one user, however the request ends, every other user's row is found
  -- as before.
  pub perform-isolated :
      (action : AdminAction) (w : World K)
      → select_user user_id (perform action now r w).0.db ≡ select_user user_id w.db
  perform-isolated suspension w = suspend-Keeps.keeps w
  perform-isolated unsuspension w = unsuspend-Keeps.keeps w
  perform-isolated role_change w = change_role-Keeps.keeps w
  perform-isolated token_expiry w = expire_token-Keeps.keeps w
  perform-isolated deletion w = soft_delete-Keeps.keeps w
