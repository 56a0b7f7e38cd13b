-- ===== src/Admin/Effects.antt =====
-- What an action that was answered with success did.
use simtrader.Base.{
  ℕ, String, Bool, true, false, not, Option, none, some, ◌∷◌, or_else, returned, ◌≡◌, refl, sym, ap,
  ap₂, ◌∙◌,
}
use simtrader.Json.{Json, as_string, truthy}
use simtrader.Http.{
  Response, ◌>>◌, give, ensure, lift, continue-eq-returned, ensure-returned, lift-returned,
}
use simtrader.Kv.{KvNamespace}
use simtrader.World.{World, sql, kv, sql-returned, kv-returned}
use simtrader.Database.{Db, AuditRow}
use simtrader.Database.Accounts.{
  select_user, update_user, delete_identities, expire_saxo_tokens, insert_audit,
}
use simtrader.Session.{destroy_all_user_sessions}
use simtrader.Audit.{audit_row, write_audit}
use simtrader.Admin.{
  AdminRequest, AdminAction, suspension, unsuspension, role_change, token_expiry, deletion, perform,
  get_ip, is_self, set_status, set_role, anonymise, role_detail, is_known_role, read_role,
  read_confirm, run, end_sessions, audit, suspend, unsuspend, change_role, expire_token,
  soft_delete, ok_response,
}

-- The row that records an action: who did what to whom, from where.
abbrev pub action_row : ℕ → AdminRequest → String → Option Json → AuditRow
action_row now r action detail = audit_row now (record {
  actor_id = r.actor_id;
  target_user_id = some r.target_id;
  action = action;
  detail = detail;
  ip_address = some (get_ip r);
})

not-true : (b : Bool) → not b ≡ true → b ≡ false
not-true true h = cc
not-true false h = refl

module _ (K : KvNamespace) (now : ℕ) (r : AdminRequest) where
  run-returned :
      (change : Db → Db) (w w' : World K) {u : Unit {0}}
      → run now r change w ≡ (w', returned u)
      → (w'.db ≡ change w.db) × (w'.kv ≡ w.kv)
  unfolding run
  run-returned change w w' {u} e =
      let (db, value, kv) = sql-returned (λ db. (change db, tt)) w w' u e in (db, kv)

  end_sessions-returned :
      (w w' : World K) {u : Unit {0}}
      → end_sessions now r w ≡ (w', returned u)
      → (w'.db ≡ w.db) × (w'.kv ≡ destroy_all_user_sessions K w.kv now r.target_id)
  unfolding end_sessions
  end_sessions-returned w w' {u} e =
      let (store, value, db) =
        kv-returned (λ s. (destroy_all_user_sessions K s now r.target_id, tt)) w w' u e in
      (db, store)

  -- The end that every action has.
  audit-returned :
      (action : String) (detail : Option Json) (w w' : World K) {response : Response}
      → (audit now r action detail >> give ok_response) w ≡ (w', returned response)
      → (w'.db ≡ insert_audit (action_row now r action detail) w.db)
        × (w'.kv ≡ w.kv)
        × (response ≡ ok_response)
  unfolding write_audit audit
  audit-returned action detail w w' e =
      let (last, u, audited, e1) = continue-eq-returned (audit now r action detail w) _ e in
      let (db, value, kv) =
        sql-returned (λ db. (insert_audit (action_row now r action detail) db, tt)) w last u
          audited in
      let same : last ≡ w' = ap (λ p. p.0) e1 in
      (ap (λ v. v.db) (sym same) ∙ db, ap (λ v. v.kv) (sym same) ∙ kv, sym (cc (ap (λ p. p.1) e1)))

  pub suspend-returned :
      (w w' : World K) {response : Response}
      → suspend now r w ≡ (w', returned response)
      → (is_self r ≡ false)
        × (w'.db
            ≡ insert_audit
                (action_row now r "user.suspend" none)
                (update_user r.target_id (set_status "suspended" now) w.db))
        × (w'.kv ≡ destroy_all_user_sessions K w.kv now r.target_id)
  unfolding suspend
  suspend-returned w w' e =
      let (w0, u0, h0, e0) = continue-eq-returned (ensure (not (is_self r)) _ w) _ e in
      let (other, same) = ensure-returned _ _ w w0 h0 in
      let (w1, u1, h1, e1) = continue-eq-returned (run now r _ w0) _ e0 in
      let (db1, kv1) = run-returned _ w0 w1 h1 in
      let (w2, u2, h2, e2) = continue-eq-returned (end_sessions now r w1) _ e1 in
      let (db2, kv2) = end_sessions-returned w1 w2 h2 in
      let (db3, kv3, ok) = audit-returned "user.suspend" none w2 w' e2 in
      (
        not-true (is_self r) other,
        db3
            ∙ ap (λ d. insert_audit (action_row now r "user.suspend" none) d)
                (db2
                  ∙ db1
                  ∙ ap (λ v. update_user r.target_id (set_status "suspended" now) v.db) same),
        kv3
            ∙ kv2
            ∙ ap (λ s. destroy_all_user_sessions K s now r.target_id) (kv1 ∙ ap (λ v. v.kv) same),
      )

  pub unsuspend-returned :
      (w w' : World K) {response : Response}
      → unsuspend now r w ≡ (w', returned response)
      → (w'.db
          ≡ insert_audit
              (action_row now r "user.unsuspend" none)
              (update_user r.target_id (set_status "active" now) w.db))
        × (w'.kv ≡ w.kv)
  unfolding unsuspend
  unsuspend-returned w w' e =
      let (w1, u1, h1, e1) = continue-eq-returned (run now r _ w) _ e in
      let (db1, kv1) = run-returned _ w w1 h1 in
      let (db2, kv2, ok) = audit-returned "user.unsuspend" none w1 w' e1 in
      (db2 ∙ ap (λ d. insert_audit (action_row now r "user.unsuspend" none) d) db1, kv2 ∙ kv1)

  pub expire_token-returned :
      (w w' : World K) {response : Response}
      → expire_token now r w ≡ (w', returned response)
      → (w'.db
          ≡ insert_audit
              (action_row now r "token.force_expire" none)
              (expire_saxo_tokens r.target_id now w.db))
        × (w'.kv ≡ w.kv)
  unfolding expire_token
  expire_token-returned w w' e =
      let (w1, u1, h1, e1) = continue-eq-returned (run now r _ w) _ e in
      let (db1, kv1) = run-returned _ w w1 h1 in
      let (db2, kv2, ok) = audit-returned "token.force_expire" none w1 w' e1 in
      (db2 ∙ ap (λ d. insert_audit (action_row now r "token.force_expire" none) d) db1, kv2 ∙ kv1)

  -- The new role is one of the two that there are, and the audit row says which it was before.
  pub change_role-returned :
      (w w' : World K) {response : Response}
      → change_role now r w ≡ (w', returned response)
      → (is_self r ≡ false)
        × ((role : Option Json) × (read_role r.body ≡ returned role)
            × (is_known_role role ≡ true)
            × (w'.db
                ≡ insert_audit
                    (action_row now r "user.role_change" (
                      some
                        (role_detail (select_user r.target_id w.db) (or_else (as_string role) ""))))
                    (update_user r.target_id (set_role (or_else (as_string role) "") now) w.db))
            × (w'.kv ≡ w.kv))
  unfolding change_role
  change_role-returned w w' e =
      let (w0, u0, h0, e0) = continue-eq-returned (ensure (not (is_self r)) _ w) _ e in
      let (other, same) = ensure-returned _ _ w w0 h0 in
      let (w1, role, h1, e1) = continue-eq-returned (lift (read_role r.body) w0) _ e0 in
      let (same1, read) = lift-returned (read_role r.body) w0 w1 h1 in
      let (w2, u2, h2, e2) = continue-eq-returned (ensure (is_known_role role) _ w1) _ e1 in
      let (known, same2) = ensure-returned _ _ w1 w2 h2 in
      let (w3, current, h3, e3) =
        continue-eq-returned (sql (λ db. (db, select_user r.target_id db)) w2) _ e2 in
      let (db3, value3, kv3) =
        sql-returned (λ db. (db, select_user r.target_id db)) w2 w3 current h3 in
      let (w4, u4, h4, e4) = continue-eq-returned (run now r _ w3) _ e3 in
      let (db4, kv4) = run-returned _ w3 w4 h4 in
      let (db5, kv5, ok) = audit-returned "user.role_change" _ w4 w' e4 in
      let start : w2 ≡ w = same2 ∙ same1 ∙ same in
      let to = or_else (as_string role) "" in
      (
        not-true (is_self r) other,
        (
          role,
          read,
          known,
          db5
              ∙ ap₂
                  (λ c d.
                    insert_audit (action_row now r "user.role_change" (some (role_detail c to))) d)
                  (value3 ∙ ap (λ v. select_user r.target_id v.db) start)
                  (db4
                    ∙ ap (λ d. update_user r.target_id (set_role to now) d)
                        (db3 ∙ ap (λ v. v.db) start)),
          kv5 ∙ kv4 ∙ kv3 ∙ ap (λ v. v.kv) start,
        ),
      )

  pub soft_delete-returned :
      (w w' : World K) {response : Response}
      → soft_delete now r w ≡ (w', returned response)
      → (is_self r ≡ false)
        × (w'.db
            ≡ insert_audit
                (action_row now r "user.delete" none)
                (delete_identities r.target_id (update_user r.target_id (anonymise now) w.db)))
        × (w'.kv ≡ destroy_all_user_sessions K w.kv now r.target_id)
  unfolding soft_delete
  soft_delete-returned w w' e =
      let (w0, u0, h0, e0) = continue-eq-returned (ensure (not (is_self r)) _ w) _ e in
      let (other, same) = ensure-returned _ _ w w0 h0 in
      let (w1, confirm, h1, e1) = continue-eq-returned (lift (read_confirm r.body) w0) _ e0 in
      let (same1, read) = lift-returned (read_confirm r.body) w0 w1 h1 in
      let (w2, u2, h2, e2) = continue-eq-returned (ensure (truthy confirm) _ w1) _ e1 in
      let (confirmed, same2) = ensure-returned _ _ w1 w2 h2 in
      let (w3, u3, h3, e3) = continue-eq-returned (run now r _ w2) _ e2 in
      let (db3, kv3) = run-returned _ w2 w3 h3 in
      let (w4, u4, h4, e4) = continue-eq-returned (run now r _ w3) _ e3 in
      let (db4, kv4) = run-returned _ w3 w4 h4 in
      let (w5, u5, h5, e5) = continue-eq-returned (end_sessions now r w4) _ e4 in
      let (db5, kv5) = end_sessions-returned w4 w5 h5 in
      let (db6, kv6, ok) = audit-returned "user.delete" none w5 w' e5 in
      let start : w2 ≡ w = same2 ∙ same1 ∙ same in
      (
        not-true (is_self r) other,
        db6
            ∙ ap (λ d. insert_audit (action_row now r "user.delete" none) d)
                (db5
                  ∙ db4
                  ∙ ap (λ d. delete_identities r.target_id d)
                      (db3 ∙ ap (λ v. update_user r.target_id (anonymise now) v.db) start)),
        kv6
            ∙ kv5
            ∙ ap (λ s. destroy_all_user_sessions K s now r.target_id)
                (kv4 ∙ kv3 ∙ ap (λ v. v.kv) start),
      )

-- The name under which an action is recorded.
abbrev pub action_name : AdminAction → String
action_name suspension = "user.suspend"
action_name unsuspension = "user.unsuspend"
action_name role_change = "user.role_change"
action_name token_expiry = "token.force_expire"
action_name deletion = "user.delete"

-- Every action that succeeds adds exactly one row to the audit log, which names the administrator,
-- the user, the action and the address, and it changes no older row.
pub perform-IsAudited :
    (K : KvNamespace) (action : AdminAction) (now : ℕ) (r : AdminRequest) (w w' : World K)
    (response : Response)
    → perform action now r w ≡ (w', returned response)
    → (detail : Option Json) × (w'.db.audit_log
        ≡ action_row now r (action_name action) detail ∷ w.db.audit_log)
unfolding insert_audit update_user delete_identities expire_saxo_tokens
perform-IsAudited K suspension now r w w' response e =
    (none, ap (λ d. d.audit_log) (suspend-returned K now r w w' e).1)
perform-IsAudited K unsuspension now r w w' response e =
    (none, ap (λ d. d.audit_log) (unsuspend-returned K now r w w' e).0)
perform-IsAudited K role_change now r w w' response e =
    let (other, change) = change_role-returned K now r w w' e in
    let (role, read, known, db, kv) = change in
    (
      some (role_detail (select_user r.target_id w.db) (or_else (as_string role) "")),
      ap (λ d. d.audit_log) db,
    )
perform-IsAudited K token_expiry now r w w' response e =
    (none, ap (λ d. d.audit_log) (expire_token-returned K now r w w' e).0)
perform-IsAudited K deletion now r w w' response e =
    (none, ap (λ d. d.audit_log) (soft_delete-returned K now r w w' e).1)
