-- ===== src/Research/EngineKeys/Revocation.antt =====
-- A key that was created is stored as its hash, and a key that was revoked opens nothing.
use simtrader.Base.{
  ℕ, String, eq_iff, false, Bool-cases, inl, inr, Option, none, some, List, [], ◌∷◌, All, In,
  returned, ◌≡◌, ◌≢◌, sym, ap, ◌∙◌, subst, arith,
}
use simtrader.Http.{Response, continue-eq-returned}
use simtrader.Kv.{KvNamespace}
use simtrader.World.{World, sql, sql-returned}
use simtrader.Database.{EngineKey, update_where}
use simtrader.Database.Accounts.{insert_audit}
use simtrader.Audit.{AuditParams, audit_row, write_audit}
use simtrader.Issuers.{Env, UrlResolver}
use simtrader.Jwt.{Runtime}
use simtrader.Access.{HonoVars}
use simtrader.Research.{Principal, require_research_auth}
use simtrader.Research.Admission.{require_research-IsAdmitted}
use simtrader.Research.EngineKeys.{
  KeyRequest, is_live_key, revoke_live, key_or_missing, audit_key, revoke_key,
}

-- No row with this id is unrevoked.
abbrev pub IsRevoked : String → List EngineKey → Type 0
IsRevoked id keys = All (λ k. is_live_key id k ≡ false) keys

revoke-IsRevoked :
    (now : ℕ) (id : String) (keys : List EngineKey)
    → IsRevoked id (update_where (is_live_key id) (λ k. record k { revoked_at = some now }) keys)
revoke-IsRevoked now id [] = tt
revoke-IsRevoked now id (k ∷ keys) = elim (Bool-cases (is_live_key id k)) [
  | inl live ↦ rw live (ground arith, revoke-IsRevoked now id keys)
  | inr other ↦ rw other (other, revoke-IsRevoked now id keys)
]

All-In {ℓ κ} : {A : Type ℓ} (P : A → Type κ) (a : A) (xs : List A) → All P xs → In a xs → P a
All-In P a [] h i = elim i [ ]
All-In P a (x ∷ xs) h (inl same) = subst P same h.0
All-In P a (x ∷ xs) h (inr later) = All-In P a xs h.1 later

module _ (K : KvNamespace) where
  -- An audit row changes no key.
  pub audit_key-keys :
      (now : ℕ) (q : KeyRequest) (action : String) (detail : _) (w w' : World K) {u : Unit {0}}
      → audit_key now q action detail w ≡ (w', returned u)
      → w'.db.engine_api_keys ≡ w.db.engine_api_keys
  unfolding audit_key write_audit insert_audit
  audit_key-keys now q action detail w w' {u} e =
      let p : AuditParams = record {
        actor_id = q.actor_id;
        target_user_id = none;
        action = action;
        detail = some detail;
        ip_address = q.connecting_ip;
      } in
      ap (λ d. d.engine_api_keys)
        (sql-returned (λ db. (insert_audit (audit_row now p) db, tt)) w w' u e).0

  key-returned :
      (row : Option EngineKey) (w w' : World K) {key : EngineKey}
      → key_or_missing row w ≡ (w', returned key)
      → w' ≡ w
  key-returned none w w' e = absurd (cc (ap (λ p. p.1) e))
  key-returned (some k) w w' e = sym (ap (λ p. p.0) e)

  revoke_key-IsRevoked :
      (now : ℕ) (q : KeyRequest) (id : String) (w w' : World K) {response : Response}
      → revoke_key now q id w ≡ (w', returned response)
      → IsRevoked id w'.db.engine_api_keys
  unfolding revoke_key revoke_live
  revoke_key-IsRevoked now q id w w' e =
      let (w1, row, h1, e1) = continue-eq-returned (sql (revoke_live now id) w) _ e in
      let (db1, value, kv1) = sql-returned (revoke_live now id) w w1 row h1 in
      let (w2, key, h2, e2) = continue-eq-returned (key_or_missing row w1) _ e1 in
      let same2 = key-returned row w1 w2 h2 in
      let (w3, u3, h3, e3) = continue-eq-returned (audit_key now q _ _ w2) _ e2 in
      subst (IsRevoked id)
        (sym (
          ap (λ p. p.0.db.engine_api_keys) (sym e3)
          ∙ audit_key-keys now q _ _ w2 w3 h3
          ∙ ap (λ v. v.db.engine_api_keys) same2
          ∙ ap (λ d. d.engine_api_keys) db1))
        (revoke-IsRevoked now id w.db.engine_api_keys)

  other_key :
      (id : String) (k : EngineKey) → k.revoked_at ≡ none → is_live_key id k ≡ false → k.id ≢ id
  other_key id k unrevoked dead mine =
      let dead' = rw unrevoked at dead in ground (arith, eq_iff k.id id, dead', mine)

  -- In the state that a revocation answered with success left, no bearer is admitted by that
  -- key.
  pub revoke_key-bars :
      (now : ℕ) (q : KeyRequest) (id : String) (w w' : World K) (response : Response)
      → revoke_key now q id w ≡ (w', returned response)
      → (r : Runtime) (resolve : UrlResolver) (env : Env) (hash : String → String) (vars : HonoVars)
        (header : Option String) (seen : World K) (p : Principal)
      → require_research_auth r resolve env hash vars header w' ≡ (seen, returned p)
      → p.api_key_id ≢ some id
  revoke_key-bars now q id w w' response e r resolve env hash vars header seen p admitted mine =
      elim (require_research-IsAdmitted K r resolve env hash vars header w' seen p admitted) [
        | inl holder ↦
            other_key id holder.key holder.unrevoked
              (All-In _ holder.key w'.db.engine_api_keys (revoke_key-IsRevoked now q id w w' e)
                holder.stored)
              (cc (sym (ap (λ v. v.api_key_id) holder.sets) ∙ mine))
        | inr member ↦ absurd (cc (sym (ap (λ v. v.api_key_id) member.account.sets) ∙ mine))
      ]
