-- ===== src/SignIn/Callback/Steps.antt =====
-- What each step of the callback leaves, when it goes on.
use simtrader.Base.{
  ℕ, String, ◌==◌, eq_iff, Option, none, some, returned, rejected, thrown, ◌≡◌, sym, ap, ◌∙◌, not,
  truthy_text, true, ltb, ◌+◌, eq_refl, refl, arith, Bool-cases, inl, inr, is_some, whole,
}
use simtrader.Json.{Json, num}
use simtrader.Http.{Response, ensure, continue-eq-returned, ensure-returned}
use simtrader.Kv.{KvNamespace}
use simtrader.World.{World, kv, kv-returned, kv-jwks, sql-returned}
use simtrader.Database.Accounts.{insert_audit}
use simtrader.Audit.{AuditParams, audit_row, write_audit}
use simtrader.Issuers.{Env}
use simtrader.Jwt.{Runtime, IssuerConfig, IdTokenClaims}
use simtrader.Jwt.Verify.{VerifyResult, verify_id_token}
use simtrader.Session.{
  SessionData, write_entry, write_list, create_session, session_key, encode_session,
  session_ttl_seconds,
}
use simtrader.Session.Lookup.{get-create_session}
use simtrader.SignIn.{
  FlowState, configured, flow_key, decode_flow, read_flow, drop_flow, flow_or_expired, consume_flow,
}
use simtrader.SignIn.Accounts.{Account}
use simtrader.SignIn.Callback.{
  CallbackRequest, as_text, id_token_options, claims_or_refusal, config_or_unconfigured, verify,
  guard_replay, claim_jti, read_jti, remember_jti, jti_key, jti_ttl, new_session, store_session,
  signed_in_response, finish, check_request,
}

module _ (K : KvNamespace) where
  flow_or_expired-returned :
      (found : Option Json) (w w' : World K) {stored : Json}
      → flow_or_expired found w ≡ (w', returned stored)
      → (found ≡ some stored) × (w' ≡ w)
  flow_or_expired-returned none w w' e = absurd (cc (ap (λ p. p.1) e))
  flow_or_expired-returned (some v) w w' e = (cc (ap (λ p. p.1) e), sym (ap (λ p. p.0) e))

  pub config-returned :
      (issuer : Option IssuerConfig) (w w' : World K) {config : IssuerConfig}
      → config_or_unconfigured issuer w ≡ (w', returned config)
      → (issuer ≡ some config) × (w' ≡ w)
  config-returned none w w' e = absurd (cc (ap (λ p. p.1) e))
  config-returned (some c) w w' e = (cc (ap (λ p. p.1) e), sym (ap (λ p. p.0) e))

  -- The flow was stored under the state, and is not any more.
  pub consume_flow-returned :
      (now : ℕ) (state : String) (w w' : World K) {flow : FlowState}
      → consume_flow now state w ≡ (w', returned flow)
      → ((stored : Json) × (K.get w.kv now (flow_key state) ≡ some stored)
          × (flow ≡ decode_flow stored))
        × (w'.kv ≡ K.delete (flow_key state) w.kv)
  unfolding consume_flow read_flow drop_flow
  consume_flow-returned now state w w' e =
      let reads : K.Store → K.Store × Option Json = λ s. (s, K.get s now (flow_key state)) in
      let (w1, found, h1, e1) = continue-eq-returned (kv reads w) _ e in
      let (kv1, value, db1) = kv-returned reads w w1 found h1 in
      let (w2, stored, h2, e2) = continue-eq-returned (flow_or_expired found w1) _ e1 in
      let (is_stored, same) = flow_or_expired-returned found w1 w2 h2 in
      let drops : K.Store → K.Store × Unit {0} = λ s. (K.delete (flow_key state) s, tt) in
      let (w3, u3, h3, e3) = continue-eq-returned (kv drops w2) _ e2 in
      let (kv3, value3, db3) = kv-returned drops w2 w3 u3 h3 in
      (
        (stored, sym value ∙ is_stored, sym (cc (ap (λ p. p.1) e3))),
        ap (λ v. v.kv) (sym (ap (λ p. p.0) e3))
            ∙ kv3
            ∙ ap (λ s. K.delete (flow_key state) s) (ap (λ v. v.kv) same ∙ kv1),
      )

  claims_of_result :
      (result : VerifyResult) {claims : IdTokenClaims}
      → claims_or_refusal result ≡ returned claims
      → result ≡ returned claims
  claims_of_result (returned claims) e = cc
  claims_of_result (rejected failure) e = cc
  claims_of_result thrown e = cc

  pub verify-returned :
      (r : Runtime) (config : IssuerConfig) (id_token : String) (flow : FlowState) (w w' : World K)
      {claims : IdTokenClaims}
      → verify r config id_token flow w ≡ (w', returned claims)
      → ((verify_id_token r w.jwks id_token config (id_token_options flow)).1 ≡ returned claims)
        × (w'.db ≡ w.db)
  unfolding verify
  verify-returned r config id_token flow w w' e =
      (claims_of_result _ (ap (λ p. p.1) e), ap (λ p. p.0.db) (sym e))

  audit-kv :
      (now : ℕ) (p : AuditParams) (w w' : World K) {u : Unit {0}}
      → write_audit now p w ≡ (w', returned u)
      → w'.kv ≡ w.kv
  unfolding write_audit
  audit-kv now p w w' {u} e =
      (sql-returned (λ db. (insert_audit (audit_row now p) db, tt)) w w' u e).2

  store-returned :
      (now : ℕ) (token : String) (session : SessionData) (w w' : World K) {u : Unit {0}}
      → store_session now token session w ≡ (w', returned u)
      → w'.kv ≡ create_session K w.kv now token session
  unfolding store_session create_session
  store-returned now token session w w' {u} e =
      let entry : K.Store → K.Store × Unit {0} = λ s. (write_entry K s now token session, tt) in
      let list : K.Store → K.Store × Unit {0} = λ s. (write_list K s now token session, tt) in
      let (w1, u1, h1, e1) = continue-eq-returned (kv entry w) _ e in
      (kv-returned list w1 w' u e1).0
      ∙ ap (λ s. write_list K s now token session) (kv-returned entry w w1 u1 h1).0

  pub finish-returned :
      (now : ℕ) (token : String) (q : CallbackRequest) (flow : FlowState) (claims : IdTokenClaims)
      (account : Account) (w w' : World K) {response : Response}
      → finish now token q flow claims account w ≡ (w', returned response)
      → (account.status ≡ "active")
        × (w'.kv ≡ create_session K w.kv now token (new_session account claims))
        × (response ≡ signed_in_response token flow account)
  unfolding finish
  finish-returned now token q flow claims account w w' e =
      let (w1, u1, h1, e1) = continue-eq-returned (ensure (account.status == "active") _ w) _ e in
      let (active, same) = ensure-returned _ _ w w1 h1 in
      let (w2, u2, h2, e2) = continue-eq-returned (write_audit now _ w1) _ e1 in
      let (w3, u3, h3, e3) =
        continue-eq-returned (store_session now token (new_session account claims) w2) _ e2 in
      (
        (eq_iff account.status "active").0 active,
        ap (λ v. v.kv) (sym (ap (λ p. p.0) e3))
            ∙ store-returned now token _ w2 w3 h3
            ∙ ap (λ s. create_session K s now token (new_session account claims))
                (audit-kv now _ w1 w2 h2 ∙ ap (λ v. v.kv) same),
        sym (cc (ap (λ p. p.1) e3)),
      )

  pub check_request-same :
      (env : Env) (q : CallbackRequest) (w w' : World K) {u : Unit {0}}
      → check_request env q w ≡ (w', returned u)
      → w' ≡ w
  unfolding check_request
  check_request-same env q w w' e =
      let (w1, u1, h1, e1) = continue-eq-returned (ensure (configured env) _ w) _ e in
      let (w2, u2, h2, e2) =
        continue-eq-returned (ensure (not (truthy_text (as_text q.error))) _ w1) _ e1 in
      (ensure-returned _ _ w2 w' e2).1
      ∙ (ensure-returned _ _ w1 w2 h2).1
      ∙ (ensure-returned _ _ w w1 h1).1

  kv-alike :
      {A : Type 0} (run : K.Store → K.Store × A) (w w' : World K) (a : A)
      → kv run w ≡ (w', returned a)
      → (w'.db ≡ w.db) × (w'.jwks ≡ w.jwks)
  kv-alike run w w' a e = ((kv-returned run w w' a e).2, ap (λ p. p.0.jwks) (sym e) ∙ kv-jwks run w)

  pub consume_flow-alike :
      (now : ℕ) (state : String) (w w' : World K) {flow : FlowState}
      → consume_flow now state w ≡ (w', returned flow)
      → (w'.db ≡ w.db) × (w'.jwks ≡ w.jwks)
  unfolding consume_flow read_flow drop_flow
  consume_flow-alike now state w w' e =
      let reads : K.Store → K.Store × Option Json = λ s. (s, K.get s now (flow_key state)) in
      let (w1, found, h1, e1) = continue-eq-returned (kv reads w) _ e in
      let (db1, jwks1) = kv-alike reads w w1 found h1 in
      let (w2, stored, h2, e2) = continue-eq-returned (flow_or_expired found w1) _ e1 in
      let (is_stored, same) = flow_or_expired-returned found w1 w2 h2 in
      let drops : K.Store → K.Store × Unit {0} = λ s. (K.delete (flow_key state) s, tt) in
      let (w3, u3, h3, e3) = continue-eq-returned (kv drops w2) _ e2 in
      let (db3, jwks3) = kv-alike drops w2 w3 u3 h3 in
      (
        ap (λ p. p.0.db) (sym e3) ∙ db3 ∙ ap (λ v. v.db) same ∙ db1,
        ap (λ p. p.0.jwks) (sym e3) ∙ jwks3 ∙ ap (λ v. v.jwks) same ∙ jwks1,
      )

  pub guard_replay-db :
      (now : ℕ) (issuer : String) (claims : IdTokenClaims) (w w' : World K) {u : Unit {0}}
      → guard_replay now issuer claims w ≡ (w', returned u)
      → w'.db ≡ w.db
  unfolding guard_replay claim_jti read_jti remember_jti
  guard_replay-db now issuer claims w w' {u} e =
      elim (Bool-cases (truthy_text (as_text claims.jti))) [
        | inr absent ↦ let e1 = rw absent at e in ap (λ p. p.0.db) (sym e1)
        | inl given ↦
            let key = jti_key issuer (as_text claims.jti) in
            let reads : K.Store → K.Store × Option Json = λ s. (s, K.get s now key) in
            let writes : K.Store → K.Store × Unit {0} =
              λ s. (K.put key (num (whole 1)) (some (jti_ttl now claims)) now s, tt) in
            let e1 = rw given at e in
            let (w1, found, h1, e2) = continue-eq-returned (kv reads w) _ e1 in
            let (w2, u2, h2, e3) = continue-eq-returned (ensure (not (is_some found)) _ w1) _ e2 in
            (kv-alike writes w2 w' u e3).0
            ∙ ap (λ v. v.db) (ensure-returned _ _ w1 w2 h2).1
            ∙ (kv-alike reads w w1 found h1).0
      ]

  pub session-found :
      (s : K.Store) (now : ℕ) (token : String) (d : SessionData)
      → K.get (create_session K s now token d) now (session_key token) ≡ some (encode_session d)
  session-found s now token d =
      let live : ltb now (now + session_ttl_seconds) ≡ true = ground arith in
      get-create_session K s now now token token d ∙ rw (eq_refl token, live) refl
