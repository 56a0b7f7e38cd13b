-- ===== src/SignIn/Callback/Once.antt =====
-- A state is good for one sign-in: the callback consumes the flow, and nothing that it does later
-- brings the flow back.
use simtrader.Base.{
  ℕ, ◌/◌, String, Bool-cases, inl, inr, Option, none, some, truthy_text, Exec, returned, ◌≡◌, ◌≢◌,
  refl, sym, ap, ◌∙◌, subst,
}
use simtrader.Json.{Json}
use simtrader.Http.{Response, continue-eq-returned}
use simtrader.Kv.{KvNamespace}
use simtrader.World.{World}
use simtrader.Database.{User}
use simtrader.Audit.{write_audit}
use simtrader.Issuers.{Env, budgetapp_issuer}
use simtrader.Jwt.{Runtime, IssuerConfig, IdTokenClaims}
use simtrader.Events.Route.{find_user_id}
use simtrader.SignIn.{Web, TokenEndpoint, FlowState, flow_key, exchange_code, consume_flow}
use simtrader.SignIn.Accounts.{
  Account, change_db, row_or_missing, refresh_account, provision_account, account_of,
  find_or_provision,
}
use simtrader.SignIn.Callback.{
  CallbackRequest, as_text, config_or_unconfigured, verify, read_jti, remember_jti, claim_jti,
  guard_replay, new_session, store_session, finish, check_request, callback,
}
use simtrader.SignIn.Callback.Steps.{consume_flow-returned}
use simtrader.SignIn.Callback.SignedIn.{callback-IsSignIn}
use simtrader.SignIn.Callback.Spent.{
  jti_key-ne-flow_key, IsSpent, put-IsSpent, delete-IsSpent, write_entry-IsSpent,
  write_list-IsSpent, Keeps, then-Keeps, sql-Keeps, kv-Keeps, ensure-Keeps, lift-Keeps, give-Keeps,
}

some-ne-none : {v : Json} → some v ≢ none
some-ne-none e = cc

module _ (K : KvNamespace) (state : String) where
  audit-Keeps : (now : ℕ) (p : _) → Keeps K state (write_audit now p)
  unfolding write_audit
  audit-Keeps now p = sql-Keeps K state _

  verify-Keeps :
      (r : Runtime) (config : IssuerConfig) (id_token : String) (flow : FlowState)
      → Keeps K state (verify r config id_token flow)
  unfolding verify
  verify-Keeps r config id_token flow = record { keeps = λ w spent. spent }

  config-Keeps : (issuer : Option IssuerConfig) → Keeps K state (config_or_unconfigured issuer)
  config-Keeps none = record { keeps = λ w spent. spent }
  config-Keeps (some config) = record { keeps = λ w spent. spent }

  claim_jti-Keeps :
      (now : ℕ) (issuer : String) (claims : IdTokenClaims) (jti : String)
      → Keeps K state (claim_jti now issuer claims jti)
  unfolding claim_jti read_jti remember_jti
  claim_jti-Keeps now issuer claims jti =
      then-Keeps K state _ _ (kv-Keeps K state _ (λ s spent. spent)) (λ found.
        then-Keeps K state _ _ (ensure-Keeps K state _ _) (λ u.
          kv-Keeps K state _
            (λ s. put-IsSpent K state _ _ _ now s (jti_key-ne-flow_key issuer jti state))))

  guard_replay-Keeps :
      (now : ℕ) (issuer : String) (claims : IdTokenClaims)
      → Keeps K state (guard_replay now issuer claims)
  unfolding guard_replay
  guard_replay-Keeps now issuer claims = elim (Bool-cases (truthy_text (as_text claims.jti))) [
    | inl given ↦ rw given (claim_jti-Keeps now issuer claims (as_text claims.jti))
    | inr absent ↦ rw absent (give-Keeps K state tt)
  ]

  module _ (now : ℕ) (new_id : String) (claims : IdTokenClaims) where
    row-Keeps : (row : Option User) → Keeps K state (row_or_missing now new_id claims row)
    row-Keeps none = record { keeps = λ w spent. spent }
    row-Keeps (some user) = record { keeps = λ w spent. spent }

    account_of-Keeps : (found : Option String) → Keeps K state (account_of now new_id claims found)
    unfolding refresh_account provision_account change_db
    account_of-Keeps none = then-Keeps K state _ _ (sql-Keeps K state _) (λ u.
        then-Keeps K state _ _ (sql-Keeps K state _)
          (λ u. then-Keeps K state _ _ (audit-Keeps now _) (λ u. give-Keeps K state _)))
    account_of-Keeps (some user_id) = then-Keeps K state _ _ (sql-Keeps K state _) (λ row.
        then-Keeps K state _ _ (row-Keeps row) (λ user.
          then-Keeps K state _ _ (sql-Keeps K state _)
            (λ u. then-Keeps K state _ _ (sql-Keeps K state _) (λ u. give-Keeps K state _))))

    find_user_id-Keeps : (sub : Option String) → Keeps K state (find_user_id claims.iss sub)
    unfolding find_user_id
    find_user_id-Keeps none = record { keeps = λ w spent. spent }
    find_user_id-Keeps (some sub) = sql-Keeps K state _

    find_or_provision-Keeps : Keeps K state (find_or_provision now new_id claims)
    unfolding find_or_provision
    find_or_provision-Keeps =
        then-Keeps K state _ _ (find_user_id-Keeps claims.sub) account_of-Keeps

  finish-Keeps :
      (now : ℕ) (token : String) (q : CallbackRequest) (flow : FlowState) (claims : IdTokenClaims)
      (account : Account)
      → Keeps K state (finish now token q flow claims account)
  unfolding finish store_session
  finish-Keeps now token q flow claims account =
      then-Keeps K state _ _ (ensure-Keeps K state _ _) (λ u.
        then-Keeps K state _ _ (audit-Keeps now _) (λ u.
          then-Keeps K state _ _
            (then-Keeps K state _ _
              (kv-Keeps K state _
                (λ s. write_entry-IsSpent K state s now token (new_session account claims)))
              (λ u.
                kv-Keeps K state _
                  (λ s. write_list-IsSpent K state s now token (new_session account claims))))
            (λ u. give-Keeps K state _)))

  -- A callback that answers with a session has consumed its flow for good.
  callback-IsSpent :
      (r : Runtime) (web : Web) (endpoint : TokenEndpoint) (env : Env) (new_id token : String)
      (q : CallbackRequest) (w w' : World K) {response : Response}
      → as_text q.state ≡ state
      → callback r web endpoint env new_id token q w ≡ (w', returned response)
      → IsSpent K state w'.kv
  unfolding callback
  callback-IsSpent r web endpoint env new_id token q w w' named e =
      let now = r.now_ms / 1000 in
      let (w1, u1, h1, e1) = continue-eq-returned (check_request env q w) _ e in
      let (w2, flow, h2, e2) = continue-eq-returned (consume_flow now (as_text q.state) w1) _ e1 in
      let dropped = (consume_flow-returned K now (as_text q.state) w1 w2 h2).1 in
      let spent : IsSpent K state w2.kv =
        subst (λ s. IsSpent K state s)
          (ap (λ k. K.delete (flow_key k) w1.kv) (sym named) ∙ sym dropped)
          (delete-IsSpent K state w1.kv) in
      let rest =
        then-Keeps K state _ _
          (lift-Keeps K state (exchange_code web endpoint env (as_text q.code) flow))
          (λ id_token.
            then-Keeps K state _ _ (lift-Keeps K state (budgetapp_issuer web.resolve env))
              (λ issuer. then-Keeps K state _ _ (config-Keeps issuer) (λ config.
                then-Keeps K state _ _ (verify-Keeps r config id_token flow) (λ claims.
                  then-Keeps K state _ _ (guard_replay-Keeps now config.issuer claims) (λ u.
                    then-Keeps K state _ _ (find_or_provision-Keeps now new_id claims)
                      (λ account. finish-Keeps now token q flow claims account)))))) in
      subst (λ (p : World K × Exec Response Response). IsSpent K state p.0.kv) e2
        (rest.keeps w2 spent)

-- Once a callback has answered with a session, no callback with the same state does so again,
-- at any time and whatever the token endpoint and the database say, as long as the namespace is
-- as that callback left it.
pub callback-once :
    (K : KvNamespace) (r later : Runtime) (web : Web) (endpoint other : TokenEndpoint) (env : Env)
    (new_id other_id token other_token : String) (q again : CallbackRequest) (w w' w2 w3 : World K)
    (response second : Response)
    → callback r web endpoint env new_id token q w ≡ (w', returned response)
    → as_text again.state ≡ as_text q.state
    → w2.kv ≡ w'.kv
    → callback later web other env other_id other_token again w2 ≢ (w3, returned second)
callback-once K r later web endpoint other env new_id other_id token other_token q again w w' w2 w3
      response second e same_state same_kv e' =
    let spent =
      callback-IsSpent K (as_text q.state) r web endpoint env new_id token q w w' refl e in
    let started =
      callback-IsSignIn K later web other env other_id other_token again w2 w3 second e' in
    let found : K.get w'.kv (later.now_ms / 1000) (flow_key (as_text q.state))
        ≡ some started.stored =
      subst (λ s. K.get s (later.now_ms / 1000) (flow_key (as_text q.state)) ≡ some started.stored)
        same_kv
        (subst (λ k. K.get w2.kv (later.now_ms / 1000) (flow_key k) ≡ some started.stored)
          same_state started.started) in
    some-ne-none (sym found ∙ spent (later.now_ms / 1000))
