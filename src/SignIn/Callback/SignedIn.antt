-- ===== src/SignIn/Callback/SignedIn.antt =====
-- What stands behind a sign-in that the callback answers with a session.
use simtrader.Base.{
  ℕ, ◌/◌, String, ◌==◌, Option, some, returned, ◌≡◌, ap, ◌∙◌, subst, or_else, if◌then◌else◌,
}
use simtrader.Json.{Json}
use simtrader.Http.{Response, redirect, issued, lift, continue-eq-returned, lift-returned}
use simtrader.Kv.{KvNamespace}
use simtrader.World.{World}
use simtrader.Issuers.{Env, budgetapp_issuer}
use simtrader.Jwt.{Runtime, IssuerConfig, IdTokenClaims}
use simtrader.Jwt.Verify.{verify_id_token}
use simtrader.Session.{session_key, encode_session}
use simtrader.SignIn.Accounts.Standing.{IsAccountOf, find_or_provision-IsAccountOf}
use simtrader.SignIn.{
  Web, TokenEndpoint, FlowState, flow_key, decode_flow, exchange_code, consume_flow,
}
use simtrader.SignIn.Accounts.{Account, find_or_provision}
use simtrader.SignIn.Callback.{
  CallbackRequest, as_text, id_token_options, config_or_unconfigured, verify, guard_replay,
  destination, new_session, signed_in_response, finish, check_request, callback,
}
use simtrader.SignIn.Callback.Steps.{
  config-returned, consume_flow-returned, verify-returned, finish-returned, check_request-same,
  consume_flow-alike, guard_replay-db, session-found,
}

module _ (K : KvNamespace) where
  -- The sign-in that an answer with a session stands for.
  pub record IsSignIn (r : Runtime) (web : Web) (endpoint : TokenEndpoint) (env : Env)
      (new_id token : String) (q : CallbackRequest) (w w' : World K) (response : Response)
      : Type 0 where
    -- This deployment started a flow with the request's state, not long ago.
    pub stored : Json
    pub started : K.get w.kv (r.now_ms / 1000) (flow_key (as_text q.state)) ≡ some stored
    -- BudgetApp gave an ID token for the code, and it verifies with the nonce of that flow.
    pub id_token : String
    pub exchanged :
        exchange_code web endpoint env (as_text q.code) (decode_flow stored) ≡ returned id_token
    pub config : IssuerConfig
    pub trusted : budgetapp_issuer web.resolve {E = Response} env ≡ returned (some config)
    pub claims : IdTokenClaims
    pub verified :
        (verify_id_token r w.jwks id_token config (id_token_options (decode_flow stored))).1
        ≡ returned claims
    -- The account is the member's in the database as the request found it, or a new one where the
    -- member has none, and it is active there.
    pub account : Account
    pub sub : String
    pub named : claims.sub ≡ some sub
    pub standing : IsAccountOf new_id claims.iss sub w.db account
    pub active : account.status ≡ "active"
    -- The session of that account is found under the token that the cookie is set to.
    pub session :
        K.get w'.kv (r.now_ms / 1000) (session_key token)
        ≡ some (
            encode_session (record {
              user_id = account.user_id;
              role = account.role;
              amr = claims.amr;
              auth_time = or_else claims.auth_time claims.iat;
            }))
    pub answer : response ≡ record {
      status = 302;
      body = redirect (
          or_else
            (decode_flow stored).next
            (if account.role == "admin" then "/admin" else "/dashboard"));
      cookie = issued token;
    }

  -- The steps of a callback, put together.
  module _ (r : Runtime) (web : Web) (endpoint : TokenEndpoint) (env : Env) (new_id token : String)
      (q : CallbackRequest) (w w1 w2 w3 w4 w5 w6 w7 w8 w' : World K) (response : Response)
      (flow : FlowState) (id_token : String) (issuer : Option IssuerConfig) (config : IssuerConfig)
      (claims : IdTokenClaims) (account : Account) where
    abbrev now : ℕ
    now = r.now_ms / 1000

    steps-alike :
        check_request env q w ≡ (w1, returned tt)
        → consume_flow now (as_text q.state) w1 ≡ (w2, returned flow)
        → w5 ≡ w2
        → (w5.db ≡ w.db) × (w5.jwks ≡ w.jwks)
    steps-alike h1 h2 same =
        let same1 = check_request-same K env q w w1 h1 in
        let (db2, jwks2) = consume_flow-alike K now (as_text q.state) w1 w2 h2 in
        (
          ap (λ v. v.db) same ∙ db2 ∙ ap (λ v. v.db) same1,
          ap (λ v. v.jwks) same ∙ jwks2 ∙ ap (λ v. v.jwks) same1,
        )

    assembled :
        check_request env q w ≡ (w1, returned tt)
        → consume_flow now (as_text q.state) w1 ≡ (w2, returned flow)
        → lift (exchange_code web endpoint env (as_text q.code) flow) w2 ≡ (w3, returned id_token)
        → lift (budgetapp_issuer web.resolve env) w3 ≡ (w4, returned issuer)
        → config_or_unconfigured issuer w4 ≡ (w5, returned config)
        → verify r config id_token flow w5 ≡ (w6, returned claims)
        → guard_replay now config.issuer claims w6 ≡ (w7, returned tt)
        → find_or_provision now new_id claims w7 ≡ (w8, returned account)
        → finish now token q flow claims account w8 ≡ (w', returned response)
        → IsSignIn r web endpoint env new_id token q w w' response
    assembled h1 h2 h3 h4 h5 h6 h7 h8 e8 =
        let (was, dropped) = consume_flow-returned K now (as_text q.state) w1 w2 h2 in
        let (stored, started, decoded) = was in
        let (same3, exchanged) = lift-returned _ w2 w3 h3 in
        let (same4, looked_up) = lift-returned _ w3 w4 h4 in
        let (known, same5) = config-returned K issuer w4 w5 h5 in
        let (db5, jwks5) = steps-alike h1 h2 (same5 ∙ same4 ∙ same3) in
        let (verified, db6) = verify-returned K r config id_token flow w5 w6 h6 in
        let db = guard_replay-db K now config.issuer claims w6 w7 h7 ∙ db6 ∙ db5 in
        let (sub, named, standing) =
          find_or_provision-IsAccountOf K now new_id claims w7 w8 account h8 in
        let (active, session, answered) =
          finish-returned K now token q flow claims account w8 w' e8 in
        record {
          stored = stored;
          started =
              subst (λ v. K.get v.kv now (flow_key (as_text q.state)) ≡ some stored)
                (check_request-same K env q w w1 h1) started;
          id_token = id_token;
          exchanged =
              subst (λ f. exchange_code web endpoint env (as_text q.code) f ≡ returned id_token)
                decoded exchanged;
          config = config;
          trusted = looked_up ∙ ap returned known;
          claims = claims;
          verified =
              subst
                (λ c.
                  (verify_id_token r c id_token config (id_token_options (decode_flow stored))).1
                  ≡ returned claims)
                jwks5
                (subst
                  (λ f.
                    (verify_id_token r w5.jwks id_token config (id_token_options f)).1
                    ≡ returned claims)
                  decoded verified);
          account = account;
          sub = sub;
          named = named;
          standing = subst (λ d. IsAccountOf new_id claims.iss sub d account) db standing;
          active = active;
          session =
              ap (λ s. K.get s now (session_key token)) session
              ∙ session-found K w8.kv now token (new_session account claims);
          answer =
              unfold destination in
              subst (λ f. response ≡ signed_in_response token f account) decoded answered;
        }

  -- Every callback that answers with a redirect had a flow stored under its state, and an ID token
  -- from the exchange of its code that verifies, with the cached keys and the nonce of that flow. The
  -- account is the user whom the member in the claims is linked to in the database as the request
  -- found it, with that row's role, and the row is active; or a new user where there is no link. A
  -- session of that account with the token's authentication methods is stored under the token that
  -- the answer's cookie is set to.
  pub callback-IsSignIn :
      (r : Runtime) (web : Web) (endpoint : TokenEndpoint) (env : Env) (new_id token : String)
      (q : CallbackRequest) (w w' : World K) (response : Response)
      → callback r web endpoint env new_id token q w ≡ (w', returned response)
      → IsSignIn r web endpoint env new_id token q w w' response
  unfolding callback
  callback-IsSignIn r web endpoint env new_id token q w w' response e =
      let now = r.now_ms / 1000 in
      let (w1, u1, h1, e1) = continue-eq-returned (check_request env q w) _ e in
      let (w2, flow, h2, e2) = continue-eq-returned (consume_flow now (as_text q.state) w1) _ e1 in
      let (w3, id_token, h3, e3) =
        continue-eq-returned (lift (exchange_code web endpoint env (as_text q.code) flow) w2) _
          e2 in
      let (w4, issuer, h4, e4) =
        continue-eq-returned (lift (budgetapp_issuer web.resolve env) w3) _ e3 in
      let (w5, config, h5, e5) = continue-eq-returned (config_or_unconfigured issuer w4) _ e4 in
      let (w6, claims, h6, e6) = continue-eq-returned (verify r config id_token flow w5) _ e5 in
      let (w7, u7, h7, e7) = continue-eq-returned (guard_replay now config.issuer claims w6) _ e6 in
      let (w8, account, h8, e8) =
        continue-eq-returned (find_or_provision now new_id claims w7) _ e7 in
      assembled r web endpoint env new_id token q w w1 w2 w3 w4 w5 w6 w7 w8 w' response flow
        id_token issuer config claims account h1 h2 h3 h4 h5 h6 h7 h8 e8
