-- ===== src/Research/Admission.antt =====
-- Who the research API admits.
use simtrader.Base.{
  ℕ, ◌/◌, String, ◌==◌, eq_iff, true, ◌&&◌, Bool, Bool-cases, inl, inr, ◌⊎◌, Option, none, some,
  List, [], ◌∷◌, find, In, truthy_text, has_char, returned, returned-injective, rejected, thrown,
  ◌≡◌, refl, sym, ap, ◌∙◌, subst, ◌<◌, arith,
}
use simtrader.Http.{ensure, lift, continue-eq-returned, ensure-returned, lift-returned}
use simtrader.Kv.{KvNamespace}
use simtrader.World.{World, sql, sql-returned}
use simtrader.Database.{User, EngineKey, Db}
use simtrader.Issuers.{Env, UrlResolver, unverified_issuer}
use simtrader.Jwt.{Runtime, IssuerConfig, IdTokenClaims}
use simtrader.Jwt.Verify.{VerifyResult, verify_id_token}
use simtrader.Access.{HonoVars}
use simtrader.Research.{
  Principal, engine_key_method, bridge_jwt_method, is_unrevoked, is_unexpired, bearer_of,
  is_engine_key, is_usable, select_key, select_member, as_bearer, bearer_claims, key_or_refusal,
  admit_key, issuer_config, config_or_unknown, verify_bearer, user_or_refusal, sub_or_throw,
  admit_claims, admit_jwt, require_research_auth, touch_key, touch_identity, attempt,
}

find-In {ℓ} :
    {A : Type ℓ} (test : A → Bool) (xs : List A) (a : A)
    → find test xs ≡ some a
    → In a xs × (test a ≡ true)
find-In test [] a e = cc
find-In test (x ∷ xs) a e = elim (Bool-cases (test x)) [
  | inl hit ↦
      let e1 = rw hit at e in
      let same : x ≡ a = cc in (inl same, subst (λ v. test v ≡ true) same hit)
  | inr miss ↦ let e1 = rw miss at e in let (later, hit) = find-In test xs a e1 in (inr later, hit)
]

none_revoked : (o : Option ℕ) → is_unrevoked o ≡ true → o ≡ none
none_revoked none h = refl
none_revoked (some at) h = cc

not_yet : (o : Option ℕ) (now at : ℕ) → is_unexpired o now ≡ true → o ≡ some at → now < at
not_yet none now at h e = cc
not_yet (some b) now at h e = let same : b ≡ at = cc in ground (arith, same, h)

usable-fits :
    (now : ℕ) (hash : String) (key : EngineKey)
    → is_usable now hash key ≡ true
    → (key.key_hash ≡ hash)
      × (key.revoked_at ≡ none)
      × ((at : ℕ) → key.expires_at ≡ some at → now < at)
usable-fits now hash key h =
    let same : (key.key_hash == hash) ≡ true = ground (arith, h) in
    let unrevoked : is_unrevoked key.revoked_at ≡ true = ground (arith, h) in
    let unexpired : is_unexpired key.expires_at now ≡ true = ground (arith, h) in
    (
      (eq_iff key.key_hash hash).0 same,
      none_revoked key.revoked_at unrevoked,
      λ at e. not_yet key.expires_at now at unexpired e,
    )

module _ (K : KvNamespace) where
  -- The holder of a stored engine key with the hash of the bearer's text, which is neither revoked
  -- nor expired.
  pub record IsKeyHolder (now : ℕ) (hash : String) (w : World K) (vars : HonoVars) (p : Principal)
      : Type 0 where
    pub key : EngineKey
    pub stored : In key w.db.engine_api_keys
    pub hashed : key.key_hash ≡ hash
    pub unrevoked : key.revoked_at ≡ none
    pub unexpired : (at : ℕ) → key.expires_at ≡ some at → now < at
    pub sets : p ≡ record {
      method = engine_key_method;
      user_id = vars.user_id;
      user_role = vars.user_role;
      api_key_id = some key.id;
      bridge_sub = none;
      scopes = key.scopes;
    }

  -- The member's account, which is active.
  pub record HasAccount (iss sub : String) (db : Db) (p : Principal) : Type 0 where
    pub user : User
    pub stored : select_member iss sub db ≡ some user
    pub active : user.status ≡ "active"
    pub sets : p ≡ record {
      method = bridge_jwt_method;
      user_id = some user.id;
      user_role = some user.role;
      api_key_id = none;
      bridge_sub = some sub;
      scopes = "signals:read" ∷ "signals:write" ∷ "evaluations:read" ∷ "evaluations:write" ∷ [];
    }

  -- A member with a token that verifies under the configuration of the issuer it names, and with an
  -- active account.
  pub record IsMember (r : Runtime) (resolve : UrlResolver) (env : Env) (bearer : String)
      (w : World K) (p : Principal) : Type 0 where
    pub config : IssuerConfig
    pub trusted : issuer_config resolve env (unverified_issuer r bearer) ≡ returned (some config)
    pub claims : IdTokenClaims
    pub verified : (verify_id_token r w.jwks bearer config as_bearer).1 ≡ returned claims
    pub sub : String
    pub named : claims.sub ≡ some sub
    pub account : HasAccount claims.iss sub w.db p

  key_or_refusal-returned :
      (row : Option EngineKey) (w w' : World K) {key : EngineKey}
      → key_or_refusal row w ≡ (w', returned key)
      → row ≡ some key
  key_or_refusal-returned none w w' e = absurd (cc (ap (λ p. p.1) e))
  key_or_refusal-returned (some k) w w' e = cc (ap (λ p. p.1) e)

  admit_key-IsKeyHolder :
      (now : ℕ) (hash : String → String) (vars : HonoVars) (bearer : String) (w w' : World K)
      (p : Principal)
      → admit_key now hash vars bearer w ≡ (w', returned p)
      → IsKeyHolder now (hash bearer) w vars p
  unfolding admit_key select_key
  admit_key-IsKeyHolder now hash vars bearer w w' p e =
      let reads : Db → Db × Option EngineKey = λ db. (db, select_key now (hash bearer) db) in
      let (w1, row, h1, e1) = continue-eq-returned (sql reads w) _ e in
      let (db1, value, kv1) = sql-returned reads w w1 row h1 in
      let (w2, key, h2, e2) = continue-eq-returned (key_or_refusal row w1) _ e1 in
      let (w3, u3, h3, e3) = continue-eq-returned (attempt (touch_key now key.id) w2) _ e2 in
      let (stored, usable) =
        find-In (is_usable now (hash bearer)) w.db.engine_api_keys key
          (sym value ∙ key_or_refusal-returned row w1 w2 h2) in
      let (hashed, unrevoked, unexpired) = usable-fits now (hash bearer) key usable in
      record {
        key = key;
        stored = stored;
        hashed = hashed;
        unrevoked = unrevoked;
        unexpired = unexpired;
        sets = sym (cc (ap (λ p. p.1) e3));
      }

  bearer_claims-returned :
      (result : VerifyResult) {claims : IdTokenClaims}
      → bearer_claims result ≡ returned claims
      → result ≡ returned claims
  bearer_claims-returned (returned claims) e = cc
  bearer_claims-returned (rejected failure) e = cc
  bearer_claims-returned thrown e = cc

  config-returned :
      (issuer : Option IssuerConfig) (w w' : World K) {config : IssuerConfig}
      → config_or_unknown issuer w ≡ (w', returned config)
      → (issuer ≡ some config) × (w' ≡ w)
  config-returned none w w' e = absurd (cc (ap (λ p. p.1) e))
  config-returned (some c) w w' e = (cc (ap (λ p. p.1) e), sym (ap (λ p. p.0) e))

  user-returned :
      (row : Option User) (w w' : World K) {user : User}
      → user_or_refusal row w ≡ (w', returned user)
      → row ≡ some user
  user-returned none w w' e = absurd (cc (ap (λ p. p.1) e))
  user-returned (some u) w w' e = cc (ap (λ p. p.1) e)

  sub-returned : (sub : Option String) {s : String} → sub_or_throw sub ≡ returned s → sub ≡ some s
  sub-returned none e = cc
  sub-returned (some t) e = cc

  verify-returned :
      (r : Runtime) (config : IssuerConfig) (bearer : String) (w w' : World K)
      {claims : IdTokenClaims}
      → verify_bearer r config bearer w ≡ (w', returned claims)
      → ((verify_id_token r w.jwks bearer config as_bearer).1 ≡ returned claims) × (w'.db ≡ w.db)
  unfolding verify_bearer
  verify-returned r config bearer w w' e =
      (bearer_claims-returned _ (ap (λ p. p.1) e), ap (λ p. p.0.db) (sym e))

  admit_claims-HasAccount :
      (now : ℕ) (claims : IdTokenClaims) (sub : String) (w w' : World K) (p : Principal)
      → admit_claims now claims sub w ≡ (w', returned p)
      → HasAccount claims.iss sub w.db p
  unfolding admit_claims
  admit_claims-HasAccount now claims sub w w' p e =
      let reads : Db → Db × Option User = λ db. (db, select_member claims.iss sub db) in
      let (w1, row, h1, e1) = continue-eq-returned (sql reads w) _ e in
      let (db1, value, kv1) = sql-returned reads w w1 row h1 in
      let (w2, user, h2, e2) = continue-eq-returned (user_or_refusal row w1) _ e1 in
      let (w3, u3, h3, e3) = continue-eq-returned (ensure (user.status == "active") _ w2) _ e2 in
      let (w4, u4, h4, e4) =
        continue-eq-returned (attempt (touch_identity now claims.iss sub) w3) _ e3 in
      record {
        user = user;
        stored = sym value ∙ user-returned row w1 w2 h2;
        active = (eq_iff user.status "active").0 (ensure-returned _ _ w2 w3 h3).0;
        sets = sym (returned-injective (ap (λ p. p.1) e4));
      }

  admit_jwt-IsMember :
      (r : Runtime) (resolve : UrlResolver) (env : Env) (bearer : String) (w w' : World K)
      (p : Principal)
      → admit_jwt r resolve env bearer w ≡ (w', returned p)
      → IsMember r resolve env bearer w p
  unfolding admit_jwt
  admit_jwt-IsMember r resolve env bearer w w' p e =
      let (w1, issuer, h1, e1) =
        continue-eq-returned (lift (issuer_config resolve env (unverified_issuer r bearer)) w) _
          e in
      let (same1, looked_up) = lift-returned _ w w1 h1 in
      let (w2, config, h2, e2) = continue-eq-returned (config_or_unknown issuer w1) _ e1 in
      let (known, same2) = config-returned issuer w1 w2 h2 in
      let (w3, claims, h3, e3) = continue-eq-returned (verify_bearer r config bearer w2) _ e2 in
      let (verified, db3) = verify-returned r config bearer w2 w3 h3 in
      let (w4, sub, h4, e4) = continue-eq-returned (lift (sub_or_throw claims.sub) w3) _ e3 in
      let (same4, subject) = lift-returned (sub_or_throw claims.sub) w3 w4 h4 in
      let account = admit_claims-HasAccount (r.now_ms / 1000) claims sub w4 w' p e4 in
      record {
        config = config;
        trusted = looked_up ∙ ap returned known;
        claims = claims;
        verified =
            subst (λ v. (verify_id_token r v.jwks bearer config as_bearer).1 ≡ returned claims)
              (same2 ∙ same1) verified;
        sub = sub;
        named = sub-returned claims.sub subject;
        account =
            subst (λ d. HasAccount claims.iss sub d p)
              (ap (λ v. v.db) same4 ∙ db3 ∙ ap (λ v. v.db) (same2 ∙ same1)) account;
      }

  pub require_research-IsAdmitted :
      (r : Runtime) (resolve : UrlResolver) (env : Env) (hash : String → String) (vars : HonoVars)
      (header : Option String) (w w' : World K) (p : Principal)
      → require_research_auth r resolve env hash vars header w ≡ (w', returned p)
      → IsKeyHolder (r.now_ms / 1000) (hash (bearer_of header)) w vars p
        ⊎ IsMember r resolve env (bearer_of header) w p
  unfolding require_research_auth
  require_research-IsAdmitted r resolve env hash vars header w w' p e =
      let bearer = bearer_of header in
      elim (Bool-cases (truthy_text bearer && is_engine_key bearer)) [
        | inl is_key ↦
            inl (admit_key-IsKeyHolder (r.now_ms / 1000) hash vars bearer w w' p (rw is_key at e))
        | inr no_key ↦ elim (Bool-cases (truthy_text bearer && has_char "." bearer)) [
          | inl is_jwt ↦
              inr (admit_jwt-IsMember r resolve env bearer w w' p (rw (no_key, is_jwt) at e))
          | inr neither ↦ absurd (let e1 = rw (no_key, neither) at e in cc (ap (λ p. p.1) e1))
        ]
      ]
