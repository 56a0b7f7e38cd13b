-- ===== src/Research/Router/Refusal.antt =====
-- A request that the guards of /research refuse changes nothing that is stored.
use simtrader.Base.{
  ℕ, ◌/◌, String, ◌==◌, ◌&&◌, Bool-cases, Option, none, some, has_char, truthy_text, Exec, returned,
  rejected, thrown, ◌≡◌, ◌⊎◌, inl, inr, refl, ◌∙◌,
}
use simtrader.Http.{Handler, Response, ◌>>=◌, continue, give, answer, lift, ensure}
use simtrader.Kv.{KvNamespace}
use simtrader.World.{World, sql}
use simtrader.World.ReadOnly.{
  stored, IsReading, query-IsReading, ensure-IsReading, lift-IsReading, answer-IsReading,
  give-IsReading,
}
use simtrader.Database.{User, EngineKey, Db}
use simtrader.Issuers.{Env, UrlResolver, unverified_issuer}
use simtrader.Jwt.{Runtime, IssuerConfig, IdTokenClaims}
use simtrader.Access.{HonoVars}
use simtrader.Research.{
  Principal, bearer_of, is_engine_key, select_key, select_member, key_or_refusal, admit_key,
  issuer_config, config_or_unknown, verify_bearer, user_or_refusal, sub_or_throw, admit_claims,
  admit_jwt, require_research_auth, attempt, touch_key, touch_identity, key_principal,
  jwt_principal,
}

module _ {K : KvNamespace} where
  -- A computation that changes nothing that is stored unless it goes on.
  pub record KeepsOnRefusal {A : Type 0} (m : Handler (World K) A) : Type 0 where
    pub keeps : (w : World K) → (stored (m w).0 ≡ stored w) ⊎ ((a : A) × ((m w).1 ≡ returned a))

  pub of_reading : {A : Type 0} (m : Handler (World K) A) → IsReading m → KeepsOnRefusal m
  of_reading m h = record { keeps = λ w. inl (h.keeps w) }

  continue-keeps :
      {A B : Type 0} (w : World K) (m : World K × Exec Response A) (k : A → Handler (World K) B)
      → stored m.0 ≡ stored w
      → ((a : A) → KeepsOnRefusal (k a))
      → (stored (continue m k).0 ≡ stored w) ⊎ ((b : B) × ((continue m k).1 ≡ returned b))
  continue-keeps w (v, returned a) k first rest = elim ((rest a).keeps v) [
    | inl same ↦ inl (same ∙ first)
    | inr went_on ↦ inr went_on
  ]
  continue-keeps w (v, rejected e) k first rest = inl first
  continue-keeps w (v, thrown) k first rest = inl first

  after_reading :
      {A B : Type 0} (m : Handler (World K) A) (k : A → Handler (World K) B)
      → IsReading m
      → ((a : A) → KeepsOnRefusal (k a))
      → KeepsOnRefusal (m >>= k)
  after_reading m k first rest = record {
    keeps = λ w. continue-keeps w (m w) k (first.keeps w) rest;
  }

  -- An update that nobody waits for, and then a value.
  attempt-KeepsOnRefusal :
      {A : Type 0} (change : Db → Db) (a : A) → KeepsOnRefusal (attempt change >>= λ u. give a)
  unfolding attempt
  attempt-KeepsOnRefusal change a = record { keeps = λ w. inr (a, refl) }

  key_or_refusal-IsReading : (row : Option EngineKey) → IsReading {K = K} (key_or_refusal row)
  key_or_refusal-IsReading none = answer-IsReading _
  key_or_refusal-IsReading (some key) = give-IsReading key

  config_or_unknown-IsReading :
      (config : Option IssuerConfig) → IsReading {K = K} (config_or_unknown config)
  config_or_unknown-IsReading none = answer-IsReading _
  config_or_unknown-IsReading (some config) = give-IsReading config

  user_or_refusal-IsReading : (row : Option User) → IsReading {K = K} (user_or_refusal row)
  user_or_refusal-IsReading none = answer-IsReading _
  user_or_refusal-IsReading (some user) = give-IsReading user

  verify_bearer-IsReading :
      (r : Runtime) (config : IssuerConfig) (bearer : String)
      → IsReading {K = K} (verify_bearer r config bearer)
  unfolding verify_bearer
  verify_bearer-IsReading r config bearer = record { keeps = λ w. refl }

  admit_key-KeepsOnRefusal :
      (now : ℕ) (hash : String → String) (vars : HonoVars) (bearer : String)
      → KeepsOnRefusal (admit_key now hash vars bearer)
  unfolding admit_key
  admit_key-KeepsOnRefusal now hash vars bearer =
      after_reading (sql _) _ (query-IsReading (select_key now (hash bearer))) λ row.
        after_reading (key_or_refusal row) _ (key_or_refusal-IsReading row)
          λ key. attempt-KeepsOnRefusal (touch_key now key.id) (key_principal vars key)

  admit_claims-KeepsOnRefusal :
      (now : ℕ) (claims : IdTokenClaims) (sub : String)
      → KeepsOnRefusal (admit_claims now claims sub)
  unfolding admit_claims
  admit_claims-KeepsOnRefusal now claims sub =
      after_reading (sql _) _ (query-IsReading (select_member claims.iss sub)) λ row.
        after_reading (user_or_refusal row) _ (user_or_refusal-IsReading row) λ user.
          after_reading (ensure (user.status == "active") _) _ (ensure-IsReading _ _)
            λ u. attempt-KeepsOnRefusal (touch_identity now claims.iss sub) (jwt_principal user sub)

  admit_jwt-KeepsOnRefusal :
      (r : Runtime) (resolve : UrlResolver) (env : Env) (bearer : String)
      → KeepsOnRefusal (admit_jwt r resolve env bearer)
  unfolding admit_jwt
  admit_jwt-KeepsOnRefusal r resolve env bearer =
      after_reading (lift (issuer_config resolve env (unverified_issuer r bearer))) _
        (lift-IsReading _)
        λ issuer.
          after_reading (config_or_unknown issuer) _ (config_or_unknown-IsReading issuer) λ config.
            after_reading (verify_bearer r config bearer) _
              (verify_bearer-IsReading r config bearer)
              λ claims.
                after_reading (lift (sub_or_throw claims.sub)) _ (lift-IsReading _)
                  λ sub. admit_claims-KeepsOnRefusal (r.now_ms / 1000) claims sub

  pub auth-KeepsOnRefusal :
      (r : Runtime) (resolve : UrlResolver) (env : Env) (hash : String → String) (vars : HonoVars)
      (header : Option String)
      → KeepsOnRefusal (require_research_auth r resolve env hash vars header)
  unfolding require_research_auth
  auth-KeepsOnRefusal r resolve env hash vars header =
      let bearer = bearer_of header in
      elim (Bool-cases (truthy_text bearer && is_engine_key bearer)) [
        | inl is_key ↦ rw is_key (admit_key-KeepsOnRefusal (r.now_ms / 1000) hash vars bearer)
        | inr no_key ↦ elim (Bool-cases (truthy_text bearer && has_char "." bearer)) [
          | inl is_jwt ↦ rw (no_key, is_jwt) (admit_jwt-KeepsOnRefusal r resolve env bearer)
          | inr neither ↦
              rw (no_key, neither) (of_reading (answer {A = Principal} _) (answer-IsReading _))
        ]
      ]
