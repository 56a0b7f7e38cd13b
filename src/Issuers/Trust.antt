-- ===== src/Issuers/Trust.antt =====
-- A token's `iss` selects a configured issuer or nothing: it supplies no algorithm, no audience
-- and no key source.
use simtrader.Base.{
  String, eq_iff, true, some, returned, Exec-cases, truthy_text, ◌≡◌, ◌↔◌, arith, Bool-cases, inl,
  inr,
}
use simtrader.Jwt.{IssuerConfig, es256}
use simtrader.Issuers.{Env, or_text, UrlResolver, jwks_url, issuer_config_for}

-- The one configuration of a deployment.
abbrev pub configured_as : Env → String → IssuerConfig
configured_as env url = record {
  issuer = env.budgetapp_issuer;
  jwks_url = url;
  alg = es256;
  audience = or_text env.sso_audience "simtrader";
}

module _ (resolve : UrlResolver) (env : Env) where
  selected_of_config :
      (iss : String) (config : IssuerConfig)
      → issuer_config_for resolve {E = Unit {0}} env iss ≡ returned (some config)
      → (truthy_text env.budgetapp_issuer ≡ true)
        × (env.budgetapp_issuer ≡ iss)
        × ((url : String) × (jwks_url resolve {E = Unit {0}} env ≡ returned url)
            × (config ≡ configured_as env url))
  unfolding issuer_config_for
  selected_of_config iss config e = elim (Bool-cases (truthy_text env.budgetapp_issuer)) [
    | inr absent ↦ absurd (ground arith)
    | inl given ↦ elim (Exec-cases (jwks_url resolve {E = Unit {0}} env)) [
      | inl (url, resolved) ↦ (
        given,
        ground (arith, eq_iff env.budgetapp_issuer iss),
        (url, resolved, ground (arith, eq_iff env.budgetapp_issuer iss)),
      )
      | inr failed ↦ elim failed [
        | inl (u, rejection) ↦ absurd (ground arith)
        | inr crash ↦ absurd (ground arith)
      ]
    ]
  ]

  -- An issuer is trusted exactly if it is the configured one, with the configuration of this
  -- deployment: ES256, and a key source that does not depend on the token.
  pub issuer_config_for_iff :
      (iss : String) (config : IssuerConfig)
      → (issuer_config_for resolve {E = Unit {0}} env iss ≡ returned (some config)) ↔ (
          (truthy_text env.budgetapp_issuer ≡ true)
          × (env.budgetapp_issuer ≡ iss)
          × ((url : String) × (jwks_url resolve {E = Unit {0}} env ≡ returned url)
              × (config ≡ configured_as env url)))
  unfolding issuer_config_for
  issuer_config_for_iff iss config = (
    selected_of_config iss config,
    (λ h.
        let (url, resolved, same) = h.2 in
        ground (arith, h.0, resolved, same, eq_iff env.budgetapp_issuer iss)),
  )
