-- ===== src/Issuers.antt =====
-- Trusted identity providers: workers/src/lib/issuers.ts, and the bindings it reads. An absent
-- binding is the empty text.
pub mod Trust
use Prim.Native.String
use simtrader.Base.{
  String, ◌==◌, Bool, true, false, Option, none, some, List, [], ◌∷◌, Exec, returned, thrown, ◌>>=◌,
  split, truthy_text, if◌then◌else◌,
}
use simtrader.Json.{get_prop, as_string}
use simtrader.Jwt.{IssuerConfig, es256, Runtime}
use simtrader.Jwt.Parse.{decode_part}

pub record Env : Type 0 where
  pub budgetapp_issuer : String
  pub budgetapp_jwks_url : String
  pub budgetapp_token_url : String
  pub budgetapp_connect_url : String
  pub simtrader_public_url : String
  pub sso_audience : String
  pub sso_client_id : String

-- `a || b` on texts.
abbrev pub or_text : String → String → String
or_text a b = if truthy_text a then a else b

-- `new URL(path, base).toString()`, which throws on a base that is no URL.
abbrev pub UrlResolver : Type 0
UrlResolver = String → String → Option String

module _ (resolve : UrlResolver) where
  unfoldable pub jwks_url {κ} : {E : Type κ} → Env → Exec E String
  jwks_url env =
      if truthy_text env.budgetapp_jwks_url
      then returned env.budgetapp_jwks_url
      else elim (resolve "/.well-known/jwks.json" env.budgetapp_issuer) [
        | none ↦ thrown
        | some url ↦ returned url
      ]

  -- The map from `iss` to a config: one entry, or none without an issuer.
  unfoldable pub trusted_issuers {κ} : {E : Type κ} → Env → Exec E (List (String × IssuerConfig))
  trusted_issuers env =
      if truthy_text env.budgetapp_issuer
      then (do
        url ← jwks_url env
        returned (
            (
              env.budgetapp_issuer,
              record {
                issuer = env.budgetapp_issuer;
                jwks_url = url;
                alg = es256;
                audience = or_text env.sso_audience "simtrader";
              },
            )
            ∷ []))
      else returned []

  unfoldable pub lookup_issuer : String → List (String × IssuerConfig) → Option IssuerConfig
  lookup_issuer iss [] = none
  lookup_issuer iss ((name, config) ∷ entries) =
      let rest = lookup_issuer iss entries in if name == iss then some config else rest

  unfoldable pub issuer_config_for {κ} : {E : Type κ} → Env → String → Exec E (Option IssuerConfig)
  unfolding trusted_issuers lookup_issuer
  issuer_config_for env iss = do trusted ← trusted_issuers env; returned (lookup_issuer iss trusted)

  unfoldable pub budgetapp_issuer {κ} : {E : Type κ} → Env → Exec E (Option IssuerConfig)
  unfolding trusted_issuers lookup_issuer
  budgetapp_issuer env =
      if truthy_text env.budgetapp_issuer
      then (do trusted ← trusted_issuers env; returned (lookup_issuer env.budgetapp_issuer trusted))
      else returned none

unfoldable pub budgetapp_token_url : Env → String
budgetapp_token_url env =
    or_text env.budgetapp_token_url (String.◌++◌ env.budgetapp_issuer "/api/v1/sso/token")

abbrev pub budgetapp_connect_url : Env → String
budgetapp_connect_url env = env.budgetapp_connect_url

-- The issuer that the second of three parts names.
unfoldable pub issuer_in : Runtime → List String → Option String
issuer_in r (p ∷ q ∷ s ∷ []) = elim (decode_part r q) [
  | none ↦ none
  | some payload ↦ as_string (get_prop payload "iss")
]
issuer_in r _ = none

unfoldable pub unverified_issuer : Runtime → String → Option String
unfolding issuer_in
unverified_issuer r token = issuer_in r (split "." token)
