-- ===== src/Jwt/Verify.antt =====
-- `verifyIdToken` of workers/src/lib/sso-jwt.ts: parse, check the claims, then the signature.
use simtrader.Base.{
  ℕ, ◌/◌, String, none, some, List, any, is_empty, Exec, returned, rejected, thrown, or_else,
  if◌then◌else◌,
}
use simtrader.Json.{get_prop}
use simtrader.Jwt.{
  IssuerConfig, IdTokenClaims, claims_of, VerifyFailure, malformed, jwks_unavailable,
  no_matching_key, bad_signature, Runtime, VerifyOptions, JwkKey,
}
use simtrader.Jwt.Parse.{ParsedJwt, parse_jwt_parts}
use simtrader.Jwt.Claims.{check_claims}
use simtrader.Jwt.Keys.{JwksCache, candidates, fetch_jwks, try_key}

abbrev pub VerifyResult : Type 0
VerifyResult = Exec VerifyFailure IdTokenClaims

module _ (r : Runtime) where
  -- `options.now ?? Math.floor(Date.now() / 1000)`
  unfoldable pub now_seconds : VerifyOptions → ℕ
  now_seconds options = or_else options.now (r.now_ms / 1000)

  -- The loop over the candidates, and the answers around it.
  unfoldable pub verify_with : IssuerConfig → ParsedJwt → List JwkKey → VerifyResult
  verify_with config p usable =
      if is_empty usable
      then rejected no_matching_key
      else if any (try_key r config.alg p.sig p.message) usable
      then returned (claims_of p.payload)
      else rejected bad_signature

  unfoldable pub verify_signature : JwksCache → IssuerConfig → ParsedJwt → JwksCache × VerifyResult
  verify_signature cache config p =
      let (cache', fetched) = fetch_jwks r cache config.jwks_url in
      elim fetched [
        | none ↦ (cache', rejected jwks_unavailable)
        | some keys ↦
            (cache', verify_with config p (candidates config.alg (get_prop p.header "kid") keys))
      ]

  unfoldable pub verify_id_token :
      JwksCache → String → IssuerConfig → VerifyOptions → JwksCache × VerifyResult
  verify_id_token cache token config options = elim (parse_jwt_parts r token) [
    | none ↦ (cache, rejected malformed)
    | some p ↦ elim (check_claims config options (now_seconds options) p.header p.payload) [
      | returned _ ↦ verify_signature cache config p
      | rejected reason ↦ (cache, rejected reason)
      | thrown ↦ (cache, thrown)
    ]
  ]
