-- ===== src/Tests/TokenTests.antt =====
-- Tokens: tests of the verifier, and the token theorems at concrete inputs.
use simtrader.Base.{
  ◌+ℤ◌, ◌-ℤ◌, String, none, some, [], ◌∷◌, returned, rejected, split, ◌≡◌, refl, ◌≢◌, ◌↔◌,
  truthy_text, true,
}
use simtrader.Jwt.{
  IdTokenClaims, claims_of, VerifyOptions, expired, bad_signature, typ_mismatch, malformed,
  identity_event_typ,
}
use simtrader.Jwt.Parse
use simtrader.Jwt.Parse.{ParsedJwt, parse_jwt_parts, pad_base64}
use simtrader.Jwt.Claims
use simtrader.Jwt.Claims.{check_claims}
use simtrader.Jwt.Keys
use simtrader.Jwt.Keys.{CachedKeys, JwksCache, fetch_jwks}
use simtrader.Jwt.Verify
use simtrader.Jwt.Verify.{verify_id_token}
use simtrader.Jwt.Policy.{Acceptable, check_claims_iff}
use simtrader.Jwt.Soundness.{IsGenuine, verify_id_token_iff}
use simtrader.Jwt.Coverage.{Covers, parse_jwt_parts-Covers}
use simtrader.Jwt.Separation.{event-ne-sign_in}
use simtrader.Jwt.Cache.{IsFresh, fetch_jwks-IsFresh}
use simtrader.Issuers.{issuer_config_for, jwks_url}
use simtrader.Issuers.Trust.{configured_as, issuer_config_for_iff}
use simtrader.Tests.{config, header, payload, platform, key, env, resolve}

unfoldable pub verifier : Unit {0}
unfolding Verify.verify_id_token Verify.verify_signature Verify.verify_with Verify.now_seconds
    Parse.parse_jwt_parts Parse.parse_parts Parse.parse_three Parse.decode_part
    Parse.base64url_to_buffer Parse.pad_base64 Claims.check_claims Claims.check_header
    Claims.check_identity Claims.check_exp Claims.check_iat Claims.check_nbf Claims.check_nonce
    Keys.candidates Keys.expected_kty Keys.fetch_jwks Keys.refetch Keys.cache_get Keys.cache_set
    Keys.try_key Keys.import_algorithm Keys.verify_params claims_of split ◌+ℤ◌ ◌-ℤ◌
verifier = tt

abbrev plain : VerifyOptions
plain = record { nonce = none; typ = none; now = none }

abbrev as_event : VerifyOptions
as_event = record { nonce = none; typ = some identity_event_typ; now = none }

abbrev too_late : VerifyOptions
too_late = record { nonce = none; typ = none; now = some 1360 }

abbrev claims : IdTokenClaims
claims = claims_of payload

abbrev parsed : ParsedJwt
parsed = record { header = header; payload = payload; sig = "good"; message = "h.p" }

abbrev cached : JwksCache
cached = ("https://id/jwks", record { keys = key ∷ []; fetched_at = 1100000 }) ∷ []

verify_tests :
    ((verify_id_token platform [] "h.p.good" config plain).1 ≡ returned claims)
    × ((verify_id_token platform [] "e.p.good" config as_event).1 ≡ returned claims)
    × ((verify_id_token platform [] "e.p.good" config plain).1 ≡ rejected typ_mismatch)
    × ((verify_id_token platform [] "h.p.good" config too_late).1 ≡ rejected expired)
    × ((verify_id_token platform [] "h.p.bad" config plain).1 ≡ rejected bad_signature)
    × ((verify_id_token platform [] "h.p" config plain).1 ≡ rejected malformed)
unfolding verifier
verify_tests = (refl, refl, refl, refl, refl, refl)

parse_test : parse_jwt_parts platform "h.p.good" ≡ some parsed
unfolding verifier
parse_test = refl

fetch_test : Keys.refetch platform [] "https://id/jwks" ≡ (cached, some (key ∷ []))
unfolding verifier
fetch_test = refl

fetch_test_cached : fetch_jwks platform cached "https://id/jwks" ≡ (cached, some (key ∷ []))
unfolding verifier
fetch_test_cached = refl

verify_id_token_iff_example :
    ((verify_id_token platform [] "h.p.good" config plain).1 ≡ returned claims)
    ↔ IsGenuine platform [] "h.p.good" config plain claims
verify_id_token_iff_example = verify_id_token_iff platform [] "h.p.good" config plain claims

check_claims_iff_example :
    (check_claims config plain 1100 header payload ≡ returned tt)
    ↔ Acceptable config plain 1100 header payload
check_claims_iff_example = check_claims_iff config plain 1100 header payload

parse_jwt_parts-Covers_example : Covers platform "h.p.good" parsed
parse_jwt_parts-Covers_example = parse_jwt_parts-Covers platform "h.p.good" parsed parse_test

event-ne-sign_in_example :
    (verify_id_token platform [] "h.p.good" config as_event).1 ≢ returned claims
event-ne-sign_in_example =
    event-ne-sign_in platform platform [] [] "h.p.good" config config plain as_event claims claims
      refl refl refl verify_tests.0

fetch_jwks-IsFresh_example : IsFresh platform cached "https://id/jwks" (key ∷ []) cached
fetch_jwks-IsFresh_example =
    fetch_jwks-IsFresh platform cached "https://id/jwks" (key ∷ []) cached fetch_test_cached

issuer_config_for_iff_example :
    (issuer_config_for resolve {E = Unit {0}} env "https://id" ≡ returned (some config)) ↔ (
      (truthy_text env.budgetapp_issuer ≡ true)
      × (env.budgetapp_issuer ≡ "https://id")
      × ((url : String) × (jwks_url resolve {E = Unit {0}} env ≡ returned url)
          × (config ≡ configured_as env url)))
issuer_config_for_iff_example = issuer_config_for_iff resolve env "https://id" config
