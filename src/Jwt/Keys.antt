-- ===== src/Jwt/Keys.antt =====
-- The JWKS cache, the choice of candidate keys and the signature loop of
-- workers/src/lib/sso-jwt.ts.
use simtrader.Base.{
  ℕ, ◌-◌, String, ◌==◌, Bool, true, false, Option, none, some, List, [], ◌∷◌, filter, ltb, or_else,
  if◌then◌else◌,
}
use simtrader.Json.{Json, equals_string, truthy}
use simtrader.Jwt.{
  SignatureAlg, es256, rs256, alg_name, JwkKey, ImportAlgorithm, ecdsa, rsassa, SignParams,
  ecdsa_sha256, rsassa_pkcs1, Runtime, jwks_ttl_ms,
}

pub record CachedKeys : Type 0 where
  pub keys : List JwkKey
  pub fetched_at : ℕ

-- `jwksCache`, a map from URLs.
abbrev pub JwksCache : Type 0
JwksCache = List (String × CachedKeys)

unfoldable pub cache_get : String → JwksCache → Option CachedKeys
cache_get url [] = none
cache_get url ((u, entry) ∷ cache) =
    let rest = cache_get url cache in if u == url then some entry else rest

unfoldable pub cache_set : String → CachedKeys → JwksCache → JwksCache
cache_set url entry [] = (url, entry) ∷ []
cache_set url entry ((u, old) ∷ cache) =
    let rest = cache_set url entry cache in
    if u == url then (url, entry) ∷ cache else (u, old) ∷ rest

-- `clearJwksCache`
unfoldable pub clear_jwks_cache : JwksCache → JwksCache
clear_jwks_cache cache = []

-- `crv ?? 'P-256'` for an elliptic curve; RSASSA-PKCS1-v1_5 otherwise.
unfoldable pub import_algorithm : JwkKey → SignatureAlg → ImportAlgorithm
import_algorithm jwk es256 = ecdsa (or_else jwk.crv "P-256")
import_algorithm jwk rs256 = rsassa

unfoldable pub verify_params : SignatureAlg → SignParams
verify_params es256 = ecdsa_sha256
verify_params rs256 = rsassa_pkcs1

unfoldable pub expected_kty : SignatureAlg → String
expected_kty es256 = "EC"
expected_kty rs256 = "RSA"

-- `k.alg === undefined || k.alg === alg`
abbrev pub alg_agrees : SignatureAlg → Option String → Bool
alg_agrees alg none = true
alg_agrees alg (some name) = name == alg_name alg

-- `kid ? k.kid === kid : true`
abbrev pub kid_agrees : Option Json → Option String → Bool
kid_agrees kid none = if truthy kid then false else true
kid_agrees kid (some name) = if truthy kid then equals_string kid name else true

unfoldable pub candidates : SignatureAlg → Option Json → List JwkKey → List JwkKey
candidates alg kid keys =
    filter (λ k. kid_agrees kid k.kid)
      (filter (λ k. alg_agrees alg k.alg) (filter (λ k. k.kty == expected_kty alg) keys))

module _ (r : Runtime) where
  -- What `fetchJwks` does without a fresh cache entry.
  unfoldable pub refetch : JwksCache → String → JwksCache × Option (List JwkKey)
  refetch cache url = elim (r.fetch_jwks url) [
    | none ↦ (cache, none)
    | some resp ↦ elim resp.keys [
      | none ↦ (cache, none)
      | some keys ↦
          if resp.ok
          then (cache_set url (record { keys = keys; fetched_at = r.fetched_ms }) cache, some keys)
          else (cache, none)
    ]
  ]

  -- `fetchJwks`; none where it throws. On a clock that ran backwards the age counts as 0.
  unfoldable pub fetch_jwks : JwksCache → String → JwksCache × Option (List JwkKey)
  fetch_jwks cache url = elim (cache_get url cache) [
    | none ↦ refetch cache url
    | some entry ↦
        if ltb (r.now_ms - entry.fetched_at) jwks_ttl_ms
        then (cache, some entry.keys)
        else refetch cache url
  ]

  -- One round of the loop: an exception counts as a key that does not fit.
  unfoldable pub try_key : SignatureAlg → String → String → JwkKey → Bool
  try_key alg sig message jwk = elim (r.import_key jwk (import_algorithm jwk alg)) [
    | none ↦ false
    | some key ↦ elim (r.verify (verify_params alg) key sig message) [
      | none ↦ false
      | some verified ↦ verified
    ]
  ]
