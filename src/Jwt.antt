-- ===== src/Jwt.antt =====
-- The types of workers/src/lib/sso-jwt.ts: issuer configuration, claims, verification failures,
-- keys, and the runtime that the verifier calls.
pub mod Parse
pub mod Claims
pub mod Keys
pub mod Verify
pub mod Policy
pub mod Soundness
pub mod Coverage
pub mod Separation
pub mod Cache
use simtrader.Base.{
  ℕ, ℤ, pos, whole, String, Bool, Option, none, some, List, Exec, if◌then◌else◌, or_else,
}
use simtrader.Json.{Json, get_prop, as_string, as_number, as_array, strings_of}

pub data SignatureAlg : Type 0 where
  es256 rs256 : SignatureAlg

-- The text of an algorithm name, as a token's header carries it.
abbrev pub alg_name : SignatureAlg → String
alg_name es256 = "ES256"
alg_name rs256 = "RS256"

pub record IssuerConfig : Type 0 where
  pub issuer : String
  pub jwks_url : String
  pub alg : SignatureAlg
  pub audience : String

pub data VerifyFailure : Type 0 where
  malformed typ_mismatch alg_not_allowed issuer_mismatch audience_mismatch : VerifyFailure
  exp_missing expired iat_missing iat_in_future not_yet_valid nonce_mismatch : VerifyFailure
  jwks_unavailable no_matching_key bad_signature : VerifyFailure

-- The payload as the code behind the verifier reads it. A claim of another JSON type than its
-- declared one counts as absent; the source writes such a `jti` into the key of its replay guard.
pub record IdTokenClaims : Type 0 where
  pub iss : String
  pub sub : Option String
  pub exp : ℤ
  pub iat : ℤ
  pub jti : Option String
  pub auth_time : Option ℤ
  pub amr : List String
  pub email : Option String
  pub name : Option String
  pub event : Option String

-- `payload as IdTokenClaims`. The verifier has checked that `iss`, `exp` and `iat` are there.
unfoldable pub claims_of : Json → IdTokenClaims
unfolding get_prop strings_of
claims_of payload = record {
  iss = or_else (as_string (get_prop payload "iss")) "";
  sub = as_string (get_prop payload "sub");
  exp = or_else (as_number (get_prop payload "exp")) (pos 0);
  iat = or_else (as_number (get_prop payload "iat")) (pos 0);
  jti = as_string (get_prop payload "jti");
  auth_time = as_number (get_prop payload "auth_time");
  amr = strings_of (or_else (as_array (get_prop payload "amr")) List.[]);
  email = as_string (get_prop payload "email");
  name = as_string (get_prop payload "name");
  event = as_string (get_prop payload "event");
}

-- `IDENTITY_EVENT_TYP`
abbrev pub identity_event_typ : String
identity_event_typ = "identity-event"

-- The allowance for clock skew, in seconds.
abbrev pub leeway_seconds : ℕ
leeway_seconds = 60

abbrev pub jwks_ttl_ms : ℕ
jwks_ttl_ms = 300000

-- A public key as the issuer's JWKS lists it. `material` is the key itself (n, e, x, y).
pub record JwkKey : Type 0 where
  pub kty : String
  pub kid : Option String
  pub alg : Option String
  pub crv : Option String
  pub material : String

pub data ImportAlgorithm : Type 0 where
  ecdsa : String → ImportAlgorithm
  rsassa : ImportAlgorithm

pub data SignParams : Type 0 where
  ecdsa_sha256 rsassa_pkcs1 : SignParams

-- `keys` is none where the body has no array under that name.
pub record JwksResponse : Type 0 where
  pub ok : Bool
  pub keys : Option (List JwkKey)

-- What the verifier calls: decoding, the network and the cryptography of the platform. `none`
-- stands for an exception. A buffer is a text with one character for a byte.
pub record Runtime : Type 1 where
  pub CryptoKey : Type 0
  pub atob : String → Option String
  pub json_parse : String → Option Json
  pub fetch_jwks : String → Option JwksResponse
  pub import_key : JwkKey → ImportAlgorithm → Option CryptoKey
  pub verify : SignParams → CryptoKey → String → String → Option Bool
  pub now_ms : ℕ
  pub fetched_ms : ℕ

-- `nonce` and `typ` as the caller sets them; `now` in seconds, for tests only.
pub record VerifyOptions : Type 0 where
  pub nonce : Option String
  pub typ : Option String
  pub now : Option ℕ
