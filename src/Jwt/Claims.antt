-- ===== src/Jwt/Claims.antt =====
-- The claim checks of `verifyIdToken` (workers/src/lib/sso-jwt.ts), in the source's order. Each
-- stage returns or rejects with the first failure; a header or payload that is null throws.
use simtrader.Base.{
  ℕ, ℤ, ◌+ℤ◌, ◌-ℤ◌, whole, leb_ℤ, ltb_ℤ, String, Bool, not, Option, none, some, any, Exec, returned,
  rejected, ◌>>=◌, ◌>>◌, require,
}
use simtrader.Json.{Json, arr, get_prop, read_prop, as_number, equals_string, to_list}
use simtrader.Jwt.{
  IssuerConfig, VerifyFailure, typ_mismatch, alg_not_allowed, issuer_mismatch, audience_mismatch,
  exp_missing, expired, iat_missing, iat_in_future, not_yet_valid, nonce_mismatch, VerifyOptions,
  alg_name, identity_event_typ, leeway_seconds,
}

abbrev pub Check : Type 0
Check = Exec VerifyFailure (Unit {0})

-- `options.typ !== undefined ? typ === options.typ : typ !== IDENTITY_EVENT_TYP`
unfoldable pub typ_allowed : Option String → Option Json → Bool
typ_allowed (some wanted) typ = equals_string typ wanted
typ_allowed none typ = not (equals_string typ identity_event_typ)

unfoldable pub check_header : IssuerConfig → VerifyOptions → Json → Check
unfolding read_prop typ_allowed
check_header config options header = do
  typ ← read_prop header "typ"
  require (typ_allowed options.typ typ) typ_mismatch
  alg ← read_prop header "alg"
  require (equals_string alg (alg_name config.alg)) alg_not_allowed

-- `Array.isArray(aud) ? aud.includes(audience) : aud === audience`
unfoldable pub aud_match : Option Json → String → Bool
aud_match (some (arr vs)) audience = any (λ v. equals_string (some v) audience) (to_list vs)
aud_match aud audience = equals_string aud audience

unfoldable pub check_identity : IssuerConfig → Json → Check
unfolding read_prop aud_match
check_identity config payload = do
  iss ← read_prop payload "iss"
  require (equals_string iss config.issuer) issuer_mismatch
  aud ← read_prop payload "aud"
  require (aud_match aud config.audience) audience_mismatch

-- `typeof payload.exp !== 'number'` is none here, and so below.
unfoldable pub check_exp : ℕ → Option ℤ → Check
check_exp now none = rejected exp_missing
check_exp now (some exp) = require (not (leb_ℤ (exp +ℤ whole leeway_seconds) (whole now))) expired

unfoldable pub check_iat : ℕ → Option ℤ → Check
check_iat now none = rejected iat_missing
check_iat now (some iat) =
    require (not (ltb_ℤ (whole now) (iat -ℤ whole leeway_seconds))) iat_in_future

unfoldable pub check_nbf : ℕ → Option ℤ → Check
check_nbf now none = returned tt
check_nbf now (some nbf) =
    require (not (ltb_ℤ (whole now) (nbf -ℤ whole leeway_seconds))) not_yet_valid

unfoldable pub check_nonce : Option String → Json → Check
check_nonce none payload = returned tt
check_nonce (some nonce) payload =
    require (equals_string (get_prop payload "nonce") nonce) nonce_mismatch

unfoldable pub check_claims : IssuerConfig → VerifyOptions → ℕ → Json → Json → Check
check_claims config options now header payload = do
  check_header config options header
  check_identity config payload
  check_exp now (as_number (get_prop payload "exp"))
  check_iat now (as_number (get_prop payload "iat"))
  check_nbf now (as_number (get_prop payload "nbf"))
  check_nonce options.nonce payload
