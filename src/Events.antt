-- ===== src/Events.antt =====
-- Identity events from BudgetApp: workers/src/lib/identity-events.ts. The store is an interface,
-- as in the source; Events/Route.antt fills it with Postgres and KV.
pub mod Route
pub mod Outcomes
pub mod Erasure
use simtrader.Base.{
  ℕ, String, ◌==◌, Bool, true, false, ◌||◌, Option, none, some, Exec, returned, rejected, thrown,
  or_else, truthy_text, if◌then◌else◌,
}
use simtrader.Json.{Json, str, obj, field, end}
use simtrader.Http.{Handler, Response, ◌>>=◌, ◌>>◌, give}
use simtrader.Jwt.{
  IssuerConfig, IdTokenClaims, Runtime, VerifyOptions, VerifyFailure, malformed, typ_mismatch,
  alg_not_allowed, issuer_mismatch, audience_mismatch, exp_missing, expired, iat_missing,
  iat_in_future, not_yet_valid, nonce_mismatch, jwks_unavailable, no_matching_key, bad_signature,
  identity_event_typ,
}
use simtrader.Jwt.Keys.{JwksCache}
use simtrader.Jwt.Verify.{VerifyResult, verify_id_token}

abbrev pub user_deleted : String
user_deleted = "user.deleted"

abbrev pub user_suspended : String
user_suspended = "user.suspended"

abbrev pub user_sessions_revoked : String
user_sessions_revoked = "user.sessions_revoked"

-- `KNOWN_EVENTS.has(event)`
abbrev pub is_known : String → Bool
is_known event = event == user_deleted || event == user_suspended || event == user_sessions_revoked

-- What the receiver needs from the outside world. `find_user_id` takes `sub` as the token has it.
pub record IdentityEventStore (S : Type 0) : Type 0 where
  pub find_user_id : String → Option String → Handler S (Option String)
  pub erase_user : String → Handler S (Unit {0})
  pub end_sessions : String → Handler S (Unit {0})
  pub audit : String → Json → Handler S (Unit {0})

pub data EventOutcome : Type 0 where
  erased sessions_ended unknown_member : EventOutcome

pub record Refusal : Type 0 where
  pub status : ℕ
  pub reason : String

pub data ReceiveResult : Type 0 where
  accepted : String → EventOutcome → ReceiveResult
  refused : Refusal → ReceiveResult

unfoldable pub reason_text : VerifyFailure → String
reason_text malformed = "malformed"
reason_text typ_mismatch = "typ_mismatch"
reason_text alg_not_allowed = "alg_not_allowed"
reason_text issuer_mismatch = "issuer_mismatch"
reason_text audience_mismatch = "audience_mismatch"
reason_text exp_missing = "exp_missing"
reason_text expired = "expired"
reason_text iat_missing = "iat_missing"
reason_text iat_in_future = "iat_in_future"
reason_text not_yet_valid = "not_yet_valid"
reason_text nonce_mismatch = "nonce_mismatch"
reason_text jwks_unavailable = "jwks_unavailable"
reason_text no_matching_key = "no_matching_key"
reason_text bad_signature = "bad_signature"

-- 503 where our own JWKS fetch failed, 401 for a bad token.
unfoldable pub refusal : VerifyFailure → Refusal
refusal jwks_unavailable = record { status = 503; reason = "jwks_unavailable" }
refusal failure = record { status = 401; reason = reason_text failure }

-- A verified event: the claims, and its name.
abbrev pub EventClaims : Type 0
EventClaims = IdTokenClaims × String

unfoldable pub known_event : IdTokenClaims → Exec Refusal EventClaims
known_event claims = elim claims.event [
  | none ↦ rejected (record { status = 400; reason = "unsupported_event" })
  | some event ↦
      if is_known event
      then returned (claims, event)
      else rejected (record { status = 400; reason = "unsupported_event" })
]

unfoldable pub read_event : VerifyResult → Exec Refusal EventClaims
read_event (returned claims) = known_event claims
read_event (rejected failure) = rejected (refusal failure)
read_event thrown = thrown

-- `verifyIdentityEvent`
unfoldable pub verify_identity_event :
    Runtime → JwksCache → String → IssuerConfig → Option ℕ → JwksCache × Exec Refusal EventClaims
verify_identity_event r cache token issuer now =
    let options : VerifyOptions = record {
      nonce = none;
      typ = some identity_event_typ;
      now = now;
    } in
    let (cache', result) = verify_id_token r cache token issuer options in
    (cache', read_event result)

abbrev pub erased_detail : IdTokenClaims → String → Json
erased_detail claims event = obj (
    field "source" (str "budgetapp")
      (field "event" (str event) (field "jti" (str (or_else claims.jti "")) end)))

abbrev pub ended_detail : String → String → Json
ended_detail event user_id = obj (
    field "source" (str "budgetapp")
      (field "event" (str event) (field "user_id" (str user_id) end)))

module _ {S : Type 0} (store : IdentityEventStore S) where
  -- The branch of `applyIdentityEvent` for `user.deleted`: sessions first, the audit row last.
  unfoldable pub delete_member : IdTokenClaims → String → String → Handler S EventOutcome
  delete_member claims event user_id = do
    store.end_sessions user_id
    store.erase_user user_id
    store.audit "user.erased" (erased_detail claims event)
    give erased

  -- The branch for the other events.
  unfoldable pub end_member_sessions : String → String → Handler S EventOutcome
  end_member_sessions event user_id = do
    store.end_sessions user_id
    store.audit "user.sessions_ended" (ended_detail event user_id)
    give sessions_ended

  unfoldable pub apply_to_user : IdTokenClaims → String → String → Handler S EventOutcome
  apply_to_user claims event user_id =
      if event == user_deleted
      then delete_member claims event user_id
      else end_member_sessions event user_id

  abbrev pub apply_to_found : IdTokenClaims → String → Option String → Handler S EventOutcome
  apply_to_found claims event none = give unknown_member
  apply_to_found claims event (some user_id) =
      if truthy_text user_id then apply_to_user claims event user_id else give unknown_member

  unfoldable pub apply_identity_event : IdTokenClaims → String → Handler S EventOutcome
  apply_identity_event claims event = do
    found ← store.find_user_id claims.iss claims.sub
    apply_to_found claims event found

  -- What follows the verification in `receiveIdentityEvent`.
  unfoldable pub apply_verified : Exec Refusal EventClaims → Handler S ReceiveResult
  apply_verified (returned (claims, event)) = do
    outcome ← apply_identity_event claims event
    give (accepted event outcome)
  apply_verified (rejected refusal) = give (refused refusal)
  apply_verified thrown = λ s. (s, thrown)

  -- `receiveIdentityEvent`, with the isolate's JWKS cache passed through.
  unfoldable pub receive_identity_event :
      Runtime
      → JwksCache
      → String
      → IssuerConfig
      → Option ℕ
      → S
      → JwksCache × (S × Exec Response ReceiveResult)
  receive_identity_event r cache token issuer now s =
      let (cache', verified) = verify_identity_event r cache token issuer now in
      (cache', apply_verified verified s)
