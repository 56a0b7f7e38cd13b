-- ===== src/Events/Outcomes.antt =====
-- What each outcome of an identity event says about the calls that were made, for every store.
use simtrader.Base.{
  ℕ, String, ◌==◌, eq_iff, Option, none, some, Exec, returned, rejected, thrown, truthy_text, ◌≡◌,
  refl, ap, ap₂, subst, ◌∙◌, ◌≢◌, inl, inr, arith, Bool-cases,
}
use simtrader.Http.{continue-eq-returned}
use simtrader.Jwt.{
  IdTokenClaims, IssuerConfig, Runtime, VerifyFailure, jwks_unavailable, identity_event_typ,
}
use simtrader.Jwt.Keys.{JwksCache}
use simtrader.Jwt.Verify.{VerifyResult, verify_id_token}
use simtrader.Events.{
  IdentityEventStore, EventOutcome, erased, Refusal, refusal, reason_text, user_deleted,
  known_event, read_event, verify_identity_event, delete_member, end_member_sessions, apply_to_user,
  apply_to_found, apply_verified, accepted, apply_identity_event, erased_detail, EventClaims,
}

-- A refusal says 503 exactly when the issuer's keys could not be fetched, 400 exactly when a
-- genuine token names no known event, and 401 otherwise.
abbrev pub RefusalFits : Exec VerifyFailure IdTokenClaims → ℕ → Type 0
RefusalFits (rejected jwks_unavailable) status = status ≡ 503
RefusalFits (rejected failure) status = status ≡ 401
RefusalFits (returned claims) status = status ≡ 400
RefusalFits thrown status = ⊥

read_event-RefusalFits :
    (result : VerifyResult) (why : Refusal)
    → read_event result ≡ rejected why
    → RefusalFits result why.status
unfolding read_event refusal known_event reason_text
read_event-RefusalFits (returned claims) why e = ground arith
read_event-RefusalFits (rejected jwks_unavailable) why e = ground arith
read_event-RefusalFits (rejected failure) why e = ground arith
read_event-RefusalFits thrown why e = absurd (cc)

module _ {S : Type 0} (store : IdentityEventStore S) (claims : IdTokenClaims) (event : String) where
  -- The calls of a deletion, in their order: each ended well before the next was made.
  pub record IsErasure (user_id : String) (s s' : S) : Type 0 where
    pub found : S
    pub ended : S
    pub gone : S
    pub finds : store.find_user_id claims.iss claims.sub s ≡ (found, returned (some user_id))
    pub ends : store.end_sessions user_id found ≡ (ended, returned tt)
    pub erases : store.erase_user user_id ended ≡ (gone, returned tt)
    pub audits : store.audit "user.erased" (erased_detail claims event) gone ≡ (s', returned tt)

  delete_member-calls :
      (user_id : String) (s s' : S) {outcome : EventOutcome}
      → delete_member store claims event user_id s ≡ (s', returned outcome)
      → (ended : S) × (gone : S) × (store.end_sessions user_id s ≡ (ended, returned tt))
        × (store.erase_user user_id ended ≡ (gone, returned tt))
        × (store.audit "user.erased" (erased_detail claims event) gone ≡ (s', returned tt))
  unfolding delete_member
  delete_member-calls user_id s s' e =
      let (ended, u1, ends, e1) = continue-eq-returned (store.end_sessions user_id s) _ e in
      let (gone, u2, erases, e2) = continue-eq-returned (store.erase_user user_id ended) _ e1 in
      let (last, u3, audits, e3) = continue-eq-returned (store.audit _ _ gone) _ e2 in
      (ended, gone, ends, erases, audits ∙ ap (λ p. (p.0, returned tt)) e3)

  end_member_sessions-ne-erased :
      (user_id : String) (s s' : S)
      → end_member_sessions store event user_id s ≢ (s', returned erased)
  unfolding end_member_sessions
  end_member_sessions-ne-erased user_id s s' e =
      let (ended, u1, ends, e1) = continue-eq-returned (store.end_sessions user_id s) _ e in
      let (last, u2, audits, e2) = continue-eq-returned (store.audit _ _ ended) _ e1 in
      absurd (cc (ap (λ p. p.1) e2))

  apply_to_found-erased :
      (result : Option String) (s s' : S)
      → apply_to_found store claims event result s ≡ (s', returned erased)
      → (user_id : String) × (result ≡ some user_id)
        × (event ≡ user_deleted)
        × (delete_member store claims event user_id s ≡ (s', returned erased))
  unfolding apply_to_user
  apply_to_found-erased none s s' e = absurd (cc (ap (λ p. p.1) e))
  apply_to_found-erased (some user_id) s s' e = elim (Bool-cases (truthy_text user_id)) [
    | inr empty ↦ absurd (let e1 = rw empty at e in cc (ap (λ p. p.1) e1))
    | inl named ↦ elim (Bool-cases (event == user_deleted)) [
      | inl deletion ↦
          (user_id, refl, (eq_iff event user_deleted).0 deletion, rw (named, deletion) at e)
      | inr other ↦ absurd (end_member_sessions-ne-erased user_id s s' (rw (named, other) at e))
    ]
  ]

  -- An erasure is reported only for a deletion, once the sessions were ended, then the user was
  -- erased, then the audit row was written, each without an exception.
  pub apply-IsErasure :
      (s s' : S)
      → apply_identity_event store claims event s ≡ (s', returned erased)
      → (event ≡ user_deleted) × ((user_id : String) × IsErasure user_id s s')
  unfolding apply_identity_event
  apply-IsErasure s s' e =
      let (found, result, finds, e1) =
        continue-eq-returned (store.find_user_id claims.iss claims.sub s) _ e in
      let (user_id, known, deletion, e2) = apply_to_found-erased result found s' e1 in
      let (ended, gone, ends, erases, audits) = delete_member-calls user_id found s' e2 in
      (
        deletion,
        (
          user_id,
          record {
            found = found;
            ended = ended;
            gone = gone;
            finds = rw (← known) finds;
            ends = ends;
            erases = erases;
            audits = audits;
          },
        ),
      )

-- A refused event has status 503 exactly where the verifier could not fetch the keys, 400 where
-- the verifier accepted the token, and 401 for any other failure.
pub verify_identity_event-RefusalFits :
    (r : Runtime) (cache : JwksCache) (token : String) (issuer : IssuerConfig) (why : Refusal)
    → (verify_identity_event r cache token issuer none).1 ≡ rejected why
    → RefusalFits
        (verify_id_token r cache token issuer
          (record { nonce = none; typ = some identity_event_typ; now = none })).1
        why.status
unfolding verify_identity_event
verify_identity_event-RefusalFits r cache token issuer why e = read_event-RefusalFits _ why e

-- A result other than a refusal comes from a verified event.
pub apply_verified-erased :
    {S : Type 0} (store : IdentityEventStore S) (verified : Exec Refusal EventClaims)
    (event : String) (s s' : S)
    → apply_verified store verified s ≡ (s', returned (accepted event erased))
    → (claims : IdTokenClaims) × (verified ≡ returned (claims, event))
      × (apply_identity_event store claims event s ≡ (s', returned erased))
unfolding apply_verified
apply_verified-erased store (returned (claims, name)) event s s' e =
    let (last, outcome, applied, e1) =
      continue-eq-returned (apply_identity_event store claims name s) _ e in
    let named : name ≡ event = cc (ap (λ p. p.1) e1) in
    let is_erased : outcome ≡ erased = cc (ap (λ p. p.1) e1) in
    (
      claims,
      ap (λ n. returned (claims, n)) named,
      subst (λ n. apply_identity_event store claims n s ≡ (s', returned erased)) named
          (applied ∙ ap₂ (λ a o. (a, returned o)) (ap (λ p. p.0) e1) is_erased),
    )
apply_verified-erased store (rejected why) event s s' e = absurd (cc (ap (λ p. p.1) e))
apply_verified-erased store thrown event s s' e = absurd (cc (ap (λ p. p.1) e))
