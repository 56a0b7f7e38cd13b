-- ===== src/Jwt/Policy.antt =====
-- What the claim checks of `verifyIdToken` accept, as a specification, and the proof that the
-- checks decide it.
use simtrader.Base.{
  ℕ, ℤ, ◌+ℤ◌, ◌-ℤ◌, ◌≤ℤ◌, ◌<ℤ◌, +ℤ_parts, -ℤ_parts, whole, ltb_ℤ, String, eq_iff, true, false,
  Option, none, some, List, [], ◌∷◌, any, In, returned, >>=-eq-returned, ◌≡◌, refl, ap, ◌≢◌, ◌↔◌,
  ◌⊎◌, inl, inr, arith,
}
use simtrader.Json.{Json, null, str, arr, get_prop, as_number, equals_string, to_list}
use simtrader.Jwt.{IssuerConfig, VerifyOptions, alg_name, identity_event_typ, leeway_seconds}
use simtrader.Jwt.Claims.{
  typ_allowed, check_header, aud_match, check_identity, check_exp, check_iat, check_nbf,
  check_nonce, check_claims,
}

-- The header's `typ` is the wanted one; with none wanted, it is not that of an event.
abbrev pub TypFits : Option String → Option Json → Type 0
TypFits none typ = typ ≢ some (str identity_event_typ)
TypFits (some wanted) typ = typ ≡ some (str wanted)

-- The audience is named alone or in a list.
abbrev pub AudienceFits : Option Json → String → Type 0
AudienceFits aud audience =
    (aud ≡ some (str audience))
    ⊎ ((vs : _) × (aud ≡ some (arr vs)) × In (str audience) (to_list vs))

abbrev pub NonceFits : Option String → Option Json → Type 0
NonceFits none claim = Unit
NonceFits (some wanted) claim = claim ≡ some (str wanted)

pub equals_string_iff :
    (v : Option Json) (s : String) → (equals_string v s ≡ true) ↔ (v ≡ some (str s))
equals_string_iff none s = ground arith
equals_string_iff (some (str t)) s = ground (arith, eq_iff t s)
equals_string_iff (some _) s = ground arith

any-equals_string :
    (vs : List Json) (s : String) → (any (λ v. equals_string (some v) s) vs ≡ true) ↔ In (str s) vs
any-equals_string [] s = ((λ h. absurd (cc)), λ h. elim h [ ])
any-equals_string (v ∷ vs) s = ground (arith, equals_string_iff (some v) s, any-equals_string vs s)

typ_allowed_iff :
    (wanted : Option String) (typ : Option Json)
    → (typ_allowed wanted typ ≡ true) ↔ TypFits wanted typ
unfolding typ_allowed
typ_allowed_iff none typ = ground (arith, equals_string_iff typ identity_event_typ)
typ_allowed_iff (some wanted) typ = equals_string_iff typ wanted

aud_match_iff :
    (aud : Option Json) (audience : String)
    → (aud_match aud audience ≡ true) ↔ AudienceFits aud audience
unfolding aud_match
aud_match_iff (some (arr vs)) audience =
    let (to, from) = any-equals_string (to_list vs) audience in
    (
      (λ h. inr (vs, refl, to h)),
      (elim [
        | inl e ↦ absurd (cc)
        | inr (ws, e, listed) ↦ let same : vs ≡ ws = cc in from (rw same listed)
      ]),
    )
aud_match_iff (some (str s)) audience = (
  (λ h. inl (ap (λ t. some (str t)) ((eq_iff s audience).0 h))),
  (elim [ inl e ↦ (eq_iff s audience).1 (cc) | inr (ws, e, listed) ↦ absurd (cc) ]),
)
aud_match_iff aud audience =
    ((λ h. absurd (cc)), (elim [ inl e ↦ absurd (cc) | inr (ws, e, listed) ↦ absurd (cc) ]))

check_header_iff :
    (config : IssuerConfig) (options : VerifyOptions) (header : Json)
    → (check_header config options header ≡ returned tt) ↔ (
        (header ≢ null)
        × TypFits options.typ (get_prop header "typ")
        × (get_prop header "alg" ≡ some (str (alg_name config.alg))))
unfolding check_header
check_header_iff config options null = ((λ h. absurd (cc)), λ h. absurd (h.0 refl))
check_header_iff config options header = ground (
  arith,
  typ_allowed_iff options.typ (get_prop header "typ"),
  equals_string_iff (get_prop header "alg") (alg_name config.alg),
)

check_identity_iff :
    (config : IssuerConfig) (payload : Json)
    → (check_identity config payload ≡ returned tt) ↔ (
        (payload ≢ null)
        × (get_prop payload "iss" ≡ some (str config.issuer))
        × AudienceFits (get_prop payload "aud") config.audience)
unfolding check_identity
check_identity_iff config null = ((λ h. absurd (cc)), λ h. absurd (h.0 refl))
check_identity_iff config payload = ground (
  arith,
  equals_string_iff (get_prop payload "iss") config.issuer,
  aud_match_iff (get_prop payload "aud") config.audience,
)

check_exp_iff :
    (now : ℕ) (claim : Option ℤ)
    → (check_exp now claim ≡ returned tt)
      ↔ ((exp : ℤ) × (claim ≡ some exp) × (whole now <ℤ exp +ℤ whole leeway_seconds))
unfolding check_exp
check_exp_iff now none = ((λ h. absurd (cc)), λ h. absurd (cc (h.1)))
check_exp_iff now (some exp) = ((λ h. (exp, refl, ground arith)), λ h. ground arith)

-- The code compares `claim - leeway` with now, the policy `claim` with now plus the leeway.
not_future_iff :
    (now : ℕ) (time : ℤ)
    → (ltb_ℤ (whole now) (time -ℤ whole leeway_seconds) ≡ false)
      ↔ (time ≤ℤ whole now +ℤ whole leeway_seconds)
not_future_iff now time =
    ground
      (arith, -ℤ_parts time (whole leeway_seconds), +ℤ_parts (whole now) (whole leeway_seconds))

check_iat_iff :
    (now : ℕ) (claim : Option ℤ)
    → (check_iat now claim ≡ returned tt)
      ↔ ((iat : ℤ) × (claim ≡ some iat) × (iat ≤ℤ whole now +ℤ whole leeway_seconds))
unfolding check_iat
check_iat_iff now none = ((λ h. absurd (cc)), λ h. absurd (cc (h.1)))
check_iat_iff now (some iat) =
    let (to, from) = not_future_iff now iat in
    (
      (λ h. (iat, refl, to (ground arith))),
      λ h. let same : iat ≡ h.0 = cc (h.1) in rw (from (rw same h.2)) refl,
    )

check_nbf_iff :
    (now : ℕ) (claim : Option ℤ)
    → (check_nbf now claim ≡ returned tt)
      ↔ ((nbf : ℤ) → claim ≡ some nbf → nbf ≤ℤ whole now +ℤ whole leeway_seconds)
unfolding check_nbf
check_nbf_iff now none = ((λ h nbf e. absurd (cc)), λ h. refl)
check_nbf_iff now (some nbf) =
    let (to, from) = not_future_iff now nbf in
    (
      (λ h n e. let same : nbf ≡ n = cc in rw (← same) (to (ground arith))),
      λ h. rw (from (h nbf refl)) refl,
    )

check_nonce_iff :
    (wanted : Option String) (payload : Json)
    → (check_nonce wanted payload ≡ returned tt) ↔ NonceFits wanted (get_prop payload "nonce")
unfolding check_nonce
check_nonce_iff none payload = ((λ h. tt), λ h. refl)
check_nonce_iff (some wanted) payload =
    ground (arith, equals_string_iff (get_prop payload "nonce") wanted)

-- What the verifier accepts of a header and a payload at a time in seconds.
pub record Acceptable (config : IssuerConfig) (options : VerifyOptions) (now : ℕ)
    (header payload : Json) : Type 0 where
  pub header_given : header ≢ null
  pub typ : TypFits options.typ (get_prop header "typ")
  pub alg : get_prop header "alg" ≡ some (str (alg_name config.alg))
  pub payload_given : payload ≢ null
  pub iss : get_prop payload "iss" ≡ some (str config.issuer)
  pub aud : AudienceFits (get_prop payload "aud") config.audience
  pub exp :
      (exp : ℤ) × (as_number (get_prop payload "exp") ≡ some exp)
      × (whole now <ℤ exp +ℤ whole leeway_seconds)
  pub iat :
      (iat : ℤ) × (as_number (get_prop payload "iat") ≡ some iat)
      × (iat ≤ℤ whole now +ℤ whole leeway_seconds)
  pub nbf :
      (nbf : ℤ)
      → as_number (get_prop payload "nbf") ≡ some nbf
      → nbf ≤ℤ whole now +ℤ whole leeway_seconds
  pub nonce : NonceFits options.nonce (get_prop payload "nonce")

module _ (config : IssuerConfig) (options : VerifyOptions) (now : ℕ) (header payload : Json) where
  check_claims-Acceptable :
      check_claims config options now header payload ≡ returned tt
      → Acceptable config options now header payload
  unfolding check_claims
  check_claims-Acceptable e =
      let (tt, head, e1) = >>=-eq-returned _ _ e in
      let (tt, identity, e2) = >>=-eq-returned _ _ e1 in
      let (tt, exp, e3) = >>=-eq-returned _ _ e2 in
      let (tt, iat, e4) = >>=-eq-returned _ _ e3 in
      let (tt, nbf, nonce) = >>=-eq-returned _ _ e4 in
      let (a1, a2, a3) = (check_header_iff config options header).0 head in
      let (b1, b2, b3) = (check_identity_iff config payload).0 identity in
      record {
        header_given = a1;
        typ = a2;
        alg = a3;
        payload_given = b1;
        iss = b2;
        aud = b3;
        exp = (check_exp_iff now _).0 exp;
        iat = (check_iat_iff now _).0 iat;
        nbf = (check_nbf_iff now _).0 nbf;
        nonce = (check_nonce_iff options.nonce payload).0 nonce;
      }

  Acceptable-check_claims :
      Acceptable config options now header payload
      → check_claims config options now header payload ≡ returned tt
  unfolding check_claims
  Acceptable-check_claims a = rw (
    (check_header_iff config options header).1 (a.header_given, a.typ, a.alg),
    (check_identity_iff config payload).1 (a.payload_given, a.iss, a.aud),
    (check_exp_iff now _).1 a.exp,
    (check_iat_iff now _).1 a.iat,
    (check_nbf_iff now _).1 a.nbf,
    (check_nonce_iff options.nonce payload).1 a.nonce,
  )

  -- The claim checks pass exactly on an acceptable header and payload.
  pub check_claims_iff :
      (check_claims config options now header payload ≡ returned tt)
      ↔ Acceptable config options now header payload
  check_claims_iff = (check_claims-Acceptable, Acceptable-check_claims)
