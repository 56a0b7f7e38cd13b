-- ===== src/Jwt/Soundness.antt =====
-- What a token that `verifyIdToken` accepts has been shown to be, and that nothing else is asked.
use simtrader.Base.{
  String, eq_iff, true, false, Option, none, some, List, [], ◌∷◌, In, In-filter_iff, any_iff,
  returned, ◌≡◌, refl, ◌↔◌, ◌⊎◌, inl, inr, arith, Bool-cases, Option-cases,
}
use simtrader.Json.{Json, str, get_prop, truthy}
use simtrader.Jwt.{
  SignatureAlg, alg_name, IssuerConfig, IdTokenClaims, claims_of, Runtime, VerifyOptions, JwkKey,
}
use simtrader.Jwt.Parse.{ParsedJwt, parse_jwt_parts}
use simtrader.Jwt.Claims.{check_claims}
use simtrader.Jwt.Policy.{Acceptable, check_claims_iff, equals_string_iff}
use simtrader.Jwt.Keys.{
  JwksCache, alg_agrees, kid_agrees, candidates, fetch_jwks, try_key, import_algorithm,
  verify_params, expected_kty,
}
use simtrader.Jwt.Verify.{now_seconds, verify_with, verify_signature, verify_id_token}

-- A key that the issuer's algorithm may use for a token with this `kid`.
pub record IsUsable (alg : SignatureAlg) (kid : Option Json) (k : JwkKey) : Type 0 where
  pub kty : k.kty ≡ expected_kty alg
  pub alg_fits : (k.alg ≡ none) ⊎ (k.alg ≡ some (alg_name alg))
  pub kid_fits : (truthy kid ≡ false) ⊎ ((s : String) × (kid ≡ some (str s)) × (k.kid ≡ some s))

alg_agrees_iff :
    (alg : SignatureAlg) (name : Option String)
    → (alg_agrees alg name ≡ true) ↔ ((name ≡ none) ⊎ (name ≡ some (alg_name alg)))
alg_agrees_iff alg none = ground arith
alg_agrees_iff alg (some name) = ground (arith, eq_iff name (alg_name alg))

kid_agrees_iff :
    (kid : Option Json) (name : Option String)
    → (kid_agrees kid name ≡ true)
      ↔ ((truthy kid ≡ false) ⊎ ((s : String) × (kid ≡ some (str s)) × (name ≡ some s)))
kid_agrees_iff kid none = elim (Bool-cases (truthy kid)) [
  | inl given ↦
      rw given
        ((λ h. absurd (cc)), elim [ inl no_kid ↦ absurd (cc) | inr (s, e, other) ↦ absurd (cc) ])
  | inr absent ↦ rw absent ((λ h. inl refl), λ h. refl)
]
kid_agrees_iff kid (some name) = elim (Bool-cases (truthy kid)) [
  | inl given ↦ rw given (
    (λ h. inr (name, (equals_string_iff kid name).0 h, refl)),
    elim [ inl no_kid ↦ absurd (cc) | inr (s, e, other) ↦ (equals_string_iff kid name).1 (cc) ],
  )
  | inr absent ↦ rw absent ((λ h. inl refl), λ h. refl)
]

candidates_iff :
    (alg : SignatureAlg) (kid : Option Json) (keys : List JwkKey) (k : JwkKey)
    → In k (candidates alg kid keys) ↔ (In k keys × IsUsable alg kid k)
unfolding candidates
candidates_iff alg kid keys k = (
  (λ h.
      let (h1, kid_ok) = (In-filter_iff _ k _).0 h in
      let (h2, alg_ok) = (In-filter_iff _ k _).0 h1 in
      let (listed, kty_ok) = (In-filter_iff _ k _).0 h2 in
      (
        listed,
        record {
          kty = (eq_iff k.kty (expected_kty alg)).0 kty_ok;
          alg_fits = (alg_agrees_iff alg k.alg).0 alg_ok;
          kid_fits = (kid_agrees_iff kid k.kid).0 kid_ok;
        },
      )),
  (λ h. (In-filter_iff _ k _).1 (
    (In-filter_iff _ k _).1 (
      (In-filter_iff _ k _).1 (h.0, (eq_iff k.kty (expected_kty alg)).1 (h.1).kty),
      (alg_agrees_iff alg k.alg).1 (h.1).alg_fits,
    ),
    (kid_agrees_iff kid k.kid).1 (h.1).kid_fits,
  )),
)

module _ (r : Runtime) where
  -- The key imports for the algorithm, and the platform confirms the signature under it.
  abbrev pub Signs : SignatureAlg → ParsedJwt → JwkKey → Type 0
  Signs alg p k =
      (key : r.CryptoKey) × (r.import_key k (import_algorithm k alg) ≡ some key)
      × (r.verify (verify_params alg) key p.sig p.message ≡ some true)

  try_key_iff :
      (alg : SignatureAlg) (p : ParsedJwt) (k : JwkKey)
      → (try_key r alg p.sig p.message k ≡ true) ↔ Signs alg p k
  unfolding try_key
  try_key_iff alg p k = elim (Option-cases (r.import_key k (import_algorithm k alg))) [
    | inl failed ↦ rw (failed, try_key) ((λ h. absurd (cc)), λ h. absurd (cc (h.1)))
    | inr (key, imported) ↦ ((λ h. (key, imported, ground arith)), λ h. ground arith)
  ]

  verify_with_iff :
      (config : IssuerConfig) (p : ParsedJwt) (usable : List JwkKey) (c : IdTokenClaims)
      → (verify_with r config p usable ≡ returned c)
        ↔ ((c ≡ claims_of p.payload) × ((k : JwkKey) × In k usable × Signs config.alg p k))
  unfolding verify_with
  verify_with_iff config p [] c = ((λ h. absurd (cc)), λ h. elim (h.1.1) [ ])
  verify_with_iff config p (k ∷ ks) c =
      let (to, from) = any_iff (try_key r config.alg p.sig p.message) (k ∷ ks) in
      (
        (λ h.
            let (x, listed, tried) = to (ground arith) in
            (ground arith, (x, listed, (try_key_iff config.alg p x).0 tried))),
        (λ h.
            let (x, listed, signs) = h.1 in
            let hit = from (x, listed, (try_key_iff config.alg p x).1 signs) in ground arith),
      )

  -- What makes a token acceptable: it parses, its claims pass the policy, and one of the issuer's
  -- usable keys signs it.
  pub record IsGenuine (cache : JwksCache) (token : String) (config : IssuerConfig)
      (options : VerifyOptions) (c : IdTokenClaims) : Type 0 where
    pub parsed : ParsedJwt
    pub parses : parse_jwt_parts r token ≡ some parsed
    pub acceptable : Acceptable config options (now_seconds r options) parsed.header parsed.payload
    pub keys : List JwkKey
    pub fetched : (fetch_jwks r cache config.jwks_url).1 ≡ some keys
    pub key : JwkKey
    pub listed : In key keys
    pub usable : IsUsable config.alg (get_prop parsed.header "kid") key
    pub signs : Signs config.alg parsed key
    pub claims : c ≡ claims_of parsed.payload

  module _ (cache : JwksCache) (token : String) (config : IssuerConfig) (options : VerifyOptions)
      (c : IdTokenClaims) where
    checked_of_returned :
        (p : ParsedJwt)
        → parse_jwt_parts r token ≡ some p
        → (verify_id_token r cache token config options).1 ≡ returned c
        → (check_claims config options (now_seconds r options) p.header p.payload ≡ returned tt)
          × ((verify_signature r cache config p).1 ≡ returned c)
    unfolding verify_id_token
    checked_of_returned p parses e = (ground arith, ground arith)

    signed_of_returned :
        (p : ParsedJwt)
        → (verify_signature r cache config p).1 ≡ returned c
        → (keys : List JwkKey) × ((fetch_jwks r cache config.jwks_url).1 ≡ some keys)
          × (verify_with r config p (candidates config.alg (get_prop p.header "kid") keys)
              ≡ returned c)
    unfolding verify_signature
    signed_of_returned p e = elim (Option-cases (fetch_jwks r cache config.jwks_url).1) [
      | inl failed ↦ absurd (ground arith)
      | inr (keys, fetched) ↦ (keys, fetched, ground arith)
    ]

    verify-IsGenuine :
        (verify_id_token r cache token config options).1 ≡ returned c
        → IsGenuine cache token config options c
    unfolding verify_id_token
    verify-IsGenuine e = elim (Option-cases (parse_jwt_parts r token)) [
      | inl bad ↦ absurd (ground arith)
      | inr (p, parses) ↦
          let (checked, verified) = checked_of_returned p parses e in
          let (keys, fetched, decided) = signed_of_returned p verified in
          let (claims, signed) = (verify_with_iff config p _ c).0 decided in
          let (key, candidate, signs) = signed in
          let (listed, usable) = (candidates_iff config.alg _ keys key).0 candidate in
          record {
            parsed = p;
            parses = parses;
            acceptable = (check_claims_iff config options _ p.header p.payload).0 checked;
            keys = keys;
            fetched = fetched;
            key = key;
            listed = listed;
            usable = usable;
            signs = signs;
            claims = claims;
          }
    ]

    IsGenuine-verify :
        IsGenuine cache token config options c
        → (verify_id_token r cache token config options).1 ≡ returned c
    IsGenuine-verify g =
        let checked =
          (check_claims_iff config options (now_seconds r options) g.parsed.header
              g.parsed.payload).1
            g.acceptable in
        let usable =
          (candidates_iff config.alg (get_prop g.parsed.header "kid") g.keys g.key).1
            (g.listed, g.usable) in
        let decided =
          (verify_with_iff config g.parsed _ c).1 (g.claims, (g.key, usable, g.signs)) in
        unfold verify_id_token verify_signature in
        ground (arith, g.parses, checked, g.fetched, decided)

    -- The verifier accepts exactly the genuine tokens.
    pub verify_id_token_iff :
        ((verify_id_token r cache token config options).1 ≡ returned c)
        ↔ IsGenuine cache token config options c
    verify_id_token_iff = (verify-IsGenuine, IsGenuine-verify)
