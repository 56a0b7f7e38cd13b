-- ===== src/Jwt/Separation.antt =====
-- One key signs both ID tokens and identity events; the header's `typ` keeps them apart.
use simtrader.Base.{String, none, some, returned, ◌≡◌, ◌≢◌, sym, subst}
use simtrader.Json.{str, get_prop}
use simtrader.Jwt.{IssuerConfig, IdTokenClaims, Runtime, VerifyOptions, identity_event_typ}
use simtrader.Jwt.Parse.{ParsedJwt, parse_jwt_parts}
use simtrader.Jwt.Keys.{JwksCache}
use simtrader.Jwt.Policy.{TypFits}
use simtrader.Jwt.Soundness.{verify_id_token_iff}
use simtrader.Jwt.Verify.{verify_id_token}

typ_of :
    (r : Runtime) (cache : JwksCache) (token : String) (config : IssuerConfig) (o : VerifyOptions)
    (c : IdTokenClaims)
    → (verify_id_token r cache token config o).1 ≡ returned c
    → (p : ParsedJwt) × (parse_jwt_parts r token ≡ some p) × TypFits o.typ (get_prop p.header "typ")
typ_of r cache token config o c e =
    let g = (verify_id_token_iff r cache token config o c).0 e in
    (g.parsed, g.parses, (g.acceptable).typ)

-- A token that is accepted as a sign-in is accepted as an event nowhere and never, whatever the
-- issuer, the keys and the time, as long as both sides decode it alike.
pub event-ne-sign_in :
    (r r' : Runtime) (cache cache' : JwksCache) (token : String) (config config' : IssuerConfig)
    (o o' : VerifyOptions) (c c' : IdTokenClaims)
    → parse_jwt_parts r token ≡ parse_jwt_parts r' token
    → o.typ ≡ none
    → o'.typ ≡ some identity_event_typ
    → (verify_id_token r cache token config o).1 ≡ returned c
    → (verify_id_token r' cache' token config' o').1 ≢ returned c'
event-ne-sign_in r r' cache cache' token config config' o o' c c' alike plain event e e' =
    let (p, parses, fits) = typ_of r cache token config o c e in
    let (p', parses', fits') = typ_of r' cache' token config' o' c' e' in
    let same : p ≡ p' = cc in
    let not_event = subst (λ t. TypFits t (get_prop p.header "typ")) plain fits in
    let is_event = subst (λ t. TypFits t (get_prop p'.header "typ")) event fits' in
    not_event
      (subst (λ q. get_prop q.header "typ" ≡ some (str identity_event_typ)) (sym same) is_event)
