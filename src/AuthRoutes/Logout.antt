-- ===== src/AuthRoutes/Logout.antt =====
-- Who logs out is out.
use simtrader.Base.{
  ℕ, ◌≤◌, String, eq_refl, true, Option, none, some, truthy_text, Exec, returned, ◌≡◌, ◌≢◌, refl,
  sym, ap, ◌∙◌, subst,
}
use simtrader.Http.{Response, continue-eq-returned}
use simtrader.Kv.{KvNamespace}
use simtrader.World.{World, kv, kv-returned}
use simtrader.Session.{SessionData, validate_session, destroy_session}
use simtrader.Session.Lookup.{get-destroy_session}
use simtrader.Access.{HonoVars, has_user, session_middleware}
use simtrader.Access.Admission.{session_middleware-IsSignedIn}
use simtrader.AuthRoutes.{end_session, logout}

module _ (K : KvNamespace) where
  logout-returned :
      (now : ℕ) (token : String) (w w' : World K) {response : Response}
      → truthy_text token ≡ true
      → logout now (some token) w ≡ (w', returned response)
      → w'.kv ≡ destroy_session K w.kv now token
  unfolding logout end_session
  logout-returned now token w w' given e =
      let destroys : K.Store → K.Store × Unit {0} = λ s. (destroy_session K s now token, tt) in
      let (w1, u, h1, e1) = continue-eq-returned (kv destroys w) _ (rw given at e) in
      ap (λ p. p.0.kv) (sym e1) ∙ (kv-returned destroys w w1 u h1).0

  validate-destroyed :
      (now later : ℕ) (token : String) (s : K.Store)
      → now ≤ later
      → validate_session K {E = Response} (destroy_session K s now token) later token
        ≡ returned none
  unfolding validate_session
  validate-destroyed now later token s after =
      rw (get-destroy_session K s now later token token after, validate_session, eq_refl token) refl

  found-none :
      (session : SessionData)
      → ◌≢◌ {A = Exec Response (Option SessionData)} (returned (some session)) (returned none)
  found-none session e = cc

  -- In the state that a successful logout left, the session's cookie signs nobody in, from
  -- that time on.
  pub logout-ends :
      (now later : ℕ) (token : String) (w w' w'' : World K) (response : Response) (vars : HonoVars)
      → truthy_text token ≡ true
      → now ≤ later
      → logout now (some token) w ≡ (w', returned response)
      → session_middleware later (some token) w' ≡ (w'', returned vars)
      → has_user vars ≢ true
  logout-ends now later token w w' w'' response vars given after e seen named =
      let admission = session_middleware-IsSignedIn K later (some token) w' w'' vars seen named in
      let live =
        subst
          (λ s. validate_session K {E = Response} s later token ≡ returned (some admission.session))
          (logout-returned now token w w' given e) admission.live in
      found-none admission.session (sym live ∙ validate-destroyed now later token w.kv after)
