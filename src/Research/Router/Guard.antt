-- ===== src/Research/Router/Guard.antt =====
-- What a request under /research may do.
use simtrader.Base.{
  ◌==◌, true, any, Exec, returned, rejected, thrown, ◌≡◌, ◌⊎◌, inl, inr, refl, ap, ap₂, ◌∙◌, subst,
  Empty,
}
use simtrader.Http.{Response, continue}
use simtrader.Kv.{KvNamespace}
use simtrader.World.{World}
use simtrader.World.ReadOnly.{stored}
use simtrader.Access.{HonoVars, session_middleware, require_admin, enter_admin}
use simtrader.Access.Admission.{IsSignedIn}
use simtrader.Research.{Principal, require_research_auth, require_research_or_session}
use simtrader.Research.Admission.{require_research-IsAdmitted}
use simtrader.Access.Admission.{enter_admin-IsSignedIn}
use simtrader.Site.Reading.{session_middleware-IsReading, require_admin-IsReading}
use simtrader.Research.Router.Refusal.{of_reading, auth-KeepsOnRefusal}
use simtrader.Research.Router.Entry.{
  IsAlike, IsBearer, IsBearer-alike, IsSessionUser, IsSessionUser-alike, session_middleware-jwks,
  either-KeepsOnRefusal, either-IsAdmitted, guarded,
}
use simtrader.Research.Router.{
  research_route, research_path, serve_key, serve_engine, serve_shared, serve_research_end,
  serve_research, ResearchPlatform, ResearchCall, ResearchEndpoint, now_of,
}

module _ {K : KvNamespace} (p : ResearchPlatform) (call : ResearchCall) where
  -- An active admin with a live session that a second factor was used for.
  abbrev pub IsAdminCall : World K → Type 0
  IsAdminCall w =
      (vars : HonoVars) × ((admission : IsSignedIn K (now_of p) call.cookie w vars)
        × (admission.user.role ≡ "admin")
        × (any (λ method. method == "otp") admission.session.amr ≡ true))

  -- Someone with an engine key or an ID token.
  abbrev pub IsEngineCall : World K → Type 0
  IsEngineCall w =
      (vars : HonoVars) × (principal : Principal) × IsBearer K p.runtime p.resolve p.env
        p.sha256_hex vars call.authorization call.cookie w principal

  -- The same, or an active user with a live session.
  abbrev pub IsSharedCall : World K → Type 0
  IsSharedCall w =
      IsEngineCall w
      ⊎ ((principal : Principal) × IsSessionUser K (now_of p) call.cookie w principal)

  -- Who may change something through an endpoint.
  abbrev pub IsEntitled : ResearchEndpoint → World K → Type 0
  IsEntitled ResearchEndpoint.health_end w = Empty
  IsEntitled ResearchEndpoint.unknown_end w = Empty
  IsEntitled (ResearchEndpoint.key_end end) w = IsAdminCall w
  IsEntitled (ResearchEndpoint.engine_end end) w = IsEngineCall w
  IsEntitled (ResearchEndpoint.shared_end end) w = IsSharedCall w

  admin-IsAdminCall :
      (w v v' : World K) (vars : HonoVars) (u : Unit {0})
      → session_middleware (now_of p) call.cookie w ≡ (v, returned vars)
      → require_admin vars (research_path call) v ≡ (v', returned u)
      → IsAdminCall w
  admin-IsAdminCall w v v' vars u first second =
      let entered : enter_admin (now_of p) call.cookie (research_path call) w
          ≡ (v', returned vars) =
        unfold enter_admin in rw (first, second) refl in
      (vars, enter_admin-IsSignedIn K (now_of p) call.cookie (research_path call) w v' vars entered)

  stored-alike : (v w : World K) → IsAlike K v w → stored v ≡ stored w
  stored-alike v w same = ap₂ (λ db kv. (db, kv)) same.db same.kv

  end-IsEntitled :
      (end : ResearchEndpoint) (w v : World K) (vars : HonoVars)
      → session_middleware (now_of p) call.cookie w ≡ (v, returned vars)
      → IsAlike K v w
      → (stored (serve_research_end p call vars end v).0 ≡ stored w) ⊎ IsEntitled end w
  unfolding serve_research_end
  end-IsEntitled ResearchEndpoint.health_end w v vars e same = inl (stored-alike v w same)
  end-IsEntitled ResearchEndpoint.unknown_end w v vars e same = inl (stored-alike v w same)
  end-IsEntitled (ResearchEndpoint.key_end end) w v vars e same =
      let guard = require_admin vars (research_path call) in
      elim (guarded K guard (λ u. serve_key p call vars end) v
        (of_reading guard (require_admin-IsReading vars (research_path call)))) [
          | inl refused ↦ inl (refused ∙ stored-alike v w same)
          | inr (v', u, passed) ↦ inr (admin-IsAdminCall w v v' vars u e passed)
        ]
  end-IsEntitled (ResearchEndpoint.engine_end end) w v vars e same =
      let guard =
        require_research_auth p.runtime p.resolve p.env p.sha256_hex vars call.authorization in
      elim (guarded K guard (λ principal. serve_engine p call principal end) v
        (auth-KeepsOnRefusal p.runtime p.resolve p.env p.sha256_hex vars call.authorization)) [
          | inl refused ↦ inl (refused ∙ stored-alike v w same)
          | inr (v', principal, passed) ↦ inr (
            vars,
            principal,
            IsBearer-alike K p.runtime p.resolve p.env p.sha256_hex vars call.authorization
                call.cookie v w principal same
                (require_research-IsAdmitted K p.runtime p.resolve p.env p.sha256_hex vars
                  call.authorization v v' principal passed),
          )
        ]
  end-IsEntitled (ResearchEndpoint.shared_end end) w v vars e same =
      let guard =
        require_research_or_session p.runtime p.resolve p.env p.sha256_hex vars call.authorization
          call.cookie in
      elim (guarded K guard (λ principal. serve_shared p call principal end) v
        (either-KeepsOnRefusal K p.runtime p.resolve p.env p.sha256_hex vars call.authorization
          call.cookie)) [
            | inl refused ↦ inl (refused ∙ stored-alike v w same)
            | inr (v', principal, passed) ↦
                inr
                  (elim (either-IsAdmitted K p.runtime p.resolve p.env p.sha256_hex vars
                    call.authorization call.cookie v v' principal passed) [
                      | inl bearer ↦ inl (
                        vars,
                        principal,
                        IsBearer-alike K p.runtime p.resolve p.env p.sha256_hex vars
                            call.authorization call.cookie v w principal same bearer,
                      )
                      | inr user ↦ inr (
                        principal,
                        IsSessionUser-alike K (now_of p) call.cookie v w principal same user,
                      )
                    ])
          ]

  served :
      (end : ResearchEndpoint) (w : World K) (m : World K × Exec Response HonoVars)
      → session_middleware (now_of p) call.cookie w ≡ m
      → IsAlike K m.0 w
      → (stored (continue m (λ vars. serve_research_end p call vars end)).0 ≡ stored w)
        ⊎ IsEntitled end w
  served end w (v, returned vars) e same = end-IsEntitled end w v vars e same
  served end w (v, rejected r) e same = inl (stored-alike v w same)
  served end w (v, thrown) e same = inl (stored-alike v w same)

  -- Whatever is requested under /research, and however it ends: either nothing that is stored
  -- changed, or the sender may do so at that endpoint: for engine keys an active admin with a live
  -- session and a second factor; for pushes, instruments and the portfolio the holder of a stored
  -- engine key that is neither revoked nor expired, or a member with an ID token that verifies with
  -- the keys in the cache, and with an active account; for lists, signals and actions one of these or
  -- an active user with a live session. Unknown paths and the health check change nothing.
  pub serve_research-IsGuarded :
      (w w' : World K) (result : Exec Response Response)
      → serve_research p call w ≡ (w', result)
      → (stored w' ≡ stored w) ⊎ IsEntitled (research_route call.method call.path) w
  unfolding serve_research
  serve_research-IsGuarded w w' result e =
      let end = research_route call.method call.path in
      let m = session_middleware (now_of p) call.cookie w in
      subst (λ (o : World K × Exec Response Response). (stored o.0 ≡ stored w) ⊎ IsEntitled end w) e
        (served end w m refl (record {
          db = ap (λ p. p.0) ((session_middleware-IsReading (now_of p) call.cookie).keeps w);
          kv = ap (λ p. p.1) ((session_middleware-IsReading (now_of p) call.cookie).keeps w);
          jwks = session_middleware-jwks K (now_of p) call.cookie w;
        }))
