-- ===== src/Site/Guard.antt =====
-- What a request under /admin may do.
use simtrader.Base.{
  String, ◌==◌, ◌&&◌, true, false, List, [], ◌∷◌, any, Bool-cases, Exec, returned, rejected, thrown,
  ◌≡◌, ◌⊎◌, inl, inr, refl, sym, ap, ◌∙◌, subst, Empty,
}
use simtrader.Http.{Response, ◌>>◌, continue, give}
use simtrader.Kv.{KvNamespace}
use simtrader.World.{World}
use simtrader.World.ReadOnly.{stored, IsReading, then-IsReading, give-IsReading, answer-IsReading}
use simtrader.Access.{HonoVars, session_middleware, enter_admin}
use simtrader.Access.Admission.{IsSignedIn, enter_admin-IsSignedIn}
use simtrader.Site.Reading.{
  session_middleware-IsReading, enter_admin-IsReading, system-IsReading, admin_dashboard-IsReading,
  list_users-IsReading, show_user-IsReading, audit_list-IsReading, audit_export-IsReading,
}
use simtrader.Site.{
  SitePlatform, AdminCall, AdminEndpoint, get_one, get_two, admin_route, is_login, path_text,
  login_response, system, serve_end, serve_admin,
}

-- An endpoint that is no action on a user.
abbrev IsPage : AdminEndpoint → Type 0
IsPage (AdminEndpoint.action_end action id) = Empty
IsPage _ = Unit

get_one-IsPage : (a : String) → IsPage (get_one a)
get_one-IsPage a = elim (Bool-cases (a == "users")) [
  | inl is ↦ rw is tt
  | inr users ↦ elim (Bool-cases (a == "audit")) [
    | inl is ↦ rw (users, is) tt
    | inr audit ↦ elim (Bool-cases (a == "system")) [
      | inl is ↦ rw (users, audit, is) tt
      | inr system ↦ rw (users, audit, system) tt
    ]
  ]
]

get_two-IsPage : (a b : String) → IsPage (get_two a b)
get_two-IsPage a b = elim (Bool-cases (a == "users")) [
  | inl is ↦ rw is tt
  | inr users ↦ elim (Bool-cases (a == "audit" && b == "export")) [
    | inl is ↦ rw (users, is) tt
    | inr other ↦ rw (users, other) tt
  ]
]

get-IsPage : (path : List String) → IsPage (admin_route true path)
unfolding admin_route
get-IsPage [] = tt
get-IsPage (a ∷ []) = get_one-IsPage a
get-IsPage (a ∷ b ∷ []) = get_two-IsPage a b
get-IsPage (a ∷ b ∷ c ∷ []) = tt
get-IsPage (a ∷ b ∷ c ∷ d ∷ []) = tt
get-IsPage (a ∷ b ∷ c ∷ d ∷ e ∷ path) = tt

module _ {K : KvNamespace} (p : SitePlatform) (call : AdminCall) where
  page-IsReading :
      (vars : HonoVars) (end : AdminEndpoint)
      → IsPage end
      → IsReading {K = K} (serve_end p call vars end)
  unfolding serve_end
  page-IsReading vars AdminEndpoint.dashboard_end h = admin_dashboard-IsReading p.now
  page-IsReading vars AdminEndpoint.users_end h =
      list_users-IsReading p.pg p.now call.filters call.audit_query.page
  page-IsReading vars (AdminEndpoint.user_end id) h = show_user-IsReading id
  page-IsReading vars AdminEndpoint.audit_end h = audit_list-IsReading p.pg call.audit_query
  page-IsReading vars AdminEndpoint.export_end h =
      audit_export-IsReading p.pg p.today call.audit_query
  page-IsReading vars AdminEndpoint.system_end h = system-IsReading p.pg p.environment p.now
  page-IsReading vars (AdminEndpoint.action_end action id) h = elim h [ ]
  page-IsReading vars AdminEndpoint.missing_end h = answer-IsReading _

  -- The guard refused, or failed, and that is the outcome.
  abbrev pub IsTurnedAway : World K → World K → Exec Response Response → Type 0
  IsTurnedAway w w' result =
      ((e : Response) × (enter_admin p.now call.cookie (path_text call) w ≡ (w', rejected e))
        × (result ≡ rejected e))
      ⊎ ((enter_admin p.now call.cookie (path_text call) w ≡ (w', thrown)) × (result ≡ thrown))

  -- The guard let an active admin in, with a live session that a second factor was used for.
  abbrev pub IsAdmitted : World K → Type 0
  IsAdmitted w =
      (vars : HonoVars) × ((admission : IsSignedIn K p.now call.cookie w vars)
        × (admission.user.role ≡ "admin")
        × (any (λ method. method == "otp") admission.session.amr ≡ true))

  -- An endpoint that a GET reaches only reads.
  get-reads :
      (vars : HonoVars) (v : World K)
      → call.is_get ≡ true
      → stored (serve_end p call vars (admin_route call.is_get call.path) v).0 ≡ stored v
  get-reads vars v get =
      (page-IsReading vars (admin_route call.is_get call.path)
          (rw get (get-IsPage call.path))).keeps
        v

  served :
      (w : World K) (m : World K × Exec Response HonoVars)
      → enter_admin p.now call.cookie (path_text call) w ≡ m
      → let (w', result) =
          continue m (λ vars. serve_end p call vars (admin_route call.is_get call.path)) in
        ((stored w' ≡ stored w) × IsTurnedAway w w' result)
        ⊎ (IsAdmitted w × ((stored w' ≡ stored w) ⊎ (call.is_get ≡ false)))
  served w (v, returned vars) e =
      let same : stored v ≡ stored w =
        ap (λ m. stored m.0) (sym e)
        ∙ (enter_admin-IsReading p.now call.cookie (path_text call)).keeps w in
      let admitted : IsAdmitted w =
        (vars, enter_admin-IsSignedIn K p.now call.cookie (path_text call) w v vars e) in
      elim (Bool-cases call.is_get) [
        | inl get ↦ inr (admitted, inl (get-reads vars v get ∙ same))
        | inr post ↦ inr (admitted, inr post)
      ]
  served w (v, rejected r) e = inl (
    ap (λ m. stored m.0) (sym e)
        ∙ (enter_admin-IsReading p.now call.cookie (path_text call)).keeps w,
    inl (r, e, refl),
  )
  served w (v, thrown) e = inl (
    ap (λ m. stored m.0) (sym e)
        ∙ (enter_admin-IsReading p.now call.cookie (path_text call)).keeps w,
    inr (e, refl),
  )

  -- Whatever is requested under /admin, and however it ends: either nothing that is stored changed,
  -- and the request was for the login redirect or its outcome is the guard's refusal or failure; or
  -- an active admin was let in, with a live session that a second factor was used for, and nothing
  -- that is stored changed unless the request was a POST.
  pub serve_admin-IsGuarded :
      (w w' : World K) (result : Exec Response Response)
      → serve_admin p call w ≡ (w', result)
      → ((stored w' ≡ stored w) × ((is_login call ≡ true) ⊎ IsTurnedAway w w' result))
        ⊎ (IsAdmitted w × ((stored w' ≡ stored w) ⊎ (call.is_get ≡ false)))
  unfolding serve_admin
  serve_admin-IsGuarded w w' result e = elim (Bool-cases (is_login call)) [
    | inl login ↦
        let first = rw login at e in
        let reads : IsReading {K = K}
            (session_middleware p.now call.cookie >> give login_response) =
          then-IsReading (session_middleware p.now call.cookie) _
            (session_middleware-IsReading p.now call.cookie) (λ u. give-IsReading _) in
        inl (ap (λ m. stored m.0) (sym first) ∙ reads.keeps w, inl login)
    | inr other ↦
        let second = rw other at e in
        let m = enter_admin p.now call.cookie (path_text call) w in
        subst
          (λ (o : World K × Exec Response Response).
            ((stored o.0 ≡ stored w) × ((is_login call ≡ true) ⊎ IsTurnedAway w o.0 o.1))
            ⊎ (IsAdmitted w × ((stored o.0 ≡ stored w) ⊎ (call.is_get ≡ false))))
          second
          (elim (served w m refl) [ inl away ↦ inl (away.0, inr away.1) | inr inside ↦ inr inside ])
  ]
