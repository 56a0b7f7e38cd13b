-- ===== src/Research/Router/Entry.antt =====
-- Whom the guards of /research let in, and what they change when they refuse.
use simtrader.Base.{
  ℕ, ◌/◌, String, ◌==◌, eq_iff, Bool-cases, Option, none, some, or_else, truthy_text, Exec,
  returned, rejected, thrown, returned-injective, ◌≡◌, ◌⊎◌, inl, inr, refl, sym, ap, ◌∙◌, subst, In,
  [], ◌∷◌,
}
use simtrader.Http.{Handler, Response, ◌>>=◌, continue, answer, give, lift, continue-eq-returned}
use simtrader.Kv.{KvNamespace}
use simtrader.World.{World, sql, kv, sql-returned, sql-jwks, kv-jwks, continue-jwks}
use simtrader.Jwt.Verify.{verify_id_token}
use simtrader.World.ReadOnly.{
  stored, IsReading, query-IsReading, answer-IsReading, give-IsReading, then-IsReading,
}
use simtrader.Database.{User, Db}
use simtrader.Database.Accounts.{select_user}
use simtrader.Session.{SessionData, validate_session}
use simtrader.Issuers.{Env, UrlResolver}
use simtrader.Jwt.{Runtime}
use simtrader.Access.{HonoVars, vars_of, find_session, recheck, session_middleware}
use simtrader.Research.{
  Principal, bearer_of, as_bearer, session_method, session_principal, principal_of_row,
  admit_session, require_research_or_session,
}
use simtrader.Research.Admission.{IsKeyHolder, IsMember, HasAccount, require_research-IsAdmitted}
use simtrader.Access.Admission.{find_session-returned}
use simtrader.Site.Reading.{find_session-IsReading}
use simtrader.Research.Router.Refusal.{KeepsOnRefusal, of_reading, auth-KeepsOnRefusal}

module _ (K : KvNamespace) where
  recheck-jwks : (session : Option SessionData) (v : World K) → (recheck session v).0.jwks ≡ v.jwks
  recheck-jwks none v = refl
  recheck-jwks (some session) v =
      let read : Db → Db × Option User = λ db. (db, select_user session.user_id db) in
      continue-jwks (sql read v) (λ row. give (vars_of session row)) v (sql-jwks read v)
        (λ row later. refl)

  -- The session middleware leaves the cache of keys.
  pub session_middleware-jwks :
      (now : ℕ) (cookie : Option String) (w : World K)
      → (session_middleware now cookie w).0.jwks ≡ w.jwks
  unfolding session_middleware
  session_middleware-jwks now cookie w = elim (Bool-cases (truthy_text (or_else cookie ""))) [
    | inl given ↦ rw given (
        continue-jwks (find_session now (or_else cookie "") w) recheck w
          (continue-jwks (kv (λ s. (s, validate_session K s now (or_else cookie ""))) w) lift w
            (kv-jwks (λ s. (s, validate_session K {E = Response} s now (or_else cookie ""))) w)
            (λ result v. refl))
          recheck-jwks)
    | inr absent ↦ rw absent refl
  ]

  -- The state but for the calls that fail.
  pub record IsAlike (v w : World K) : Type 0 where
    pub db : v.db ≡ w.db
    pub kv : v.kv ≡ w.kv
    pub jwks : v.jwks ≡ w.jwks

  -- A live session, under the cookie, of a user who is active in the database.
  pub record IsSessionUser (now : ℕ) (cookie : Option String) (w : World K) (p : Principal)
      : Type 0 where
    pub session : SessionData
    pub user : User
    pub live :
        validate_session K {E = Response} w.kv now (or_else cookie "") ≡ returned (some session)
    pub found : select_user session.user_id w.db ≡ some user
    pub active : user.status ≡ "active"
    pub sets : p ≡ record {
      method = session_method;
      user_id = some session.user_id;
      user_role = some session.role;
      api_key_id = none;
      bridge_sub = none;
      scopes = "signals:read" ∷ "evaluations:read" ∷ [];
    }

  pub IsSessionUser-alike :
      (now : ℕ) (cookie : Option String) (v w : World K) (p : Principal)
      → IsAlike v w
      → IsSessionUser now cookie v p
      → IsSessionUser now cookie w p
  IsSessionUser-alike now cookie v w p same h = record {
    session = h.session;
    user = h.user;
    live =
        subst
          (λ s.
            validate_session K {E = Response} s now (or_else cookie "") ≡ returned (some h.session))
          same.kv h.live;
    found = subst (λ d. select_user h.session.user_id d ≡ some h.user) same.db h.found;
    active = h.active;
    sets = h.sets;
  }

  row-returned :
      (session : SessionData) (row : Option User) (w w' : World K) {p : Principal}
      → principal_of_row session row w ≡ (w', returned p)
      → (user : User) × (row ≡ some user)
        × (user.status ≡ "active")
        × (p ≡ session_principal session)
        × (w' ≡ w)
  row-returned session none w w' e = absurd (cc (ap (λ p. p.1) e))
  row-returned session (some user) w w' {p} e = elim (Bool-cases (user.status == "active")) [
    | inl live ↦
        let given = rw live at e in
        (
          user,
          refl,
          (eq_iff user.status "active").0 live,
          sym (returned-injective (ap (λ q. q.1) given)),
          sym (ap (λ q. q.0) given),
        )
    | inr other ↦ absurd (let refused = rw other at e in cc (ap (λ q. q.1) refused))
  ]

  admit_session-IsSessionUser :
      (now : ℕ) (cookie : Option String) (w w1 w' : World K) (found : Option SessionData)
      (p : Principal)
      → (validate_session K {E = Response} w.kv now (or_else cookie "") ≡ returned found)
        × (w1.db ≡ w.db)
      → admit_session found w1 ≡ (w', returned p)
      → IsSessionUser now cookie w p
  admit_session-IsSessionUser now cookie w w1 w' none p h e = absurd (cc (ap (λ q. q.1) e))
  admit_session-IsSessionUser now cookie w w1 w' (some session) p (live, same) e =
      let read : Db → Db × Option User = λ db. (db, select_user session.user_id db) in
      let (w2, row, h2, e2) = continue-eq-returned (sql read w1) _ e in
      let (db2, value, kv2) = sql-returned read w1 w2 row h2 in
      let (user, is_row, active, sets, same2) = row-returned session row w2 w' e2 in
      record {
        session = session;
        user = user;
        live = live;
        found = ap (λ d. select_user session.user_id d) (sym same) ∙ sym value ∙ is_row;
        active = active;
        sets = sets;
      }

  row-IsReading :
      (session : SessionData) (row : Option User) → IsReading {K = K} (principal_of_row session row)
  row-IsReading session none = answer-IsReading _
  row-IsReading session (some user) = elim (Bool-cases (user.status == "active")) [
    | inl live ↦ rw live (give-IsReading _)
    | inr other ↦ rw other (answer-IsReading _)
  ]

  admit_session-IsReading : (found : Option SessionData) → IsReading {K = K} (admit_session found)
  admit_session-IsReading none = answer-IsReading _
  admit_session-IsReading (some session) =
      then-IsReading (sql (λ db. (db, select_user session.user_id db))) _
        (query-IsReading (select_user session.user_id)) (row-IsReading session)

  module _ (r : Runtime) (resolve : UrlResolver) (env : Env) (hash : String → String)
      (vars : HonoVars) (header cookie : Option String) where
    pub either-KeepsOnRefusal :
        KeepsOnRefusal {K = K} (require_research_or_session r resolve env hash vars header cookie)
    unfolding require_research_or_session
    either-KeepsOnRefusal = elim (Bool-cases (truthy_text (bearer_of header))) [
      | inl bearer ↦ rw bearer (auth-KeepsOnRefusal r resolve env hash vars header)
      | inr no_bearer ↦ elim (Bool-cases (truthy_text (or_else cookie ""))) [
        | inl given ↦
            rw (no_bearer, given)
              (of_reading (find_session (r.now_ms / 1000) (or_else cookie "") >>= admit_session) (
                then-IsReading (find_session (r.now_ms / 1000) (or_else cookie "")) admit_session
                  (find_session-IsReading (r.now_ms / 1000) (or_else cookie ""))
                  admit_session-IsReading))
        | inr absent ↦
            rw (no_bearer, absent) (of_reading (answer {A = Principal} _) (answer-IsReading _))
      ]
    ]

    -- Who comes with a bearer.
    abbrev pub IsBearer : World K → Principal → Type 0
    IsBearer w p =
        IsKeyHolder K (r.now_ms / 1000) (hash (bearer_of header)) w vars p
        ⊎ IsMember K r resolve env (bearer_of header) w p

    pub IsBearer-alike : (v w : World K) (p : Principal) → IsAlike v w → IsBearer v p → IsBearer w p
    IsBearer-alike v w p same (inl h) = inl (record {
      key = h.key;
      stored = subst (λ d. In h.key d.engine_api_keys) same.db h.stored;
      hashed = h.hashed;
      unrevoked = h.unrevoked;
      unexpired = h.unexpired;
      sets = h.sets;
    })
    IsBearer-alike v w p same (inr h) = inr (record {
      config = h.config;
      trusted = h.trusted;
      claims = h.claims;
      verified =
          subst
            (λ c. (verify_id_token r c (bearer_of header) h.config as_bearer).1 ≡ returned h.claims)
            same.jwks h.verified;
      sub = h.sub;
      named = h.named;
      account = subst (λ d. HasAccount K h.claims.iss h.sub d p) same.db h.account;
    })

    pub either-IsAdmitted :
        (w w' : World K) (p : Principal)
        → require_research_or_session r resolve env hash vars header cookie w ≡ (w', returned p)
        → IsBearer w p ⊎ IsSessionUser (r.now_ms / 1000) cookie w p
    unfolding require_research_or_session
    either-IsAdmitted w w' p e = elim (Bool-cases (truthy_text (bearer_of header))) [
      | inl bearer ↦
          inl (require_research-IsAdmitted K r resolve env hash vars header w w' p (rw bearer at e))
      | inr no_bearer ↦ elim (Bool-cases (truthy_text (or_else cookie ""))) [
        | inl given ↦
            let inside = rw (no_bearer, given) at e in
            let (w1, found, h1, e1) =
              continue-eq-returned (find_session (r.now_ms / 1000) (or_else cookie "") w)
                admit_session inside in
            inr (
              admit_session-IsSessionUser (r.now_ms / 1000) cookie w w1 w' found p
                (find_session-returned K (r.now_ms / 1000) (or_else cookie "") w w1 found h1) e1)
        | inr absent ↦
            absurd (let refused = rw (no_bearer, absent) at e in cc (ap (λ q. q.1) refused))
      ]
    ]

  -- A guard and what follows it.
  pub guarded :
      {A B : Type 0} (m : Handler (World K) A) (k : A → Handler (World K) B) (v : World K)
      → KeepsOnRefusal m
      → (stored ((m >>= k) v).0 ≡ stored v) ⊎ ((v' : World K) × (a : A) × (m v ≡ (v', returned a)))
  guarded {A} {B} m k v h = step (m v) refl
    where
      step :
          (q : World K × Exec Response A)
          → m v ≡ q
          → (stored (continue q k).0 ≡ stored v)
            ⊎ ((v' : World K) × (a : A) × (m v ≡ (v', returned a)))
      step (v', returned a) e = inr (v', a, e)
      step (v', rejected r) e = elim (h.keeps v) [
        | inl same ↦ inl (ap (λ q. stored q.0) (sym e) ∙ same)
        | inr (a, went_on) ↦ absurd (cc (sym (ap (λ q. q.1) e) ∙ went_on))
      ]
      step (v', thrown) e = elim (h.keeps v) [
        | inl same ↦ inl (ap (λ q. stored q.0) (sym e) ∙ same)
        | inr (a, went_on) ↦ absurd (cc (sym (ap (λ q. q.1) e) ∙ went_on))
      ]
