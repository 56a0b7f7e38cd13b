-- ===== src/Access/Admission.antt =====
-- Who passes the admin guard, and who is signed in at all.
use simtrader.Base.{
  ℕ, String, ◌==◌, eq_iff, true, Option, none, some, any, or_else, truthy_text, returned, ◌≡◌, ◌≢◌,
  refl, sym, ap, ◌∙◌, subst, Bool-cases, inl, inr,
}
use simtrader.Http.{Response, continue-eq-returned, lift, ensure, ensure-returned}
use simtrader.Kv.{KvNamespace}
use simtrader.Database.{User}
use simtrader.Database.Accounts.{select_user}
use simtrader.World.{World, sql, kv, sql-returned, kv-returned}
use simtrader.Session.{SessionData, validate_session}
use simtrader.Access.{
  HonoVars, no_vars, signed_in, vars_of, has_user, has_otp, is_role, require_admin, find_session,
  recheck, session_middleware, enter_admin,
}

vars_of-has_user :
    (session : SessionData) (found : Option User)
    → has_user (vars_of session found) ≡ true
    → (user : User) × (found ≡ some user)
      × (user.status ≡ "active")
      × (vars_of session found ≡ signed_in session user)
vars_of-has_user session none h = cc
vars_of-has_user session (some user) h = elim (Bool-cases (user.status == "active")) [
  | inl active ↦ (user, refl, (eq_iff user.status "active").0 active, rw active refl)
  | inr other ↦ absurd (let e = rw other at h in cc)
]

no_vars-unnamed : (vars : HonoVars) → no_vars ≡ vars → has_user vars ≢ true
no_vars-unnamed vars same named =
    let named' : has_user no_vars ≡ true = subst (λ v. has_user v ≡ true) (sym same) named in cc

pub require_admin-returned :
    {S : Type 0} (vars : HonoVars) (path : String) (s s' : S) {u : Unit {0}}
    → require_admin vars path s ≡ (s', returned u)
    → (has_user vars ≡ true) × (is_role vars.user_role "admin" ≡ true) × (has_otp vars ≡ true)
unfolding require_admin
require_admin-returned vars path s s' e =
    let (s1, u1, h1, e1) = continue-eq-returned (ensure (has_user vars) _ s) _ e in
    let (s2, u2, h2, e2) =
      continue-eq-returned (ensure (is_role vars.user_role "admin") _ s1) _ e1 in
    (
      (ensure-returned _ _ s s1 h1).0,
      (ensure-returned _ _ s1 s2 h2).0,
      (ensure-returned _ _ s2 s' e2).0,
    )

module _ (K : KvNamespace) where
  -- A request is signed in by a live session of a user who is active in the database at that time.
  pub record IsSignedIn (now : ℕ) (cookie : Option String) (w : World K) (vars : HonoVars)
      : Type 0 where
    pub session : SessionData
    pub user : User
    pub live :
        validate_session K {E = Response} w.kv now (or_else cookie "") ≡ returned (some session)
    pub stored : select_user session.user_id w.db ≡ some user
    pub active : user.status ≡ "active"
    pub sets : vars ≡ record {
      user_id = some session.user_id;
      user_role = some user.role;
      user_status = some "active";
      auth_methods = some session.amr;
    }

  pub find_session-returned :
      (now : ℕ) (token : String) (w w' : World K) (found : Option SessionData)
      → find_session now token w ≡ (w', returned found)
      → (validate_session K {E = Response} w.kv now token ≡ returned found) × (w'.db ≡ w.db)
  find_session-returned now token w w' found e =
      let (mid, result, called, e1) =
        continue-eq-returned (kv (λ s. (s, validate_session K s now token)) w) lift e in
      let (store, value, same) =
        kv-returned (λ s. (s, validate_session K s now token)) w mid result called in
      (sym value ∙ ap (λ p. p.1) e1, ap (λ v. v.db) (sym (ap (λ p. p.0) e1)) ∙ same)

  recheck-IsSignedIn :
      (now : ℕ) (cookie : Option String) (w mid w' : World K) (vars : HonoVars)
      (found : Option SessionData)
      → (validate_session K {E = Response} w.kv now (or_else cookie "") ≡ returned found)
        × (mid.db ≡ w.db)
      → recheck found mid ≡ (w', returned vars)
      → has_user vars ≡ true
      → IsSignedIn now cookie w vars
  recheck-IsSignedIn now cookie w mid w' vars none h e named =
      absurd (no_vars-unnamed vars (cc (ap (λ p. p.1) e)) named)
  recheck-IsSignedIn now cookie w mid w' vars (some session) (live, same_db) e named =
      let (last, row, asked, e1) =
        continue-eq-returned (sql (λ db. (db, select_user session.user_id db)) mid) _ e in
      let (db, value, kv) =
        sql-returned (λ db. (db, select_user session.user_id db)) mid last row asked in
      let set : vars_of session row ≡ vars = cc (ap (λ p. p.1) e1) in
      let (user, known, active, sets) =
        vars_of-has_user session row (subst (λ v. has_user v ≡ true) (sym set) named) in
      record {
        session = session;
        user = user;
        live = live;
        stored = ap (λ d. select_user session.user_id d) (sym same_db) ∙ sym value ∙ known;
        active = active;
        sets = sym set ∙ sets;
      }

  -- A request is signed in only by a live session, under its cookie, of a user who is active
  -- in the database at that time.
  pub session_middleware-IsSignedIn :
      (now : ℕ) (cookie : Option String) (w w' : World K) (vars : HonoVars)
      → session_middleware now cookie w ≡ (w', returned vars)
      → has_user vars ≡ true
      → IsSignedIn now cookie w vars
  unfolding session_middleware
  session_middleware-IsSignedIn now cookie w w' vars e named =
      elim (Bool-cases (truthy_text (or_else cookie ""))) [
        | inr absent ↦
            absurd (let e1 = rw absent at e in no_vars-unnamed vars (cc (ap (λ p. p.1) e1)) named)
        | inl given ↦
            let e1 = rw given at e in
            let (mid, found, first, e2) =
              continue-eq-returned (find_session now (or_else cookie "") w) recheck e1 in
            recheck-IsSignedIn now cookie w mid w' vars found
              (find_session-returned now (or_else cookie "") w mid found first) e2 named
      ]

  -- Whoever passes the admin guard has a live session that a second factor was used for, and is an
  -- active admin in the database at that time, whatever role the session was created with.
  pub enter_admin-IsSignedIn :
      (now : ℕ) (cookie : Option String) (path : String) (w w' : World K) (vars : HonoVars)
      → enter_admin now cookie path w ≡ (w', returned vars)
      → (admission : IsSignedIn now cookie w vars) × (admission.user.role ≡ "admin")
        × (any (λ method. method == "otp") admission.session.amr ≡ true)
  unfolding enter_admin
  enter_admin-IsSignedIn now cookie path w w' vars e =
      let (mid, seen, first, e1) = continue-eq-returned (session_middleware now cookie w) _ e in
      let (last, u, guarded, e2) = continue-eq-returned (require_admin seen path mid) _ e1 in
      let same : seen ≡ vars = cc (ap (λ p. p.1) e2) in
      let (named, admin, otp) = require_admin-returned seen path mid last guarded in
      let passed = session_middleware-IsSignedIn now cookie w mid seen first named in
      let admission = subst (λ v. IsSignedIn now cookie w v) same passed in
      (
        admission,
        (eq_iff _ "admin").0
            (subst (λ v. is_role v.user_role "admin" ≡ true) (same ∙ admission.sets) admin),
        subst (λ v. has_otp v ≡ true) (same ∙ admission.sets) otp,
      )
