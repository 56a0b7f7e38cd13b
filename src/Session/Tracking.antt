-- ===== src/Session/Tracking.antt =====
-- Every live session is in the token list of its user, so that ending all sessions of a user
-- leaves none, and no session outlives a day. The invariant, and that every operation keeps it.
use mathlib.Core.Path.{subst}
use native.Mathlib.Nat.{le_refl}
use native.Mathlib.Decide.{dec_le}
use simtrader.Base.{
  ℕ, ◌+◌, ◌≤◌, ◌<◌, String, ◌==◌, eq_iff, true, not, none, some, List, [], ◌∷◌, ◌++◌, filter,
  is_empty, nil_of_is_empty, ◌≡◌, refl, sym, ◌≢◌, arith, or_else, Bool-cases, Option-cases, inl,
  inr, ltb, if◌then◌else◌,
}
use simtrader.Json.{Json, str, get_prop, as_string}
use simtrader.Kv.{KvNamespace}
use simtrader.Session.{
  SessionData, session_ttl_seconds, session_key, encode_session, create_session, untrack,
  destroy_session, delete_sessions, destroy_all_user_sessions, tokens_at,
}
use simtrader.Session.Keys.{
  eq_user_sessions_key, ne_session_key, ne_user_sessions_key, tokens_of-of_strings, tokens_of-none,
  eq-false, contains, contains-append, contains-filter_ne,
}
use simtrader.Session.Lookup.{get-create_session, get-destroy_session, get-delete_sessions}

-- The stored value is a session of this user.
abbrev pub BelongsTo : Json → String → Type 0
BelongsTo stored user_id = get_prop stored "userId" ≡ some (str user_id)

owner_of_encode :
    (d : SessionData) (stored : Json) (user_id : String)
    → some (encode_session d) ≡ some stored
    → BelongsTo stored user_id
    → d.user_id ≡ user_id
unfolding encode_session get_prop
owner_of_encode d stored user_id e mine =
    let same : encode_session d ≡ stored = cc in
    let mine' = subst (λ v. BelongsTo v user_id) (sym same) mine in cc

module _ (K : KvNamespace) where
  -- At a time `at`, no session lasts a day or more, and as long as one lives its user's list has it.
  pub record IsTracked (s : K.Store) (at : ℕ) : Type 0 where
    pub capped :
        (token : String) (stored : Json) (now : ℕ)
        → K.get s now (session_key token) ≡ some stored
        → now < at + session_ttl_seconds
    pub listed :
        (token user_id : String) (stored : Json) (now : ℕ)
        → at ≤ now
        → K.get s now (session_key token) ≡ some stored
        → BelongsTo stored user_id
        → contains (tokens_at K s now user_id) token ≡ true

  -- The passing of time.
  pub IsTracked-later : (s : K.Store) (at at' : ℕ) → at ≤ at' → IsTracked s at → IsTracked s at'
  IsTracked-later s at at' later h = record {
    capped = λ token stored now found. omega (arith, h.capped token stored now found);
    listed = λ token user_id stored now after. h.listed token user_id stored now (omega arith);
  }

  tokens_at-create_session :
      (s : K.Store) (at now : ℕ) (token user_id : String) (d : SessionData)
      → now < at + session_ttl_seconds
      → tokens_at K (create_session K s at token d) now user_id ≡ (
          if d.user_id == user_id
          then tokens_at K s at d.user_id ++ token ∷ []
          else tokens_at K s now user_id)
  unfolding create_session
  tokens_at-create_session s at now token user_id d soon =
      simp (K.get-put, eq_user_sessions_key, ne_session_key)
        (elim (Bool-cases (d.user_id == user_id)) [
          | inl same ↦ rw same (
              let live : ltb now (at + 90000) ≡ true = ground arith in
              rw live (tokens_of-of_strings _))
          | inr other ↦ rw other refl
        ])

  tokens_at-untrack :
      (s : K.Store) (at now : ℕ) (token owner user_id : String)
      → tokens_at K (untrack K s at token owner) now user_id ≡ (
          if owner == user_id
          then filter (λ t. not (t == token)) (tokens_at K s at owner)
          else tokens_at K s now user_id)
  unfolding untrack
  tokens_at-untrack s at now token owner user_id =
      let kept = filter (λ t. not (t == token)) (tokens_at K s at owner) in
      elim (Bool-cases (is_empty kept)) [
        | inl emptied ↦ rw emptied (
            simp (K.get-delete, eq_user_sessions_key)
              (ground (arith, nil_of_is_empty kept, tokens_of-none)))
        | inr some_left ↦
            rw some_left
              (simp (K.get-put, eq_user_sessions_key) (ground (arith, tokens_of-of_strings kept)))
      ]

  tokens_at-delete_sessions :
      (ts : List String) (s : K.Store) (now : ℕ) (user_id : String)
      → tokens_at K (delete_sessions K ts s) now user_id ≡ tokens_at K s now user_id
  unfolding delete_sessions
  tokens_at-delete_sessions [] s now user_id = refl
  tokens_at-delete_sessions (t ∷ ts) s now user_id =
      rw (tokens_at-delete_sessions ts (K.delete (session_key t) s) now user_id)
        (simp (K.get-delete, ne_session_key))

  module _ (s : K.Store) (at : ℕ) (h : IsTracked s at) where
    create_session-capped :
        (token t : String) (d : SessionData) (stored : Json) (now : ℕ)
        → K.get (create_session K s at token d) now (session_key t) ≡ some stored
        → now < at + session_ttl_seconds
    create_session-capped token t d stored now found =
        ground (arith, get-create_session K s at now token t d, h.capped t stored now)

    create_session-listed :
        (token t user_id : String) (d : SessionData) (stored : Json) (now : ℕ)
        → at ≤ now
        → K.get (create_session K s at token d) now (session_key t) ≡ some stored
        → BelongsTo stored user_id
        → contains (tokens_at K (create_session K s at token d) now user_id) t ≡ true
    create_session-listed token t user_id d stored now after found mine =
        let soon = create_session-capped token t d stored now found in
        rw (tokens_at-create_session s at now token user_id d soon) (
          ground (
            arith,
            get-create_session K s at now token t d,
            contains-append (tokens_at K s at d.user_id) (token ∷ []) t,
            eq_iff d.user_id user_id,
            owner_of_encode d stored user_id,
            K.get_earlier s (session_key t) stored at now,
            h.listed t user_id stored now,
            h.listed t user_id stored at,
          ))

    -- Creating a session keeps the invariant that every live session is in its user's list
    -- and none outlives a day, whatever token it draws.
    pub create_session-IsTracked :
        (token : String) (d : SessionData) → IsTracked (create_session K s at token d) at
    create_session-IsTracked token d = record {
      capped = λ t stored now. create_session-capped token t d stored now;
      listed = λ t user_id stored now. create_session-listed token t user_id d stored now;
    }

    -- The lists after a logout hold what they held now, or at the logout, but for the token.
    contains-destroy_session :
        (token t user_id : String) (now : ℕ)
        → token ≢ t
        → contains (tokens_at K s now user_id) t ≡ true
        → contains (tokens_at K s at user_id) t ≡ true
        → contains (tokens_at K (destroy_session K s at token) now user_id) t ≡ true
    unfolding destroy_session
    contains-destroy_session token t user_id now differ at_now at_logout =
        elim (Option-cases (K.get s at (session_key token))) [
          | inl absent ↦ rw (absent, destroy_session) at_now
          | inr (v, present) ↦
              let owner = or_else (as_string (get_prop v "userId")) "undefined" in
              rw (present, destroy_session, tokens_at-untrack _ at now token owner user_id)
                (simp (K.get-delete, ne_session_key)
                  (ground (
                    arith,
                    eq_iff owner user_id,
                    contains-filter_ne (tokens_at K s at owner) token t,
                  )))
        ]

    destroy_session-listed :
        (token t user_id : String) (stored : Json) (now : ℕ)
        → at ≤ now
        → K.get (destroy_session K s at token) now (session_key t) ≡ some stored
        → BelongsTo stored user_id
        → contains (tokens_at K (destroy_session K s at token) now user_id) t ≡ true
    destroy_session-listed token t user_id stored now after found mine =
        let kept = get-destroy_session K s at now token t after in
        let alive : K.get s now (session_key t) ≡ some stored = ground arith in
        let differ : token ≢ t = ground (arith, eq_iff token t) in
        contains-destroy_session token t user_id now differ
          (h.listed t user_id stored now after alive mine)
          (h.listed t user_id stored at (le_refl at)
            (K.get_earlier s (session_key t) stored at now after alive) mine)

    destroy_session-capped :
        (token t : String) (stored : Json) (now : ℕ)
        → K.get (destroy_session K s at token) now (session_key t) ≡ some stored
        → now < at + session_ttl_seconds
    destroy_session-capped token t stored now found = elim (dec_le at now) [
      | yes after ↦
          ground (arith, get-destroy_session K s at now token t after, h.capped t stored now)
      | no before ↦ omega arith
    ]

    -- A logout keeps the invariant that every live session is in its user's list and none
    -- outlives a day.
    pub destroy_session-IsTracked : (token : String) → IsTracked (destroy_session K s at token) at
    destroy_session-IsTracked token = record {
      capped = λ t stored now found. destroy_session-capped token t stored now found;
      listed = λ t user_id stored now. destroy_session-listed token t user_id stored now;
    }

    get-destroy_all :
        (user_id t : String) (now : ℕ)
        → K.get (destroy_all_user_sessions K s at user_id) now (session_key t)
          ≡ (if contains (tokens_at K s at user_id) t then none else K.get s now (session_key t))
    unfolding destroy_all_user_sessions
    get-destroy_all user_id t now = simp (K.get-delete, ne_user_sessions_key, get-delete_sessions)

    tokens_at-destroy_all :
        (user_id other : String) (now : ℕ)
        → user_id ≢ other
        → tokens_at K (destroy_all_user_sessions K s at user_id) now other ≡ tokens_at K s now other
    unfolding destroy_all_user_sessions
    tokens_at-destroy_all user_id other now differ =
        simp (K.get-delete, eq_user_sessions_key)
          (rw (eq-false user_id other differ)
            (tokens_at-delete_sessions (tokens_at K s at user_id) s now other))

    -- In a namespace in which every live session is in its user's list, ending all sessions of a user
    -- leaves none: at that time or later, no entry is a session of that user.
    pub destroy_all-ends_all :
        (user_id t : String) (stored : Json) (now : ℕ)
        → at ≤ now
        → K.get (destroy_all_user_sessions K s at user_id) now (session_key t) ≡ some stored
        → ¬ BelongsTo stored user_id
    destroy_all-ends_all user_id t stored now after found mine = ground (
      arith,
      get-destroy_all user_id t now,
      K.get_earlier s (session_key t) stored at now,
      h.listed t user_id stored at,
    )

    -- Ending all sessions of a user keeps the invariant that every live session is in its
    -- user's list and none outlives a day.
    pub destroy_all-IsTracked :
        (user_id : String) → IsTracked (destroy_all_user_sessions K s at user_id) at
    destroy_all-IsTracked user_id = record {
      capped = λ t stored now found.
          ground (arith, get-destroy_all user_id t now, h.capped t stored now);
      listed = λ t other stored now after found mine. ground (
        arith,
        get-destroy_all user_id t now,
        eq_iff user_id other,
        destroy_all-ends_all user_id t stored now after found,
        mine,
        tokens_at-destroy_all user_id other now,
        h.listed t other stored now,
      );
    }
