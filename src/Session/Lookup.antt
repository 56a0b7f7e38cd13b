-- ===== src/Session/Lookup.antt =====
-- What a session lookup finds after a session was created or destroyed.
use simtrader.Base.{
  ℕ, ◌+◌, ◌≤◌, String, ◌==◌, eq_iff, eq_refl, true, not, none, some, List, [], ◌∷◌, returned, ◌≡◌,
  refl, ◌≢◌, arith, any, Bool-cases, Option-cases, inl, inr, ltb, is_empty, if◌then◌else◌,
  truthy_text, filter,
}
use simtrader.Json.{read_prop, get_prop}
use simtrader.Kv.{KvNamespace}
use simtrader.Session.{
  SessionData, session_ttl_seconds, session_key, encode_session, decode_session, create_session,
  validate_session, untrack, destroy_session, delete_sessions, tokens_at,
}
use simtrader.Session.Keys.{eq_session_key, ne_user_sessions_key, strings_of-of_strings}

-- A session that names its user and a role.
abbrev pub IsNamed : SessionData → Type 0
IsNamed d = (truthy_text d.user_id ≡ true) × (truthy_text d.role ≡ true)

pub decode_session-encode_session {κ} :
    {E : Type κ} (d : SessionData)
    → IsNamed d
    → decode_session {E = E} (encode_session d) ≡ returned (some d)
unfolding decode_session encode_session read_prop get_prop
decode_session-encode_session d (named, with_role) =
    rw (named, with_role, strings_of-of_strings) refl

module _ (K : KvNamespace) where
  pub get-create_session :
      (s : K.Store) (at now : ℕ) (token other : String) (d : SessionData)
      → K.get (create_session K s at token d) now (session_key other) ≡ (
          if token == other
          then (if ltb now (at + session_ttl_seconds) then some (encode_session d) else none)
          else K.get s now (session_key other))
  unfolding create_session
  get-create_session s at now token other d = simp (K.get-put, ne_user_sessions_key, eq_session_key)

  -- A new session whose user id and role are not empty is found under its token, with the
  -- data it was given, for exactly 24 hours.
  pub validate-create_session :
      (s : K.Store) (at now : ℕ) (token : String) (d : SessionData)
      → IsNamed d
      → validate_session K {E = Unit {0}} (create_session K s at token d) now token
        ≡ returned (if ltb now (at + session_ttl_seconds) then some d else none)
  unfolding validate_session
  validate-create_session s at now token d named =
      rw (get-create_session s at now token token d, validate_session, eq_refl token)
        (ground (arith, decode_session-encode_session {E = Unit {0}} d named))

  -- Creating a session changes what no other token finds.
  validate-create_session_ne :
      (s : K.Store) (at now : ℕ) (token other : String) (d : SessionData)
      → token ≢ other
      → validate_session K {E = Unit {0}} (create_session K s at token d) now other
        ≡ validate_session K s now other
  unfolding validate_session
  validate-create_session_ne s at now token other d differ =
      ground (arith, get-create_session s at now token other d, eq_iff token other)

  get-untrack :
      (s : K.Store) (at now : ℕ) (token user_id other : String)
      → K.get (untrack K s at token user_id) now (session_key other)
        ≡ K.get s now (session_key other)
  unfolding untrack
  get-untrack s at now token user_id other =
      elim (Bool-cases (is_empty (filter (λ t. not (t == token)) (tokens_at K s at user_id)))) [
        | inl emptied ↦ rw emptied (simp (K.get-delete, ne_user_sessions_key))
        | inr kept ↦ rw kept (simp (K.get-put, ne_user_sessions_key))
      ]

  -- What is not there now does not come back.
  gone_of_absent :
      (s : K.Store) (at now : ℕ) (token other : String)
      → at ≤ now
      → K.get s at (session_key token) ≡ none
      → K.get s now (session_key other)
        ≡ (if token == other then none else K.get s now (session_key other))
  gone_of_absent s at now token other later absent = elim (Bool-cases (token == other)) [
    | inr differ ↦ rw differ refl
    | inl same ↦ elim (Option-cases (K.get s now (session_key other))) [
      | inl none_now ↦ ground arith
      | inr (v, found) ↦
          let named : token ≡ other = (eq_iff token other).0 same in
          let earlier = K.get_earlier s (session_key other) v at now later found in
          absurd (let e : K.get s at (session_key other) ≡ none = rw (← named) absent in cc)
    ]
  ]

  pub get-destroy_session :
      (s : K.Store) (at now : ℕ) (token other : String)
      → at ≤ now
      → K.get (destroy_session K s at token) now (session_key other)
        ≡ (if token == other then none else K.get s now (session_key other))
  unfolding destroy_session
  get-destroy_session s at now token other later =
      elim (Option-cases (K.get s at (session_key token))) [
        | inl absent ↦
            rw (absent, destroy_session) (gone_of_absent s at now token other later absent)
        | inr (stored, found) ↦
            rw (found, destroy_session, get-untrack) (simp (K.get-delete, eq_session_key))
      ]

  -- After a logout the token finds nothing, and every other token finds what it found.
  pub validate-destroy_session :
      (s : K.Store) (at now : ℕ) (token other : String)
      → at ≤ now
      → validate_session K {E = Unit {0}} (destroy_session K s at token) now other
        ≡ (if token == other then returned none else validate_session K s now other)
  unfolding validate_session
  validate-destroy_session s at now token other later =
      rw (get-destroy_session s at now token other later, validate_session)
        (elim (Bool-cases (token == other)) [
          | inl same ↦ rw same refl
          | inr differ ↦ rw differ refl
        ])

  pub get-delete_sessions :
      (ts : List String) (s : K.Store) (now : ℕ) (other : String)
      → K.get (delete_sessions K ts s) now (session_key other)
        ≡ (if any (λ t. t == other) ts then none else K.get s now (session_key other))
  unfolding delete_sessions
  get-delete_sessions [] s now other = refl
  get-delete_sessions (t ∷ ts) s now other =
      rw (get-delete_sessions ts (K.delete (session_key t) s) now other)
        (simp (K.get-delete, eq_session_key) (ground arith))
