-- ===== src/Access/Fresh.antt =====
-- A new session signs its user in.
use simtrader.Base.{
  ℕ, ◌+◌, ◌<◌, String, ◌==◌, eq_iff, eq_refl, true, some, [], truthy_text, returned, ◌≡◌, refl,
  arith,
}
use simtrader.Http.{Response}
use simtrader.Kv.{KvNamespace}
use simtrader.World.{World}
use simtrader.Database.{User}
use simtrader.Database.Accounts.{select_user}
use simtrader.Session.{SessionData, session_ttl_seconds, create_session, validate_session}
use simtrader.Session.Lookup.{IsNamed, get-create_session, decode_session-encode_session}
use simtrader.Access.{session_middleware}

module _ (K : KvNamespace) where
  validate-fresh :
      (s : K.Store) (at now : ℕ) (token : String) (d : SessionData)
      → IsNamed d
      → now < at + session_ttl_seconds
      → validate_session K {E = Response} (create_session K s at token d) now token
        ≡ returned (some d)
  unfolding validate_session
  validate-fresh s at now token d named soon =
      rw (get-create_session K s at now token token d, validate_session, eq_refl token)
        (ground (arith, decode_session-encode_session {E = Response} d named))

  -- The state after a session was created.
  abbrev pub with_session : World K → ℕ → String → SessionData → World K
  with_session w at token d = record w { kv = create_session K w.kv at token d }

  -- When no service fails, the cookie of a session that was created less than 24 hours ago sets the
  -- request's variables, where the user is in the database and active and the session names a user
  -- and a role: the session's user, the role of the user's row, whatever role the session holds, the
  -- status active, and the session's authentication methods.
  pub session_middleware-create_session :
      (w : World K) (at now : ℕ) (token : String) (d : SessionData) (user : User)
      → w.outages ≡ []
      → truthy_text token ≡ true
      → IsNamed d
      → now < at + session_ttl_seconds
      → select_user d.user_id w.db ≡ some user
      → user.status ≡ "active"
      → (session_middleware now (some token) (with_session w at token d)).1
        ≡ returned (record {
          user_id = some d.user_id;
          user_role = some user.role;
          user_status = some "active";
          auth_methods = some d.amr;
        })
  unfolding session_middleware
  session_middleware-create_session w at now token d user calm given named soon found active =
      let live : (user.status == "active") ≡ true = (eq_iff user.status "active").1 active in
      rw (given, calm, validate-fresh w.kv at now token d named soon, found, live) refl
