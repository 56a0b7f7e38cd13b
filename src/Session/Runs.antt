-- ===== src/Session/Runs.antt =====
-- The states of the namespace that the functions of workers/src/lib/session.ts lead to where each runs
-- whole, in any order and at any times that do not go back.
use simtrader.Base.{ℕ, ◌≤◌, String, none, ◌≡◌, sym, ◌∙◌}
use simtrader.Kv.{KvNamespace}
use simtrader.Session.{
  SessionData, session_key, create_session, destroy_session, destroy_all_user_sessions,
}
use simtrader.Session.Tracking.{
  IsTracked, IsTracked-later, create_session-IsTracked, destroy_session-IsTracked,
  destroy_all-IsTracked,
}

module _ (K : KvNamespace) where
  -- The states at a time.
  pub data IsReached : K.Store → ℕ → Type 0 where
    -- A namespace in which no token finds an entry.
    fresh :
        (s : K.Store) (at : ℕ)
        → ((token : String) (now : ℕ) → K.get s now (session_key token) ≡ none)
        → IsReached s at
    waited : (s : K.Store) (at at' : ℕ) → IsReached s at → at ≤ at' → IsReached s at'
    signed_in :
        (s : K.Store) (at : ℕ) (token : String) (d : SessionData)
        → IsReached s at
        → IsReached (create_session K s at token d) at
    logged_out :
        (s : K.Store) (at : ℕ) (token : String)
        → IsReached s at
        → IsReached (destroy_session K s at token) at
    ended :
        (s : K.Store) (at : ℕ) (user_id : String)
        → IsReached s at
        → IsReached (destroy_all_user_sessions K s at user_id) at

  -- Whatever sign-ins, logouts and endings of all sessions of a user came before, each of them whole,
  -- and in whatever order, every live session is in its user's list and none outlives a day.
  pub reached-IsTracked : (s : K.Store) (at : ℕ) → IsReached s at → IsTracked K s at
  reached-IsTracked s at (fresh _ _ none_there) = record {
    capped = λ token stored now found. absurd (cc (sym (none_there token now) ∙ found));
    listed = λ token user_id stored now after found mine.
        absurd (cc (sym (none_there token now) ∙ found));
  }
  reached-IsTracked s at' (waited _ at _ before later) =
      IsTracked-later K s at at' later (reached-IsTracked s at before)
  reached-IsTracked _ at (signed_in s _ token d before) =
      create_session-IsTracked K s at (reached-IsTracked s at before) token d
  reached-IsTracked _ at (logged_out s _ token before) =
      destroy_session-IsTracked K s at (reached-IsTracked s at before) token
  reached-IsTracked _ at (ended s _ user_id before) =
      destroy_all-IsTracked K s at (reached-IsTracked s at before) user_id
