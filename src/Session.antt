-- ===== src/Session.antt =====
-- Sessions in KV: workers/src/lib/session.ts. Each session is an entry under its token, and each
-- user has an entry that lists the tokens of the user's sessions.
pub mod Keys
pub mod Lookup
pub mod Tracking
pub mod Runs
use Prim.Native.String
use simtrader.Base.{
  ℕ, ℤ, pos, ◌+◌, ◌*◌, String, ◌==◌, Bool, true, false, not, ◌&&◌, Option, none, some, List, [],
  ◌∷◌, ◌++◌, filter, is_empty, Exec, returned, ◌>>=◌, or_else, if◌then◌else◌,
}
use simtrader.Json.{
  Json, str, num, arr, obj, field, end, read_prop, get_prop, as_string, as_number, as_array, truthy,
  strings_of, of_strings,
}
use simtrader.Kv.{KvNamespace}

-- `SESSION_TTL_SECONDS`
abbrev pub session_ttl_seconds : ℕ
session_ttl_seconds = 86400

pub record SessionData : Type 0 where
  pub user_id : String
  pub role : String
  pub amr : List String
  pub auth_time : ℤ

unfoldable pub session_key : String → String
session_key token = String.◌++◌ "session:" token

unfoldable pub user_sessions_key : String → String
user_sessions_key user_id = String.◌++◌ "user_sessions:" user_id

-- `JSON.stringify(data)`
unfoldable pub encode_session : SessionData → Json
encode_session d = obj (
    field "userId" (str d.user_id) (
      field "role" (str d.role)
        (field "amr" (arr (of_strings d.amr)) (field "authTime" (num d.auth_time) end))))

-- The value of a token list. Nothing but arrays of texts is stored under such a key.
unfoldable pub tokens_of : Option Json → List String
unfolding strings_of
tokens_of stored = strings_of (or_else (as_array stored) [])

-- What `validateSession` makes of a stored value; `amr` and `authTime` may be absent.
unfoldable pub decode_session {κ} : {E : Type κ} → Json → Exec E (Option SessionData)
decode_session stored = do
  user_id ← read_prop stored "userId"
  role ← read_prop stored "role"
  returned (
      if truthy user_id && truthy role
      then some (record {
        user_id = or_else (as_string user_id) "";
        role = or_else (as_string role) "";
        amr = strings_of (or_else (as_array (get_prop stored "amr")) []);
        auth_time = or_else (as_number (get_prop stored "authTime")) (pos 0);
      })
      else none)

module _ (K : KvNamespace) where
  abbrev pub tokens_at : K.Store → ℕ → String → List String
  tokens_at s now user_id = tokens_of (K.get s now (user_sessions_key user_id))

  -- The two writes of `createSession`: the entry, then the list of the user's tokens.
  abbrev pub write_entry : K.Store → ℕ → String → SessionData → K.Store
  write_entry s now token session =
      K.put (session_key token) (encode_session session) (some session_ttl_seconds) now s

  abbrev pub write_list : K.Store → ℕ → String → SessionData → K.Store
  write_list s now token session =
      K.put (user_sessions_key session.user_id)
        (arr (of_strings (tokens_at s now session.user_id ++ token ∷ [])))
        (some (session_ttl_seconds + 3600)) now s

  -- `createSession`, with the random token as an argument.
  unfoldable pub create_session : K.Store → ℕ → String → SessionData → K.Store
  create_session s now token session =
      write_list (write_entry s now token session) now token session

  unfoldable pub validate_session {κ} :
      {E : Type κ} → K.Store → ℕ → String → Exec E (Option SessionData)
  validate_session s now token = elim (K.get s now (session_key token)) [
    | none ↦ returned none
    | some stored ↦ decode_session stored
  ]

  -- The update of the token list in `destroySession`.
  unfoldable pub untrack : K.Store → ℕ → String → String → K.Store
  untrack s now token user_id =
      let updated = filter (λ t. not (t == token)) (tokens_at s now user_id) in
      if is_empty updated
      then K.delete (user_sessions_key user_id) s
      else K.put (user_sessions_key user_id) (arr (of_strings updated)) none now s

  -- `destroySession`. A stored value without `userId` would give the text of undefined.
  unfoldable pub destroy_session : K.Store → ℕ → String → K.Store
  destroy_session s now token = elim (K.get s now (session_key token)) [
    | none ↦ s
    | some stored ↦
        untrack (K.delete (session_key token) s) now token
          (or_else (as_string (get_prop stored "userId")) "undefined")
  ]

  unfoldable pub delete_sessions : List String → K.Store → K.Store
  delete_sessions [] s = s
  delete_sessions (t ∷ ts) s = delete_sessions ts (K.delete (session_key t) s)

  unfoldable pub destroy_all_user_sessions : K.Store → ℕ → String → K.Store
  destroy_all_user_sessions s now user_id =
      K.delete (user_sessions_key user_id) (delete_sessions (tokens_at s now user_id) s)
