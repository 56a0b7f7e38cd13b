-- ===== src/Events/Route.antt =====
-- POST /internal/identity-events: workers/src/routes/identity-events.ts.
use Prim.Native.String.{count}
use simtrader.Base.{
  ℕ, ◌/◌, String, Bool, true, false, not, ◌&&◌, ◌||◌, Option, none, some, ltb, leb, Exec, returned,
  thrown, truthy_text, trim, starts_with_lowered, if◌then◌else◌,
}
use simtrader.Base
use mathlib.Core.Option
use simtrader.Json.{bool, str, obj, field, end}
use simtrader.Http.{
  Handler, Response, ◌>>=◌, ◌>>◌, give, answer, ensure, lift, json_response, json_error,
}
use simtrader.Kv.{KvNamespace}
use simtrader.World.{World, sql, kv}
use simtrader.Database.{Db, Identity}
use simtrader.Database.Accounts.{select_identity, clear_ip_addresses, delete_user}
use simtrader.Session.{destroy_all_user_sessions}
use simtrader.Audit.{write_audit}
use simtrader.Issuers.{Env, UrlResolver, budgetapp_issuer}
use simtrader.Jwt.{Runtime, IssuerConfig}
use simtrader.Events.{
  IdentityEventStore, EventOutcome, erased, sessions_ended, unknown_member, ReceiveResult, accepted,
  refused, receive_identity_event,
}

-- `MAX_BODY_BYTES`
abbrev pub max_body_bytes : ℕ
max_body_bytes = 8192

unfoldable pub outcome_text : EventOutcome → String
outcome_text erased = "erased"
outcome_text sessions_ended = "sessions_ended"
outcome_text unknown_member = "unknown_member"

unfoldable pub event_answer : ReceiveResult → Response
unfolding outcome_text
event_answer (refused refusal) = json_error refusal.status refusal.reason
event_answer (accepted event outcome) = json_response 200 (
    obj (
      field "ok" (bool true)
        (field "event" (str event) (field "outcome" (str (outcome_text outcome)) end))))

-- `eraseUser`: one transaction.
unfoldable pub erase : String → Db → Db
erase user_id db = delete_user user_id (clear_ip_addresses user_id db)

module _ {K : KvNamespace} where
  -- A query with an undefined parameter throws.
  unfoldable pub find_user_id : String → Option String → Handler (World K) (Option String)
  find_user_id iss none = λ w. (w, thrown)
  find_user_id iss (some sub) =
      sql (λ db. (db, Option.map (λ (e : Identity). e.user_id) (select_identity iss sub db)))

  -- The store of the route, at a time in seconds.
  unfoldable pub event_store : ℕ → IdentityEventStore (World K)
  unfolding find_user_id
  event_store now = record {
    find_user_id = find_user_id;
    erase_user = λ user_id. sql (λ db. (erase user_id db, tt));
    end_sessions = λ user_id. kv (λ s. (destroy_all_user_sessions K s now user_id, tt));
    audit = λ action detail. write_audit now (record {
      actor_id = none;
      target_user_id = none;
      action = action;
      detail = some detail;
      ip_address = none;
    });
  }

  -- The call of `receiveIdentityEvent`; it writes the JWKS cache of the isolate.
  unfoldable pub receive : Runtime → String → IssuerConfig → Handler (World K) ReceiveResult
  receive r token issuer w =
      let (cache, (w', result)) =
        receive_identity_event (event_store (r.now_ms / 1000)) r w.jwks token issuer none w in
      (record w' { jwks = cache }, result)

  abbrev pub receive_from : Runtime → String → Option IssuerConfig → Handler (World K) ReceiveResult
  receive_from r token none = answer (json_error 503 "not_configured")
  receive_from r token (some issuer) = receive r token issuer

  -- The handler, on the Content-Type header and the body's text.
  unfoldable pub identity_events_route :
      Runtime → UrlResolver → Env → Option String → String → Handler (World K) Response
  identity_events_route r resolve env content_type text = do
    issuer ← lift (budgetapp_issuer resolve env)
    ensure (Base.is_some issuer) (json_error 503 "not_configured")
    ensure (starts_with_lowered (Base.or_else content_type "") "application/jwt")
        (json_error 415 "unsupported_media_type")
    let token = trim text
    ensure (truthy_text token && leb (count token) max_body_bytes) (json_error 400 "malformed")
    result ← receive_from r token issuer
    give (event_answer result)
