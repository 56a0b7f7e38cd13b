-- ===== src/Tests/EventTests.antt =====
-- Identity events: a deletion that runs to its end, and the event theorems at concrete inputs.
use simtrader.Base.{
  String, none, some, [], ◌∷◌, true, false, returned, rejected, thrown, ◌≡◌, refl, arith, whole,
}
use simtrader.World.{World}
use simtrader.Database.{Db, User, Identity, AuditRow}
use simtrader.Database.Accounts
use simtrader.Audit.{write_audit}
use simtrader.Session.{SessionData, create_session}
use simtrader.Session.Tracking.{IsTracked, IsTracked-later, create_session-IsTracked}
use simtrader.Jwt.{IdTokenClaims, claims_of, identity_event_typ}
use simtrader.Jwt.Verify.{verify_id_token}
use simtrader.Events
use simtrader.Events.{
  EventOutcome, erased, accepted, user_deleted, Refusal, verify_identity_event,
  apply_identity_event,
}
use simtrader.Events.Outcomes.{
  IsErasure, apply-IsErasure, RefusalFits, verify_identity_event-RefusalFits,
}
use simtrader.Events.Route
use simtrader.Events.Route.{event_store, receive}
use simtrader.Events.Erasure.{IsErased, receive-IsErased}
use simtrader.Tests.{memory, config, payload, platform}
use simtrader.Tests.TokenTests.{verifier}
use simtrader.Tests.SessionTests.{no_entries-IsTracked}
use simtrader.Tests.{no_entries}

abbrev session : SessionData
session = record { user_id = "u1"; role = "user"; amr = []; auth_time = whole 1000 }

abbrev user : User
user = record {
  id = "u1";
  email = "a@b";
  role = "user";
  status = "active";
  created_at = 1;
  last_login_at = none;
  updated_at = 1;
}

abbrev identity : Identity
identity = record {
  user_id = "u1";
  provider = "budgetapp";
  iss = "https://id";
  sub = "member";
  email = none;
  name = none;
  last_seen_at = 1;
}

abbrev login_row : AuditRow
login_row = record {
  actor_id = some "u1";
  target_user_id = none;
  action = "user.login";
  detail = none;
  ip_address = some "1.2.3.4";
  ts = 5;
}

abbrev db : Db
db = record {
  users = user ∷ [];
  identities = identity ∷ [];
  saxo_tokens = [];
  signal_actions = [];
  audit_log = login_row ∷ [];
  engine_api_keys = [];
  signals = [];
  evaluations = [];
  instruments = [];
}

abbrev world : World memory
world = record {
  db = db;
  kv = create_session memory no_entries 1000 "t1" session;
  jwks = [];
  outages = false ∷ [];
}

world-IsTracked : IsTracked memory world.kv 1100
world-IsTracked =
    IsTracked-later memory _ 1000 1100 (omega arith)
      (create_session-IsTracked memory no_entries 1000 no_entries-IsTracked "t1" session)

receiver : Unit {0}
unfolding verifier receive Events.receive_identity_event verify_identity_event Events.read_event
    Events.known_event Events.apply_verified apply_identity_event Events.apply_to_user
    Events.delete_member Events.end_member_sessions Events.refusal event_store Route.find_user_id
    Route.erase Accounts.select_identity Accounts.delete_user Accounts.clear_ip_addresses
    Accounts.insert_audit write_audit
receiver = tt

abbrev after : World memory
after = (receive platform "e.p.good" config world).0

deletion_runs :
    receive platform "e.p.good" config world ≡ (after, returned (accepted user_deleted erased))
unfolding receiver
deletion_runs = refl

receive-IsErased_example :
    (user_deleted ≡ user_deleted)
    × ((claims : IdTokenClaims) × ((verify_identity_event platform [] "e.p.good" config none).1
          ≡ returned (claims, user_deleted))
        × ((user_id : String) × IsErased claims user_deleted user_id 1100 world after))
receive-IsErased_example =
    receive-IsErased platform "e.p.good" user_deleted config world after world-IsTracked
      deletion_runs

abbrev claims : IdTokenClaims
claims = claims_of payload

abbrev applied : World memory
applied = (apply_identity_event (event_store 1100) claims user_deleted world).0

application_runs :
    apply_identity_event (event_store 1100) claims user_deleted world ≡ (applied, returned erased)
unfolding receiver
application_runs = refl

apply-IsErasure_example :
    (user_deleted ≡ user_deleted)
    × ((user_id : String) × IsErasure (event_store 1100) claims user_deleted user_id world applied)
apply-IsErasure_example =
    apply-IsErasure (event_store 1100) claims user_deleted world applied application_runs

abbrev sign_in_refused : Refusal
sign_in_refused = record { status = 401; reason = "typ_mismatch" }

sign_in_is_refused :
    (verify_identity_event platform [] "h.p.good" config none).1 ≡ rejected sign_in_refused
unfolding receiver Events.reason_text
sign_in_is_refused = refl

verify_identity_event-RefusalFits_example :
    RefusalFits
      (verify_id_token platform [] "h.p.good" config
        (record { nonce = none; typ = some identity_event_typ; now = none })).1
      401
verify_identity_event-RefusalFits_example =
    verify_identity_event-RefusalFits platform [] "h.p.good" config sign_in_refused
      sign_in_is_refused

-- An outage in the second call leaves the user in place, and no outcome is reported.
abbrev outage : World memory
outage = record world { outages = false ∷ false ∷ true ∷ [] }

outage_throws : (receive platform "e.p.good" config outage).1 ≡ thrown
unfolding receiver
outage_throws = refl
