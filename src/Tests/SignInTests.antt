-- ===== src/Tests/SignInTests.antt =====
-- A sign-in from its start to its session, and the sign-in theorems at concrete inputs.
use Prim.Native.String
use simtrader.Base.{
  String, Option, none, some, [], ◌==◌, true, returned, ◌≡◌, ◌≢◌, refl, whole, if◌then◌else◌,
  has_char, or_else,
}
use simtrader.Json
use simtrader.Json.{Json, str, num, arr, obj, nil, cons, field, end}
use simtrader.Http.{Response, issued, redirect_response}
use simtrader.World.{World}
use simtrader.Database.Accounts as Rows
use simtrader.Audit.{write_audit}
use simtrader.Session
use simtrader.Issuers
use simtrader.Jwt.{Runtime, IdTokenClaims, claims_of}
use simtrader.Access.{no_vars}
use simtrader.Events.Route
use simtrader.SignIn
use simtrader.SignIn.{Web, TokenEndpoint, StartSecrets, start, error_page}
use simtrader.SignIn.Accounts
use simtrader.SignIn.Accounts.{Account, find_or_provision}
use simtrader.SignIn.Accounts.Linking.{
  linked_user, find_or_provision-links, find_or_provision-again,
}
use simtrader.SignIn.Callback
use simtrader.SignIn.Callback.{CallbackRequest, callback}
use simtrader.SignIn.Callback.SignedIn.{IsSignIn, callback-IsSignIn}
use simtrader.SignIn.Callback.Once.{callback-once}
use simtrader.Tests.{memory, no_entries, header, platform, env}
use simtrader.Tests.TokenTests.{verifier}

abbrev sign_in_payload : Json
sign_in_payload = obj (
    field "iss" (str "https://id") (
      field "sub" (str "member") (
        field "aud" (str "app") (
          field "exp" (num (whole 1300)) (
            field "iat" (num (whole 1000)) (
              field "nonce" (str "n1")
                (field "jti" (str "j1") (field "email" (str "a@b") end))))))))

abbrev parse_sign_in : String → Option Json
parse_sign_in t = if t == "h" then some header else if t == "q" then some sign_in_payload else none

abbrev browser_platform : Runtime
browser_platform = record platform { json_parse = parse_sign_in }

abbrev web : Web
web = record {
  resolve = λ path base. some (String.◌++◌ base path);
  with_params = λ url params. some url;
  challenge = λ v. v;
}

abbrev endpoint : TokenEndpoint
endpoint request =
    some (record { ok = true; body = some (obj (field "id_token" (str "h.q.good") end)) })

abbrev empty_world : World memory
empty_world = record {
  db = record {
    users = [];
    identities = [];
    saxo_tokens = [];
    signal_actions = [];
    audit_log = [];
    engine_api_keys = [];
    signals = [];
    evaluations = [];
    instruments = [];
  };
  kv = no_entries;
  jwks = [];
  outages = [];
}

abbrev secrets : StartSecrets
secrets = record { state = "s1"; nonce = "n1"; code_verifier = "v1" }

abbrev started : World memory
started = (start web env 1050 no_vars secrets (some "/admin/users") empty_world).0

abbrev request : CallbackRequest
request = record { error = none; code = some "c1"; state = some "s1"; connecting_ip = none }

site : Unit {0}
unfolding verifier has_char start SignIn.configured SignIn.flow_key SignIn.safe_next
    SignIn.encode_flow SignIn.decode_flow SignIn.redirect_uri SignIn.remember_flow SignIn.read_flow
    SignIn.drop_flow SignIn.consume_flow SignIn.read_id_token SignIn.exchange_code
    Issuers.budgetapp_token_url Issuers.budgetapp_issuer Issuers.trusted_issuers
    Issuers.lookup_issuer Issuers.jwks_url Callback.check_request Callback.verify Callback.jti_key
    Callback.jti_ttl Callback.read_jti Callback.remember_jti Callback.claim_jti
    Callback.guard_replay Callback.store_session Callback.destination Callback.finish callback
    Route.find_user_id Accounts.update_identity Accounts.insert_user Accounts.insert_identity
    Accounts.change_db Accounts.refresh_account Accounts.provision_account find_or_provision
    Rows.select_identity Rows.insert_audit Rows.select_user Rows.update_user write_audit
    Session.create_session Session.session_key Session.user_sessions_key Session.encode_session
    Session.tokens_of Json.get_prop Json.strings_of Json.of_strings
site = tt

abbrev signed_in : World memory
signed_in = (callback browser_platform web endpoint env "u1" "t1" request started).0

abbrev landed : Response
landed = record (redirect_response "/admin/users") { cookie = issued "t1" }

sign_in_runs :
    callback browser_platform web endpoint env "u1" "t1" request started
    ≡ (signed_in, returned landed)
unfolding site
sign_in_runs = refl

callback-IsSignIn_example :
    IsSignIn memory browser_platform web endpoint env "u1" "t1" request started signed_in landed
callback-IsSignIn_example =
    callback-IsSignIn memory browser_platform web endpoint env "u1" "t1" request started signed_in
      landed sign_in_runs

callback-once_example :
    callback browser_platform web endpoint env "u2" "t2" request signed_in
    ≢ (signed_in, returned landed)
callback-once_example =
    callback-once memory browser_platform browser_platform web endpoint endpoint env "u1" "u2" "t1"
      "t2" request request started signed_in signed_in signed_in landed landed sign_in_runs refl
      refl

abbrev claims : IdTokenClaims
claims = claims_of sign_in_payload

abbrev renamed : IdTokenClaims
renamed = record claims { email = some "new@b" }

abbrev account : Account
account = record { user_id = "u1"; role = "user"; status = "active" }

abbrev provisioned : World memory
provisioned = (find_or_provision 1100 "u1" claims empty_world).0

provision_runs : find_or_provision 1100 "u1" claims empty_world ≡ (provisioned, returned account)
unfolding site
provision_runs = refl

find_or_provision-links_example :
    (account.user_id ≡ or_else (linked_user "https://id" "member" empty_world.db) "u1")
    × (linked_user "https://id" "member" provisioned.db ≡ some account.user_id)
unfolding site
find_or_provision-links_example =
    find_or_provision-links memory 1100 "u1" claims "member" empty_world provisioned account refl
      provision_runs

abbrev returning : World memory
returning = (find_or_provision 1200 "u2" renamed provisioned).0

return_runs : find_or_provision 1200 "u2" renamed provisioned ≡ (returning, returned account)
unfolding site
return_runs = refl

find_or_provision-again_example : account.user_id ≡ account.user_id
unfolding site
find_or_provision-again_example =
    find_or_provision-again memory 1100 1200 "u1" "u2" "member" claims renamed empty_world
      provisioned returning account account refl refl refl provision_runs return_runs
