-- ===== src/Tests.antt =====
-- Test data: a KV namespace in memory, a platform that decodes and signs in a simple way, and a
-- deployment with one issuer.
mod TokenTests
mod SessionTests
mod EventTests
mod AdminTests
mod SignInTests
mod ResearchTests
mod KeyTests
mod RegistryTests
mod SiteTests
use Prim.Native.String.{String}
use simtrader.Base.{
  ℕ, ◌+◌, ◌≤◌, ◌==◌, eq_iff, Bool, true, false, Option, none, some, List, [], ◌∷◌, ltb, ◌≡◌, refl,
  arith, whole, if◌then◌else◌,
}
use simtrader.Json.{Json, str, num, arr, obj, nil, cons, field, end}
use simtrader.Kv.{KvNamespace, is_live}
use simtrader.Jwt.{Runtime, JwkKey, JwksResponse, IssuerConfig, es256, VerifyOptions}
use simtrader.Database.{Db}
use simtrader.Database.Queries.{Postgres}
use simtrader.Issuers.{Env, UrlResolver}
use simtrader.World.{World}

-- An entry with its last second, if it has one.
abbrev pub Entry : Type 0
Entry = Json × Option ℕ

abbrev pub Memory : Type 0
Memory = String → Option Entry

abbrev pub read_entry : Option Entry → ℕ → Option Json
read_entry none now = none
read_entry (some (v, none)) now = some v
read_entry (some (v, some expiry)) now = if ltb now expiry then some v else none

abbrev pub expiry_of : Option ℕ → ℕ → Option ℕ
expiry_of none at = none
expiry_of (some ttl) at = some (at + ttl)

abbrev pub memory_get : Memory → ℕ → String → Option Json
memory_get s now k = read_entry (s k) now

abbrev pub memory_put : String → Json → Option ℕ → ℕ → Memory → Memory
memory_put k v ttl at s j = if k == j then some (v, expiry_of ttl at) else s j

abbrev pub memory_delete : String → Memory → Memory
memory_delete k s j = if k == j then none else s j

pub memory_get-put :
    (s : Memory) (k j : String) (v : Json) (ttl : Option ℕ) (at now : ℕ)
    → memory_get (memory_put k v ttl at s) now j
      ≡ (if k == j then (if is_live ttl at now then some v else none) else memory_get s now j)
memory_get-put s k j v none at now = ground arith
memory_get-put s k j v (some ttl) at now = ground arith

pub memory_get-delete :
    (s : Memory) (k j : String) (now : ℕ)
    → memory_get (memory_delete k s) now j ≡ (if k == j then none else memory_get s now j)
memory_get-delete s k j now = ground arith

pub memory_earlier :
    (e : Option Entry) (v : Json) (earlier later : ℕ)
    → earlier ≤ later
    → read_entry e later ≡ some v
    → read_entry e earlier ≡ some v
memory_earlier none v earlier later le found = cc
memory_earlier (some (w, none)) v earlier later le found = found
memory_earlier (some (w, some expiry)) v earlier later le found = ground arith

abbrev pub memory : KvNamespace
memory = record {
  Store = Memory;
  get = memory_get;
  put = memory_put;
  delete = memory_delete;
  get-put = memory_get-put;
  get-delete = memory_get-delete;
  get_earlier = λ s k v earlier later. memory_earlier (s k) v earlier later;
}

abbrev pub no_entries : Memory
no_entries k = none

abbrev pub config : IssuerConfig
config = record {
  issuer = "https://id";
  jwks_url = "https://id/jwks";
  alg = es256;
  audience = "app";
}

abbrev pub header : Json
header = obj (field "alg" (str "ES256") (field "kid" (str "k1") end))

abbrev pub event_header : Json
event_header =
    obj
      (field "typ" (str "identity-event") (field "alg" (str "ES256") (field "kid" (str "k1") end)))

abbrev pub payload : Json
payload = obj (
    field "iss" (str "https://id") (
      field "sub" (str "member") (
        field "aud" (str "app") (
          field "exp" (num (whole 1300))
            (field "iat" (num (whole 1000)) (field "event" (str "user.deleted") end))))))

-- The platform: texts stand for themselves, `h`, `e` and `p` for a header, an event's header and a
-- payload. A key verifies a signature that is its own material.
abbrev pub parse_text : String → Option Json
parse_text t =
    if t == "h"
    then some header
    else if t == "e"
    then some event_header
    else if t == "p"
    then some payload
    else none

abbrev pub key : JwkKey
key = record { kty = "EC"; kid = some "k1"; alg = none; crv = none; material = "good" }

abbrev pub response : JwksResponse
response = record { ok = true; keys = some (key ∷ []) }

abbrev pub platform : Runtime
platform = record {
  CryptoKey = String;
  atob = λ t. some t;
  json_parse = parse_text;
  fetch_jwks = λ url. some response;
  import_key = λ jwk alg. some jwk.material;
  verify = λ params k sig message. some (k == sig);
  now_ms = 1100000;
  fetched_ms = 1100000;
}

abbrev pub env : Env
env = record {
  budgetapp_issuer = "https://id";
  budgetapp_jwks_url = "https://id/jwks";
  budgetapp_token_url = "";
  budgetapp_connect_url = "https://id/connect";
  simtrader_public_url = "https://app";
  sso_audience = "app";
  sso_client_id = "";
}

abbrev pub resolve : UrlResolver
resolve path base = none

-- A Postgres that writes every time alike.
abbrev pub postgres : Postgres
postgres = record {
  show_time = λ at. "2026-01-01T00:00:00.000Z";
  date_text = λ at. "Thu Jan 01 2026";
  now_text = λ at. "2026-01-01 00:00:00+00";
  error_text = "Error: connection lost";
  json_text = λ v. "{}";
  show_decimal = λ n. "0.5";
  parse_time = λ text. if text == "1970-01-01" then some 0 else none;
  is_uuid = λ id. if id == "" then false else true;
  is_uuid-nil = refl;
  contains = λ text part. text == part;
  uuid_before = λ a b. false;
  text_before = λ a b. false;
}
