-- ===== src/Tests/KeyTests.antt =====
-- Random tokens and engine keys at concrete inputs.
use simtrader.Base
use simtrader.Base.{ℕ, ◌≤◌, ◌<◌, String, none, some, List, [], ◌∷◌, All, returned, ◌≡◌, refl, arith}
use simtrader.Json.{Json, str, obj, arr, cons, nil, field, end}
use simtrader.Http.{Response}
use simtrader.World.{World}
use simtrader.Database.Accounts
use simtrader.Json
use simtrader.Research.EngineKeys
use simtrader.Research.EngineKeys.{KeyPlatform, KeyRequest, create_key, created_response}
use simtrader.Tokens
use simtrader.Tokens.{text_length, generate_token}
use simtrader.Tokens.Digits.{of_hex, generate_token-reads}
use simtrader.Tests.{memory, no_entries}

-- The bytes n - 1, …, 1, 0.
abbrev countdown : ℕ → List ℕ
countdown Base.zero = []
countdown (Base.suc n) = n ∷ countdown n

generate_token_runs :
    generate_token countdown ≡ "1f1e1d1c1b1a191817161514131211100f0e0d0c0b0a09080706050403020100"
unfolding generate_token Tokens.to_hex Base.join Base.repeat_char
generate_token_runs = refl

countdown-small : (n : ℕ) → n ≤ 256 → All (λ b. b < 256) (countdown n)
countdown-small Base.zero h = tt
countdown-small (Base.suc n) h = (omega (arith, h), countdown-small n (omega (arith, h)))

generate_token-reads_example :
    (text_length (generate_token countdown) ≡ 64)
    × (of_hex (generate_token countdown) ≡ countdown 32)
generate_token-reads_example =
    generate_token-reads countdown refl (countdown-small 32 (omega arith))

abbrev keys : KeyPlatform
keys = record {
  random_values = countdown;
  new_id = "k9";
  sha256_hex = λ text. text;
  parse_time = λ text. some 2000;
  show_time = λ at. "now";
}

abbrev request : KeyRequest
request = record {
  actor_id = some "u1";
  connecting_ip = none;
  body = returned (
      obj (
        field "name" (str "engine") (
          field "scopes" (arr (cons (str "signals:read") nil))
            (field "expires_at" (str "then") end))));
}

abbrev world : World memory
world = record {
  db = record {
    users = [];
    identities = [];
    saxo_tokens = [];
    signal_actions = [];
    audit_log = [];
    engine_api_keys = [];
    signals = [];
    evaluations = [];
    instruments = [];
  };
  kv = no_entries;
  jwks = [];
  outages = [];
}

abbrev with_key : World memory
with_key = (create_key keys 1100 request world).0

abbrev created : Response
created = created_response keys 1100 "engine" ("signals:read" ∷ [])
