-- ===== src/Kv.antt =====
-- The KV namespace that the Worker is bound to: a service, so an interface with the behaviour that
-- the program relies on. Reads see the writes before them; the delay with which a write reaches
-- other locations is left out. Times are in seconds.
use simtrader.Base.{
  ℕ, ◌+◌, ◌≤◌, String, ◌==◌, Bool, true, Option, none, some, ◌≡◌, ltb, if◌then◌else◌,
}
use simtrader.Json.{Json}

-- Whether an entry that was written at a time, with or without `expirationTtl`, is still there.
abbrev pub is_live : Option ℕ → ℕ → ℕ → Bool
is_live none at now = true
is_live (some ttl) at now = ltb now (at + ttl)

pub record KvNamespace : Type 1 where
  pub Store : Type 0
  pub get : Store → ℕ → String → Option Json
  pub put : String → Json → Option ℕ → ℕ → Store → Store
  pub delete : String → Store → Store
  pub get-put :
      (s : Store) (k j : String) (v : Json) (ttl : Option ℕ) (at now : ℕ)
      → get (put k v ttl at s) now j
        ≡ (if k == j then (if is_live ttl at now then some v else none) else get s now j)
  pub get-delete :
      (s : Store) (k j : String) (now : ℕ)
      → get (delete k s) now j ≡ (if k == j then none else get s now j)
  -- Time only takes entries away.
  pub get_earlier :
      (s : Store) (k : String) (v : Json) (earlier later : ℕ)
      → earlier ≤ later
      → get s later k ≡ some v
      → get s earlier k ≡ some v
