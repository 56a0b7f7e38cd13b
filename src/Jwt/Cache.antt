-- ===== src/Jwt/Cache.antt =====
-- The JWKS cache: what `fetchJwks` answers, and what it leaves in the cache.
use simtrader.Base.{
  ◌-◌, ◌<◌, String, ◌==◌, eq_iff, eq_refl, true, some, List, [], ◌∷◌, ltb, ◌≡◌, refl, ◌≢◌, inl, inr,
  arith, Bool-cases, Option-cases, if◌then◌else◌,
}
use simtrader.Jwt.{JwkKey, JwksResponse, Runtime, jwks_ttl_ms}
use simtrader.Jwt.Keys.{CachedKeys, JwksCache, cache_get, cache_set, refetch, fetch_jwks}

cache_get-cache_set :
    (url other : String) (entry : CachedKeys) (cache : JwksCache)
    → cache_get other (cache_set url entry cache)
      ≡ (if url == other then some entry else cache_get other cache)
unfolding cache_get cache_set
cache_get-cache_set url other entry [] = refl
cache_get-cache_set url other entry ((u, old) ∷ cache) = ground (
  arith,
  eq_iff u url,
  eq_iff u other,
  eq_iff url other,
  cache_get-cache_set url other entry cache,
)

module _ (r : Runtime) (cache : JwksCache) (url : String) where
  -- The keys come from an entry younger than five minutes, or from a good response, now cached.
  pub data IsFresh (keys : List JwkKey) (cache' : JwksCache) : Type 0 where
    from_cache :
        (entry : CachedKeys)
        → cache_get url cache ≡ some entry
        → r.now_ms - entry.fetched_at < jwks_ttl_ms
        → entry.keys ≡ keys
        → cache' ≡ cache
        → IsFresh keys cache'
    from_network :
        (resp : JwksResponse)
        → r.fetch_jwks url ≡ some resp
        → resp.ok ≡ true
        → resp.keys ≡ some keys
        → cache_get url cache' ≡ some (record { keys = keys; fetched_at = r.fetched_ms })
        → IsFresh keys cache'

  refetch-stores :
      (keys : List JwkKey) (cache' : JwksCache)
      → refetch r cache url ≡ (cache', some keys)
      → cache_get url cache' ≡ some (record { keys = keys; fetched_at = r.fetched_ms })
  unfolding refetch
  refetch-stores keys cache' e = elim (Option-cases (r.fetch_jwks url)) [
    | inl down ↦ absurd (ground arith)
    | inr (resp, came) ↦ elim (Option-cases resp.keys) [
      | inl bad ↦ absurd (ground arith)
      | inr (ks, listed) ↦
          let stored : CachedKeys = record { keys = ks; fetched_at = r.fetched_ms } in
          ground (arith, cache_get-cache_set url url stored cache, eq_refl url)
    ]
  ]

  refetch-IsFresh :
      (keys : List JwkKey) (cache' : JwksCache)
      → refetch r cache url ≡ (cache', some keys)
      → IsFresh keys cache'
  unfolding refetch
  refetch-IsFresh keys cache' e = elim (Option-cases (r.fetch_jwks url)) [
    | inl down ↦ absurd (ground arith)
    | inr (resp, came) ↦ elim (Option-cases resp.keys) [
      | inl bad ↦ absurd (ground arith)
      | inr (ks, listed) ↦
          from_network resp came (ground arith) (ground arith) (refetch-stores keys cache' e)
    ]
  ]

  -- Keys that fetchJwks answers come from an entry younger than five minutes or from a
  -- good response that is now cached.
  pub fetch_jwks-IsFresh :
      (keys : List JwkKey) (cache' : JwksCache)
      → fetch_jwks r cache url ≡ (cache', some keys)
      → IsFresh keys cache'
  unfolding fetch_jwks
  fetch_jwks-IsFresh keys cache' e = elim (Option-cases (cache_get url cache)) [
    | inl missing ↦ refetch-IsFresh keys cache' (ground arith)
    | inr (entry, cached) ↦ elim (Bool-cases (ltb (r.now_ms - entry.fetched_at) jwks_ttl_ms)) [
      | inl young ↦ from_cache entry cached (ground arith) (ground arith) (ground arith)
      | inr old ↦ refetch-IsFresh keys cache' (ground arith)
    ]
  ]

  -- The entries of other URLs are never touched.
  pub fetch_jwks-keeps :
      (other : String)
      → url ≢ other
      → cache_get other (fetch_jwks r cache url).0 ≡ cache_get other cache
  unfolding fetch_jwks refetch
  fetch_jwks-keeps other differ = elim (Option-cases (r.fetch_jwks url)) [
    | inl down ↦ ground arith
    | inr (resp, came) ↦ elim (Option-cases resp.keys) [
      | inl bad ↦ ground arith
      | inr (ks, listed) ↦ ground (
        arith,
        eq_iff url other,
        cache_get-cache_set url other (record { keys = ks; fetched_at = r.fetched_ms }) cache,
      )
    ]
  ]

-- Within five minutes of a download the network is not asked again: the same keys are answered,
-- whatever it would say, and the cache stays as it is.
fetch_jwks_again :
    (r r' : Runtime) (cache cache' : JwksCache) (url : String) (keys : List JwkKey)
    → refetch r cache url ≡ (cache', some keys)
    → r'.now_ms - r.fetched_ms < jwks_ttl_ms
    → fetch_jwks r' cache' url ≡ (cache', some keys)
unfolding fetch_jwks
fetch_jwks_again r r' cache cache' url keys e soon =
    let stored = refetch-stores r cache url keys cache' e in ground arith
