-- ===== src/Research/Listings/Disclosure.antt =====
-- The list of engine keys tells nothing about the keys' hashes.
use simtrader.Base.{
  ℕ, String, List, [], ◌∷◌, map, Bool-cases, returned, ◌≡◌, refl, ap, ◌∙◌, inl, inr, ltb,
}
use simtrader.Json.{arr, of_list}
use simtrader.Http.{json_response}
use simtrader.Kv.{KvNamespace}
use simtrader.World.{World, next_fails}
use simtrader.Database.{EngineKey, Db}
use simtrader.Database.Queries.{Postgres, insert_by, newest_first}
use simtrader.Research.Listings.{key_json, select_keys, list_keys}

-- The key with another hash.
abbrev pub with_hash : (EngineKey → String) → EngineKey → EngineKey
with_hash hash k = record k { key_hash = hash k }

-- The database with other hashes.
abbrev pub with_hashes : (EngineKey → String) → Db → Db
with_hashes hash db = record db { engine_api_keys = map (with_hash hash) db.engine_api_keys }

abbrev made : EngineKey → ℕ
made k = k.created_at

module _ (hash : EngineKey → String) where
  insert_by-map :
      (k : EngineKey) (ks : List EngineKey)
      → insert_by (λ a b. ltb (made b) (made a)) (with_hash hash k) (map (with_hash hash) ks)
        ≡ map (with_hash hash) (insert_by (λ a b. ltb (made b) (made a)) k ks)
  insert_by-map k [] = refl
  insert_by-map k (j ∷ ks) = elim (Bool-cases (ltb (made k) (made j))) [
    | inl later ↦ rw later (ap (λ t. with_hash hash j ∷ t) (insert_by-map k ks))
    | inr here ↦ rw here refl
  ]

  newest_first-map :
      (ks : List EngineKey)
      → newest_first made (map (with_hash hash) ks) ≡ map (with_hash hash) (newest_first made ks)
  newest_first-map [] = refl
  newest_first-map (k ∷ ks) =
      ap (insert_by (λ a b. ltb (made b) (made a)) (with_hash hash k)) (newest_first-map ks)
      ∙ insert_by-map k (newest_first made ks)

  map-key_json :
      (pg : Postgres) (ks : List EngineKey)
      → map (key_json pg) (map (with_hash hash) ks) ≡ map (key_json pg) ks
  map-key_json pg [] = refl
  map-key_json pg (k ∷ ks) = ap (λ t. key_json pg k ∷ t) (map-key_json pg ks)

  shown-keys :
      (pg : Postgres) (db : Db)
      → map (key_json pg) (select_keys (with_hashes hash db)) ≡ map (key_json pg) (select_keys db)
  unfolding select_keys
  shown-keys pg db =
      ap (map (key_json pg)) (newest_first-map db.engine_api_keys)
      ∙ map-key_json pg (newest_first made db.engine_api_keys)

-- The list of engine keys is the same, and ends in the same way, whatever the hashes of the stored
-- keys are: it discloses nothing about them.
pub list_keys-with_hashes :
    (K : KvNamespace) (pg : Postgres) (hash : EngineKey → String) (w : World K)
    → (list_keys pg (record w { db = with_hashes hash w.db })).1 ≡ (list_keys pg w).1
unfolding list_keys
list_keys-with_hashes K pg hash w = elim (Bool-cases (next_fails w.outages)) [
  | inl failing ↦ rw failing refl
  | inr working ↦
      rw working
        (ap (λ ks. returned (json_response 200 (arr (of_list ks)))) (shown-keys hash pg w.db))
]
