-- ===== src/Research/Instruments/Registry.antt =====
-- A registration as an operation on the abstract registry.
use simtrader.Base.{
  ℕ, String, eq_refl, true, Option, some, Exec, returned, returned-injective, ◌≡◌, refl, sym, ap,
  ◌∙◌, subst, truthy_text,
}
use simtrader.Json.{Json, read_prop, get_prop}
use simtrader.Http.{
  Response, ensure, lift, json_response, continue-eq-returned, ensure-returned, lift-returned,
}
use simtrader.Kv.{KvNamespace}
use simtrader.World.{World, sql, sql-returned}
use simtrader.Database.{Instrument, Db}
use simtrader.Database.Queries.{Postgres}
use simtrader.Research.EngineKeys.{body_or_empty}
use simtrader.Research.Instruments.Upsert.{
  registered, upserted-eq-registered, Registry, view, put, IsUnique, upsert-IsUnique, upsert-lookup,
}
use simtrader.Research.Instruments.{
  upper_trimmed, new_instrument, lookup, upsert, upserted, instrument_json, store_instrument,
  register_instrument,
}

read_prop-eq :
    (v : Json) (key : String) (o : Option Json)
    → ◌≡◌ {A = Exec Response (Option Json)} (read_prop v key) (returned o)
    → o ≡ get_prop v key
unfolding read_prop
read_prop-eq Json.null key o e = cc
read_prop-eq (Json.bool b) key o e = cc
read_prop-eq (Json.num n) key o e = cc
read_prop-eq (Json.str s) key o e = cc
read_prop-eq (Json.arr vs) key o e = cc
read_prop-eq (Json.obj fs) key o e = cc

-- What a registration that was answered with success did.
pub record IsRegistration (pg : Postgres) (row : Instrument) (before after : Db) (answer : Response)
    : Type 0 where
  -- The table of the abstract registry, after `put`.
  pub refines : (symbol mic : String) → view after symbol mic ≡ put row (view before) symbol mic
  pub symbol : truthy_text row.symbol ≡ true
  pub mic : truthy_text row.mic ≡ true
  -- The answer shows the row that is found under the key afterwards.
  pub answered :
      (stored : Instrument) × (view after row.symbol row.mic ≡ some stored)
      × (answer ≡ json_response 201 (instrument_json pg stored))
  pub unique : IsUnique after.instruments

put_self :
    (row : Instrument) (r : Registry)
    → put row r row.symbol row.mic ≡ some (registered row (r row.symbol row.mic))
put_self row r = rw (eq_refl row.symbol, eq_refl row.mic) refl

module _ (K : KvNamespace) (pg : Postgres) where
  store-IsRegistration :
      (row : Instrument) (w w' : World K) (response : Response)
      → IsUnique w.db.instruments
      → truthy_text row.symbol ≡ true
      → truthy_text row.mic ≡ true
      → store_instrument pg row w ≡ (w', returned response)
      → IsRegistration pg row w.db w'.db response
  unfolding store_instrument
  store-IsRegistration row w w' response h symbol mic e =
      let run : Db → Db × Instrument =
        λ db. (upsert row db, upserted row (lookup row.symbol row.mic db)) in
      let (w1, stored, h1, e1) = continue-eq-returned (sql run w) _ e in
      let (db, value, kv) = sql-returned run w w1 stored h1 in
      let after : w'.db ≡ upsert row w.db = ap (λ p. p.0.db) (sym e1) ∙ db in
      let view_after : (s m : String) → view w'.db s m ≡ put row (view w.db) s m =
        λ s m. ap (λ d. view d s m) after ∙ upsert-lookup row w.db s m in
      record {
        refines = view_after;
        symbol = symbol;
        mic = mic;
        answered = (
          stored,
          view_after row.symbol row.mic
              ∙ put_self row (view w.db)
              ∙ ap some
                  (sym (upserted-eq-registered row (lookup row.symbol row.mic w.db)) ∙ sym value),
          sym (returned-injective (ap (λ p. p.1) e1)),
        );
        unique = subst (λ d. IsUnique d.instruments) (sym after) (upsert-IsUnique row w.db h);
      }

  -- On a table with unique keys, a registration that was answered with success does what `put` does
  -- to the abstract registry: the row of the request stands under its symbol and market, which are
  -- not empty, merged with the row that was there; every other key finds what it found; the answer
  -- shows the row that is now stored; and keys stay unique.
  pub register_instrument-IsRegistration :
      (now : ℕ) (new_id : String) (request : Exec Response Json) (w w' : World K)
      (response : Response)
      → IsUnique w.db.instruments
      → register_instrument pg now new_id request w ≡ (w', returned response)
      → IsRegistration pg (new_instrument now new_id (body_or_empty request)) w.db w'.db response
  unfolding register_instrument new_instrument
  register_instrument-IsRegistration now new_id request w w' response unique e =
      let body = body_or_empty request in
      let (w1, symbol, h1, e1) = continue-eq-returned (lift (read_prop body "symbol") w) _ e in
      let (same1, read) = lift-returned (read_prop body "symbol") w w1 h1 in
      let (w2, u2, h2, e2) =
        continue-eq-returned (ensure (truthy_text (upper_trimmed symbol)) _ w1) _ e1 in
      let (named, same2) = ensure-returned _ _ w1 w2 h2 in
      let (w3, u3, h3, e3) =
        continue-eq-returned (ensure (truthy_text (upper_trimmed (get_prop body "mic"))) _ w2) _
          e2 in
      let (placed, same3) = ensure-returned _ _ w2 w3 h3 in
      let row = new_instrument now new_id body in
      subst (λ (v : World K). IsRegistration pg row v.db w'.db response) (same3 ∙ same2 ∙ same1)
        (store-IsRegistration row w3 w' response
          (subst (λ (v : World K). IsUnique v.db.instruments) (sym (same3 ∙ same2 ∙ same1)) unique)
          (subst (λ v. truthy_text (upper_trimmed v) ≡ true)
            (read_prop-eq body "symbol" symbol read) named)
          placed e3)
