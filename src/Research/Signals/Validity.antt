-- ===== src/Research/Signals/Validity.antt =====
-- What is stored as a signal is well formed.
use Prim.Native.String
use simtrader.Base.{
  ℕ, ℤ, pos, pos_part, neg_part, ◌≤◌, String, true, false, ◌&&◌, Bool, Option, none, some, List, [],
  ◌∷◌, or_else, truthy_text, split, join, join-split, Exec, returned, ◌≡◌, refl, sym, ap, ◌∙◌,
  arith,
}
use simtrader.Json.{Json, read_prop}
use simtrader.Http.{Response, ensure, lift, continue-eq-returned, ensure-returned, lift-returned}
use simtrader.Kv.{KvNamespace}
use simtrader.World.{World, sql, sql-returned}
use simtrader.Database.{Signal, Db}
use simtrader.Database.Queries.{Postgres}
use simtrader.Research.{Principal}
use simtrader.Research.EngineKeys.{body_or_empty, trimmed}
use simtrader.Research.Signals.{
  valid_horizons, includes, score_of, horizon_of, source_of, is_known_horizon, new_signal,
  score_in_range, two_parts, insert_signal, expiry_or_throw, parts_or_refusal, store_signal,
  push_signal,
}

-- A signal with a score between -1 and 1 (in ten-thousandths), one of the four horizons, a source,
-- and an instrument key that is its symbol, a colon and its market, which has no other colon.
pub record IsValidSignal (s : Signal) : Type 0 where
  pub at_most : pos_part s.score ≤ 10000
  pub at_least : neg_part s.score ≤ 10000
  pub horizon : includes valid_horizons s.horizon ≡ true
  pub source : truthy_text s.source ≡ true
  pub parts : split ":" s.instrument_key ≡ s.symbol ∷ s.mic ∷ []
  pub key : s.instrument_key ≡ String.◌++◌ s.symbol (String.◌++◌ ":" s.mic)

score-bounds :
    (score : Option ℤ)
    → score_in_range score ≡ true
    → (pos_part (or_else score (pos 0)) ≤ 10000) × (neg_part (or_else score (pos 0)) ≤ 10000)
score-bounds none h = cc
score-bounds (some (ℤ.pos n)) h = ground arith
score-bounds (some (ℤ.negsuc n)) h = ground arith

two_parts-eq :
    (parts : List String) (symbol mic : String)
    → two_parts parts ≡ some (symbol, mic)
    → parts ≡ symbol ∷ mic ∷ []
two_parts-eq [] symbol mic e = cc
two_parts-eq (a ∷ []) symbol mic e = cc
two_parts-eq (a ∷ b ∷ []) symbol mic e = cc
two_parts-eq (a ∷ b ∷ c ∷ parts) symbol mic e = cc

joined :
    (key symbol mic : String)
    → split ":" key ≡ symbol ∷ mic ∷ []
    → key ≡ String.◌++◌ symbol (String.◌++◌ ":" mic)
unfolding join
joined key symbol mic e = sym (join-split ":" key) ∙ ap (λ parts. join ":" parts) e

pub and-true : (a b : Bool) → (a && b) ≡ true → b ≡ true
and-true true b h = h
and-true false b h = cc

new_signal-IsValidSignal :
    (now : ℕ) (new_id : String) (principal : Principal) (body : Json) (key : String)
    (parts : String × String)
    → score_in_range (score_of body) ≡ true
    → is_known_horizon (horizon_of body) ≡ true
    → truthy_text (source_of body) ≡ true
    → two_parts (split ":" key) ≡ some parts
    → IsValidSignal (new_signal now new_id principal body key parts)
unfolding new_signal is_known_horizon
new_signal-IsValidSignal now new_id principal body key parts scored timed sourced split_up =
    let two = two_parts-eq (split ":" key) parts.0 parts.1 split_up in
    let bounds = score-bounds (score_of body) scored in
    record {
      at_most = bounds.0;
      at_least = bounds.1;
      horizon = and-true (truthy_text (horizon_of body)) _ timed;
      source = sourced;
      parts = two;
      key = joined key parts.0 parts.1 two;
    }

module _ (K : KvNamespace) where
  parts-returned :
      (found : Option (String × String)) (w w' : World K) {parts : String × String}
      → parts_or_refusal found w ≡ (w', returned parts)
      → (found ≡ some parts) × (w' ≡ w)
  parts-returned none w w' e = absurd (cc (ap (λ p. p.1) e))
  parts-returned (some ps) w w' e = (cc (ap (λ p. p.1) e), sym (ap (λ p. p.0) e))

  store-returned :
      (pg : Postgres) (s : Signal) (w w' : World K) {response : Response}
      → store_signal pg s w ≡ (w', returned response)
      → w'.db.signals ≡ s ∷ w.db.signals
  unfolding store_signal insert_signal
  store-returned pg s w w' e =
      let (w0, u0, h0, e0) = continue-eq-returned (lift (expiry_or_throw pg s.expires_at) w) _ e in
      let (same, valid) = lift-returned (expiry_or_throw pg s.expires_at) w w0 h0 in
      let insert : Db → Db × Unit {0} = λ db. (insert_signal s db, tt) in
      let (w1, u, h1, e1) = continue-eq-returned (sql insert w0) _ e0 in
      let (db, value, kv) = sql-returned insert w0 w1 u h1 in
      ap (λ p. p.0.db.signals) (sym e1)
      ∙ ap (λ d. d.signals) db
      ∙ ap (λ (v : World K). s ∷ v.db.signals) same

  -- A push that was answered with success added exactly one row to the signals, which is well
  -- formed and carries the sender's key.
  pub push_signal-IsValidSignal :
      (pg : Postgres) (now : ℕ) (new_id : String) (principal : Principal)
      (request : Exec Response Json) (w w' : World K) (response : Response)
      → push_signal pg now new_id principal request w ≡ (w', returned response)
      → (s : Signal) × (w'.db.signals ≡ s ∷ w.db.signals)
        × IsValidSignal s
        × (s.api_key_id ≡ principal.api_key_id)
  unfolding push_signal
  push_signal-IsValidSignal pg now new_id principal request w w' response e =
      let body = body_or_empty request in
      let (w1, key_value, h1, e1) =
        continue-eq-returned (lift (read_prop body "instrument_key") w) _ e in
      let (same1, read) = lift-returned _ w w1 h1 in
      let key = trimmed key_value in
      let (w2, u2, h2, e2) = continue-eq-returned (ensure (truthy_text key) _ w1) _ e1 in
      let (w3, u3, h3, e3) =
        continue-eq-returned (ensure (score_in_range (score_of body)) _ w2) _ e2 in
      let (scored, same3) = ensure-returned _ _ w2 w3 h3 in
      let (w4, u4, h4, e4) =
        continue-eq-returned (ensure (is_known_horizon (horizon_of body)) _ w3) _ e3 in
      let (timed, same4) = ensure-returned _ _ w3 w4 h4 in
      let (w5, u5, h5, e5) =
        continue-eq-returned (ensure (truthy_text (source_of body)) _ w4) _ e4 in
      let (sourced, same5) = ensure-returned _ _ w4 w5 h5 in
      let (w6, parts, h6, e6) =
        continue-eq-returned (parts_or_refusal (two_parts (split ":" key)) w5) _ e5 in
      let (split_up, same6) = parts-returned (two_parts (split ":" key)) w5 w6 h6 in
      let s = new_signal now new_id principal body key parts in
      let start : w6 ≡ w =
        same6 ∙ same5 ∙ same4 ∙ same3 ∙ (ensure-returned _ _ w1 w2 h2).1 ∙ same1 in
      (
        s,
        store-returned pg s w6 w' e6 ∙ ap (λ v. s ∷ v.db.signals) start,
        new_signal-IsValidSignal now new_id principal body key parts scored timed sourced split_up,
        (unfold new_signal in refl),
      )
