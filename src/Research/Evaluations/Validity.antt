-- ===== src/Research/Evaluations/Validity.antt =====
-- What is stored as an evaluation is well formed.
use simtrader.Base.{
  ℕ, ℤ, pos, pos_part, neg_part, ◌≤◌, String, true, false, Option, none, some, ◌∷◌, or_else,
  is_some, truthy_text, Bool-cases, Exec, returned, ◌≡◌, inl, inr, refl, sym, ap, ◌∙◌, subst, arith,
}
use simtrader.Json.{Json, read_prop}
use simtrader.Http.{Response, ensure, lift, continue-eq-returned, ensure-returned, lift-returned}
use simtrader.Kv.{KvNamespace}
use simtrader.World.{World, sql, sql-returned}
use simtrader.Database.{Signal, Evaluation, Db}
use simtrader.Database.Queries.{Postgres}
use simtrader.Research.{Principal}
use simtrader.Research.EngineKeys.{body_or_empty, trimmed}
use simtrader.Research.Signals.{includes, select_signal}
use simtrader.Research.Signals.Validity.{and-true}
use simtrader.Research.Evaluations.{
  valid_verdicts, verdict_of, confidence_of, signal_id_of, is_known_verdict, confidence_in_range,
  to_thousandths, new_evaluation, insert_evaluation, uuid_or_throw, optional_uuid, require_signal,
  check_signal, store_evaluation, push_evaluation,
}

-- The signal that a row names, if any, is stored.
abbrev pub NamesStored : Db → Option String → Type 0
NamesStored db none = Unit
NamesStored db (some id) = (s : Signal) × (select_signal id db ≡ some s)

-- One of the four verdicts on some instrument, with a confidence between 0 and 1 (in
-- ten-thousandths), about a signal that is stored or about none.
pub record IsValidEvaluation (db : Db) (e : Evaluation) : Type 0 where
  pub instrument : truthy_text e.instrument_key ≡ true
  pub verdict : includes valid_verdicts e.verdict ≡ true
  pub at_most : pos_part e.confidence ≤ 10000
  pub at_least : neg_part e.confidence ≡ 0
  pub signal : NamesStored db e.signal_id

confidence-bounds :
    (c : Option ℤ)
    → confidence_in_range c ≡ true
    → (pos_part (to_thousandths (or_else c (pos 0))) ≤ 10000)
      × (neg_part (to_thousandths (or_else c (pos 0))) ≡ 0)
confidence-bounds none h = cc
confidence-bounds (some (ℤ.pos n)) h = (ground arith, refl)
confidence-bounds (some (ℤ.negsuc n)) h = absurd (ground arith)

uuid-truthy : (pg : Postgres) (id : String) → pg.is_uuid id ≡ true → truthy_text id ≡ true
uuid-truthy pg String.[] h = absurd (cc (pg.is_uuid-nil))
uuid-truthy pg (String.◌∷◌ c s) h = refl

module _ (K : KvNamespace) (pg : Postgres) where
  uuid-returned :
      (id : String) (w w' : World K) {u : Unit {0}}
      → lift (uuid_or_throw pg id) w ≡ (w', returned u)
      → (pg.is_uuid id ≡ true) × (w' ≡ w)
  uuid-returned id w w' e = elim (Bool-cases (pg.is_uuid id)) [
    | inl is ↦ (is, (lift-returned (uuid_or_throw pg id) w w' e).0)
    | inr is_not ↦
        let failed = rw is_not at (lift-returned (uuid_or_throw pg id) w w' e).1 in
        absurd (cc failed)
  ]

  optional-returned :
      (id : Option String) (w w' : World K) {u : Unit {0}}
      → lift (optional_uuid pg id) w ≡ (w', returned u)
      → w' ≡ w
  optional-returned id w w' e = (lift-returned (optional_uuid pg id) w w' e).0

  found-signal : (found : Option Signal) → is_some found ≡ true → (s : Signal) × (found ≡ some s)
  found-signal none h = cc
  found-signal (some s) h = (s, refl)

  require-NamesStored :
      (id : String) (w w' : World K) {u : Unit {0}}
      → require_signal pg id w ≡ (w', returned u)
      → NamesStored w.db (some id) × (w'.db ≡ w.db)
  unfolding require_signal
  require-NamesStored id w w' e =
      let (w1, u1, h1, e1) = continue-eq-returned (lift (uuid_or_throw pg id) w) _ e in
      let (is, same1) = uuid-returned id w w1 h1 in
      let read : Db → Db × Option Signal = λ db. (db, select_signal id db) in
      let (w2, found, h2, e2) = continue-eq-returned (sql read w1) _ e1 in
      let (db2, value, kv2) = sql-returned read w1 w2 found h2 in
      let (there, same3) = ensure-returned (is_some found) _ w2 w' e2 in
      let (s, row) = found-signal found there in
      (
        (s, subst (λ (v : World K). select_signal id v.db ≡ some s) same1 (sym value ∙ row)),
        ap (λ v. v.db) same3 ∙ db2 ∙ ap (λ v. v.db) same1,
      )

  check-falsy :
      (signal_id : Option String) (w w' : World K) {u : Unit {0}}
      → truthy_text (or_else signal_id "") ≡ false
      → check_signal pg signal_id w ≡ (w', returned u)
      → w' ≡ w
  unfolding check_signal
  check-falsy signal_id w w' h e = let given = rw h at e in sym (ap (λ p. p.0) given)

  check-truthy :
      (id : String) (w w' : World K) {u : Unit {0}}
      → truthy_text id ≡ true
      → check_signal pg (some id) w ≡ (w', returned u)
      → NamesStored w.db (some id) × (w'.db ≡ w.db)
  unfolding check_signal
  check-truthy id w w' h e = require-NamesStored id w w' (rw h at e)

  -- With the check of the UUID that the INSERT makes, which an empty text fails.
  stored-NamesStored :
      (signal_id : Option String) (w w1 w2 : World K) {u v : Unit {0}}
      → check_signal pg signal_id w ≡ (w1, returned u)
      → lift (optional_uuid pg signal_id) w1 ≡ (w2, returned v)
      → NamesStored w.db signal_id × (w2.db ≡ w.db)
  stored-NamesStored none w w1 w2 e d = (
    tt,
    ap (λ v. v.db) (optional-returned none w1 w2 d) ∙ ap (λ v. v.db) (check-falsy none w w1 refl e),
  )
  stored-NamesStored (some id) w w1 w2 e d =
      let (is, same) = uuid-returned id w1 w2 d in
      let (names, db) = check-truthy id w w1 (uuid-truthy pg id is) e in
      (names, ap (λ v. v.db) same ∙ db)

  store-returned :
      (e : Evaluation) (w w' : World K) {response : Response}
      → store_evaluation pg e w ≡ (w', returned response)
      → (w1 : World K) × (lift (optional_uuid pg e.signal_id) w ≡ (w1, returned tt))
        × (w'.db.evaluations ≡ e ∷ w1.db.evaluations)
  unfolding store_evaluation insert_evaluation
  store-returned e w w' h =
      let (w1, u1, h1, e1) = continue-eq-returned (lift (optional_uuid pg e.signal_id) w) _ h in
      let insert : Db → Db × Unit {0} = λ db. (insert_evaluation e db, tt) in
      let (w2, u2, h2, e2) = continue-eq-returned (sql insert w1) _ e1 in
      let (db2, value, kv2) = sql-returned insert w1 w2 u2 h2 in
      (w1, h1, ap (λ p. p.0.db.evaluations) (sym e2) ∙ ap (λ d. d.evaluations) db2)

new_evaluation-IsValidEvaluation :
    (db : Db) (now : ℕ) (new_id : String) (principal : Principal) (body : Json) (key : String)
    → truthy_text key ≡ true
    → is_known_verdict (verdict_of body) ≡ true
    → confidence_in_range (confidence_of body) ≡ true
    → NamesStored db (signal_id_of body)
    → IsValidEvaluation db (new_evaluation now new_id principal body key)
unfolding new_evaluation is_known_verdict
new_evaluation-IsValidEvaluation db now new_id principal body key keyed known sure names =
    let bounds = confidence-bounds (confidence_of body) sure in
    record {
      instrument = keyed;
      verdict = and-true (truthy_text (verdict_of body)) _ known;
      at_most = bounds.0;
      at_least = bounds.1;
      signal = names;
    }

module _ (K : KvNamespace) (pg : Postgres) where
  -- A push that was answered with success added exactly one row to the evaluations, which is well
  -- formed: a verdict that is one of the four, a confidence between 0 and 1, and a signal that was
  -- stored at that time or none. The row carries the sender's key.
  pub push_evaluation-IsValidEvaluation :
      (now : ℕ) (new_id : String) (principal : Principal) (request : Exec Response Json)
      (w w' : World K) (response : Response)
      → push_evaluation pg now new_id principal request w ≡ (w', returned response)
      → (e : Evaluation) × (w'.db.evaluations ≡ e ∷ w.db.evaluations)
        × IsValidEvaluation w.db e
        × (e.api_key_id ≡ principal.api_key_id)
  unfolding push_evaluation new_evaluation
  push_evaluation-IsValidEvaluation now new_id principal request w w' response h =
      let body = body_or_empty request in
      let (w1, key_value, h1, e1) =
        continue-eq-returned (lift (read_prop body "instrument_key") w) _ h in
      let key = trimmed key_value in
      let (w2, u2, h2, e2) = continue-eq-returned (ensure (truthy_text key) _ w1) _ e1 in
      let (keyed, same2) = ensure-returned _ _ w1 w2 h2 in
      let (w3, u3, h3, e3) =
        continue-eq-returned (ensure (is_known_verdict (verdict_of body)) _ w2) _ e2 in
      let (known, same3) = ensure-returned _ _ w2 w3 h3 in
      let (w4, u4, h4, e4) =
        continue-eq-returned (ensure (confidence_in_range (confidence_of body)) _ w3) _ e3 in
      let (sure, same4) = ensure-returned _ _ w3 w4 h4 in
      let (w5, u5, h5, e5) = continue-eq-returned (check_signal pg (signal_id_of body) w4) _ e4 in
      let e = new_evaluation now new_id principal body key in
      let start : w4 ≡ w =
        same4 ∙ same3 ∙ same2 ∙ (lift-returned (read_prop body "instrument_key") w w1 h1).0 in
      let (w6, h6, rows) = store-returned K pg e w5 w' e5 in
      let (names, db) = stored-NamesStored K pg (signal_id_of body) w4 w5 w6 h5 h6 in
      (
        e,
        rows ∙ ap (λ d. e ∷ d.evaluations) (db ∙ ap (λ (v : World K). v.db) start),
        new_evaluation-IsValidEvaluation w.db now new_id principal body key keyed known sure
            (subst (λ (v : World K). NamesStored v.db (signal_id_of body)) start names),
        refl,
      )
