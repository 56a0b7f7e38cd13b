-- ===== src/Research/Evaluations/Listing.antt =====
-- What a list of evaluations holds.
use simtrader.Base.{
  ℕ, ℤ, min, String, Bool, true, ◌==◌, ◌↔◌, eq_iff, and_left, and_right, and_both, some-injective,
  refl, Option, none, some, List, map, or_else, parse_decimal, returned, returned-injective, ◌≡◌,
  subst, sym, ap, ◌∙◌,
}
use simtrader.Json.{arr, of_list}
use simtrader.Http.{Response, lift, json_response, continue-eq-returned, lift-returned}
use simtrader.Kv.{KvNamespace}
use simtrader.World.{World, sql, sql-returned}
use simtrader.Database.{Evaluation, Db}
use simtrader.Database.Queries.{Postgres, matches, limit_or_throw, list_limit}
use simtrader.Database.Queries.Newest.{IsNewest, take-IsNewest}
use simtrader.Research.Evaluations.{
  EvaluationQuery, meets, created, optional_uuid, select_evaluations, evaluation_json,
  list_evaluations,
}

-- The limit that the query asks for, 50 where it asks for none, and 200 at most.
abbrev pub IsLimit : Option String → ℕ → Type 0
IsLimit limit n = (m : ℕ) × (parse_decimal (or_else limit "50") ≡ some (ℤ.pos m)) × (n ≡ min m 200)

limit_or_throw-returned :
    (limit : Option ℤ) (n : ℕ)
    → limit_or_throw limit ≡ returned n
    → (m : ℕ) × (limit ≡ some (ℤ.pos m)) × (n ≡ min m 200)
limit_or_throw-returned none n e = cc
limit_or_throw-returned (some (ℤ.pos m)) n e = (m, refl, cc)
limit_or_throw-returned (some (ℤ.negsuc m)) n e = cc

list_limit-IsLimit :
    (limit : Option String) (n : ℕ) → list_limit limit ≡ returned n → IsLimit limit n
unfolding list_limit
list_limit-IsLimit limit n e = limit_or_throw-returned (parse_decimal (or_else limit "50")) n e

-- The filters that the query has.
pub record IsAsked (pg : Postgres) (q : EvaluationQuery) (e : Evaluation) : Type 0 where
  pub of_instrument : (key : String) → q.instrument_key ≡ some key → e.instrument_key ≡ key
  pub of_verdict : (verdict : String) → q.verdict ≡ some verdict → e.verdict ≡ verdict
  pub earlier : (id : String) → q.before ≡ some id → pg.uuid_before e.id id ≡ true

matches_iff :
    (filter : Option String) (test : String → Bool)
    → (matches filter test ≡ true) ↔ ((value : String) → filter ≡ some value → test value ≡ true)
matches_iff none test = ((λ h value e. cc), λ h. refl)
matches_iff (some v) test =
    ((λ h value e. subst (λ u. test u ≡ true) (some-injective e) h), λ h. h v refl)

meets_iff :
    (pg : Postgres) (q : EvaluationQuery) (e : Evaluation) → (meets pg q e ≡ true) ↔ IsAsked pg q e
meets_iff pg q e =
    let (key, key') = matches_iff q.instrument_key (λ key. e.instrument_key == key) in
    let (verdict, verdict') = matches_iff q.verdict (λ verdict. e.verdict == verdict) in
    let (before, before') = matches_iff q.before (λ id. pg.uuid_before e.id id) in
    (
      (λ h. record {
        of_instrument =
            λ k same. (eq_iff e.instrument_key k).0 (key (and_left _ _ (and_left _ _ h)) k same);
        of_verdict =
            λ v same. (eq_iff e.verdict v).0 (verdict (and_right _ _ (and_left _ _ h)) v same);
        earlier = before (and_right _ _ h);
      }),
      (λ h.
          and_both
            (and_both (key' (λ k same. (eq_iff e.instrument_key k).1 (h.of_instrument k same)))
              (verdict' (λ v same. (eq_iff e.verdict v).1 (h.of_verdict v same))))
            (before' h.earlier)),
    )

-- A list that is answered holds the newest of the evaluations that have the instrument and the
-- verdict asked for and come before the id asked for, the newest first. They are as many as the
-- limit asked for, 50 where none is and 200 at most; one is left out only when there are that many,
-- all at least as new. The database stays as it was.
pub list_evaluations-IsNewest :
    (K : KvNamespace) (pg : Postgres) (q : EvaluationQuery) (w w' : World K) (response : Response)
    → list_evaluations pg q w ≡ (w', returned response)
    → (n : ℕ) × IsLimit q.limit n
      × ((rows : List Evaluation) × (response
            ≡ json_response 200 (arr (of_list (map (evaluation_json pg) rows))))
          × IsNewest (λ e. e.created_at) (IsAsked pg q) n w.db.evaluations rows
          × (w'.db ≡ w.db))
unfolding list_evaluations
list_evaluations-IsNewest K pg q w w' response h =
    let (w1, limit, h1, e1) = continue-eq-returned (lift (list_limit q.limit) w) _ h in
    let (same1, read) = lift-returned (list_limit q.limit) w w1 h1 in
    let (w2, u2, h2, e2) = continue-eq-returned (lift (optional_uuid pg q.before) w1) _ e1 in
    let (same2, valid) = lift-returned (optional_uuid pg q.before) w1 w2 h2 in
    let select : Db → Db × List Evaluation = λ db. (db, select_evaluations pg q limit db) in
    let (w3, rows, h3, e3) = continue-eq-returned (sql select w2) _ e2 in
    let (db, value, kv) = sql-returned select w2 w3 rows h3 in
    let start : w2.db ≡ w.db = ap (λ (v : World K). v.db) (same2 ∙ same1) in
    let picked : rows ≡ select_evaluations pg q limit w.db =
      value ∙ ap (λ d. select_evaluations pg q limit d) start in
    (
      limit,
      list_limit-IsLimit q.limit limit read,
      (
        rows,
        sym (returned-injective (ap (λ p. p.1) e3)),
        subst (λ rs. IsNewest created (IsAsked pg q) limit w.db.evaluations rs) (sym picked)
            (unfold select_evaluations in
              take-IsNewest created (IsAsked pg q) (meets pg q) limit w.db.evaluations
                (meets_iff pg q)),
        ap (λ (v : World K). v.db) (sym (ap (λ p. p.0) e3)) ∙ db ∙ start,
      ),
    )
