-- ===== src/World/ReadOnly.antt =====
-- Computations that leave the database and the KV namespace as they are, however they end.
use simtrader.Base.{Bool, true, false, Exec, returned, rejected, thrown, ◌≡◌, refl, ◌∙◌}
use simtrader.Http.{Handler, Response, ◌>>=◌, continue, ensure, give, answer, lift}
use simtrader.Kv.{KvNamespace}
use simtrader.World.{World, sql, kv, unless_fails, next_fails}
use simtrader.Database.{Db}

module _ {K : KvNamespace} where
  -- What is stored.
  abbrev pub stored : World K → Db × K.Store
  stored w = (w.db, w.kv)

  pub record IsReading {A : Type 0} (m : Handler (World K) A) : Type 0 where
    pub keeps : (w : World K) → stored (m w).0 ≡ stored w

  continue-stored :
      {A B : Type 0} (w : World K) (p : World K × Exec Response A) (k : A → Handler (World K) B)
      → stored p.0 ≡ stored w
      → ((a : A) → IsReading (k a))
      → stored (continue p k).0 ≡ stored w
  continue-stored w (v, returned a) k first rest = (rest a).keeps v ∙ first
  continue-stored w (v, rejected e) k first rest = first
  continue-stored w (v, thrown) k first rest = first

  pub then-IsReading :
      {A B : Type 0} (m : Handler (World K) A) (k : A → Handler (World K) B)
      → IsReading m
      → ((a : A) → IsReading (k a))
      → IsReading (m >>= k)
  then-IsReading m k first rest = record {
    keeps = λ w. continue-stored w (m w) k (first.keeps w) rest;
  }

  unless_fails-stored :
      {A : Type 0} (fails : Bool) (w failed : World K) (done : World K × A)
      → stored failed ≡ stored w
      → stored done.0 ≡ stored w
      → stored (unless_fails fails failed done).0 ≡ stored w
  unless_fails-stored true w failed (v, a) h1 h2 = h1
  unless_fails-stored false w failed (v, a) h1 h2 = h2

  -- A query.
  pub query-IsReading : {A : Type 0} (read : Db → A) → IsReading (sql (λ db. (db, read db)))
  query-IsReading read = record {
    keeps = λ w. unless_fails-stored (next_fails w.outages) w _ _ refl refl;
  }

  pub get-IsReading : {A : Type 0} (read : K.Store → A) → IsReading (kv (λ s. (s, read s)))
  get-IsReading read = record {
    keeps = λ w. unless_fails-stored (next_fails w.outages) w _ _ refl refl;
  }

  pub ensure-IsReading : (b : Bool) (e : Response) → IsReading (ensure b e)
  ensure-IsReading true e = record { keeps = λ w. refl }
  ensure-IsReading false e = record { keeps = λ w. refl }

  pub lift-IsReading : {A : Type 0} (m : Exec Response A) → IsReading (lift m)
  lift-IsReading m = record { keeps = λ w. refl }

  pub give-IsReading : {A : Type 0} (a : A) → IsReading (give a)
  give-IsReading a = record { keeps = λ w. refl }

  pub answer-IsReading : {A : Type 0} (e : Response) → IsReading {A = A} (answer e)
  answer-IsReading e = record { keeps = λ w. refl }
