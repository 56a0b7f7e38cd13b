-- ===== src/World.antt =====
-- The state that a request works on: the database, the KV namespace, the isolate's JWKS cache, and
-- which of the coming service calls fail. A call that fails throws and changes nothing.
pub mod ReadOnly
use simtrader.Base.{
  Bool, true, false, List, [], ◌∷◌, Exec, returned, rejected, thrown, ◌≡◌, refl, sym, ap, ◌∙◌,
}
use simtrader.Http.{Handler, Response, continue}
use simtrader.Database.{Db}
use simtrader.Kv.{KvNamespace}
use simtrader.Jwt.Keys.{JwksCache}

pub record World (K : KvNamespace) : Type 0 where
  pub db : Db
  pub kv : K.Store
  pub jwks : JwksCache
  -- Whether the next call fails, and so on; none does past the end.
  pub outages : List Bool

abbrev pub next_fails : List Bool → Bool
next_fails [] = false
next_fails (b ∷ bs) = b

abbrev pub later_outages : List Bool → List Bool
later_outages [] = []
later_outages (b ∷ bs) = bs

module _ {K : KvNamespace} where
  -- A service call, unless it fails.
  abbrev pub unless_fails : {A : Type 0} → Bool → World K → World K × A → World K × Exec Response A
  unless_fails true failed (w, a) = (failed, thrown)
  unless_fails false failed (w, a) = (w, returned a)

  -- One SQL statement, or one transaction.
  abbrev pub sql : {A : Type 0} → (Db → Db × A) → Handler (World K) A
  sql run w =
      let left = record w { outages = later_outages w.outages } in
      let (db, a) = run w.db in
      unless_fails (next_fails w.outages) left (record left { db = db }, a)

  -- One function of session.ts, which is several calls of the namespace.
  abbrev pub kv : {A : Type 0} → (K.Store → K.Store × A) → Handler (World K) A
  kv run w =
      let left = record w { outages = later_outages w.outages } in
      let (store, a) = run w.kv in
      unless_fails (next_fails w.outages) left (record left { kv = store }, a)

  unless_fails-returned :
      {A : Type 0} (failing : Bool) (failed : World K) (done : World K × A) (w' : World K) (a : A)
      → unless_fails failing failed done ≡ (w', returned a)
      → (w' ≡ done.0) × (a ≡ done.1)
  unless_fails-returned true failed done w' a e = absurd (cc (ap (λ p. p.1) e))
  unless_fails-returned false failed (w, b) w' a e = (sym (ap (λ p. p.0) e), cc (ap (λ p. p.1) e))

  -- A statement that did not throw did what it says, to the database alone.
  pub sql-returned :
      {A : Type 0} (run : Db → Db × A) (w w' : World K) (a : A)
      → sql run w ≡ (w', returned a)
      → (w'.db ≡ (run w.db).0) × (a ≡ (run w.db).1) × (w'.kv ≡ w.kv)
  sql-returned run w w' a e =
      let (same, value) = unless_fails-returned (next_fails w.outages) _ _ w' a e in
      (ap (λ v. v.db) same, value, ap (λ v. v.kv) same)

  -- So did a call of the namespace.
  pub kv-returned :
      {A : Type 0} (run : K.Store → K.Store × A) (w w' : World K) (a : A)
      → kv run w ≡ (w', returned a)
      → (w'.kv ≡ (run w.kv).0) × (a ≡ (run w.kv).1) × (w'.db ≡ w.db)
  kv-returned run w w' a e =
      let (same, value) = unless_fails-returned (next_fails w.outages) _ _ w' a e in
      (ap (λ v. v.kv) same, value, ap (λ v. v.db) same)

  unless_fails-jwks :
      {A : Type 0} (failing : Bool) (failed w : World K) (done : World K × A)
      → failed.jwks ≡ w.jwks
      → done.0.jwks ≡ w.jwks
      → (unless_fails failing failed done).0.jwks ≡ w.jwks
  unless_fails-jwks true failed w done h1 h2 = h1
  unless_fails-jwks false failed w (v, a) h1 h2 = h2

  -- Neither touches the cache of keys, whether it fails or not.
  pub sql-jwks : {A : Type 0} (run : Db → Db × A) (w : World K) → (sql run w).0.jwks ≡ w.jwks
  sql-jwks run w = unless_fails-jwks (next_fails w.outages) _ w _ refl refl

  pub kv-jwks :
      {A : Type 0} (run : K.Store → K.Store × A) (w : World K) → (kv run w).0.jwks ≡ w.jwks
  kv-jwks run w = unless_fails-jwks (next_fails w.outages) _ w _ refl refl

  pub continue-jwks :
      {A B : Type 0} (m : World K × Exec Response A) (k : A → Handler (World K) B) (w : World K)
      → m.0.jwks ≡ w.jwks
      → ((a : A) (v : World K) → (k a v).0.jwks ≡ v.jwks)
      → (continue m k).0.jwks ≡ w.jwks
  continue-jwks (v, returned a) k w first rest = rest a v ∙ first
  continue-jwks (v, rejected e) k w first rest = first
  continue-jwks (v, thrown) k w first rest = first
