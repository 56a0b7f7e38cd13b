-- ===== src/SignIn/Callback/Spent.antt =====
-- What keeps a consumed flow away: no other entry of the namespace has its key.
use Prim.Native.Char.{Char, code}
use Prim.Native.String
use Prim.Native.String.{◌∷◌}
use text.Mathlib.TextLemmas.{cons-append, head-eq_of_cons-eq, tail-eq_of_cons-eq}
use simtrader.Base.{
  ℕ, String, ◌==◌, eq_iff, eq_refl, true, false, Bool, Option, none, returned, rejected, thrown,
  Exec, ◌≡◌, refl, sym, ap, ◌∙◌, ◌≢◌, arith,
}
use simtrader.Http.{Handler, Response, ◌>>=◌, continue, ensure, lift, give}
use simtrader.Kv.{KvNamespace}
use simtrader.World.{World, kv, sql, unless_fails, next_fails}
use simtrader.Database.{Db}
use simtrader.Json.{Json}
use simtrader.Session.{SessionData, session_key, user_sessions_key, write_entry, write_list}
use simtrader.SignIn.{flow_key}
use simtrader.SignIn.Callback.{jti_key}

four_cons :
    (a b c d : Char) (rest s : String)
    → String.◌++◌ (a ∷ (b ∷ (c ∷ (d ∷ rest)))) s ≡ a ∷ (b ∷ (c ∷ (d ∷ String.◌++◌ rest s)))
four_cons a b c d rest s =
    cons-append a (b ∷ (c ∷ (d ∷ rest))) s
    ∙ ap (λ t. a ∷ t)
        (cons-append b (c ∷ (d ∷ rest)) s
          ∙ ap (λ t. b ∷ t) (cons-append c (d ∷ rest) s ∙ ap (λ t. c ∷ t) (cons-append d rest s)))

pub jti_key-ne-flow_key : (issuer jti state : String) → jti_key issuer jti ≢ flow_key state
unfolding jti_key flow_key
jti_key-ne-flow_key issuer jti state e =
    let rest = String.◌++◌ issuer (String.◌++◌ ":" jti) in
    let cut : String.◌++◌ "jti:" rest ≡ String.◌++◌ "flow:" state = tail-eq_of_cons-eq (
      tail-eq_of_cons-eq (
        tail-eq_of_cons-eq (
          tail-eq_of_cons-eq (
            sym (four_cons "s" "s" "o" ":" "jti:" rest)
            ∙ e
            ∙ four_cons "s" "s" "o" ":" "flow:" state)))) in
    let heads : "j" ∷ String.◌++◌ "ti:" rest ≡ "f" ∷ String.◌++◌ "low:" state =
      sym (cons-append "j" "ti:" rest) ∙ cut ∙ cons-append "f" "low:" state in
    let codes : ◌≡◌ {A = ℕ} b'j' b'f' = ap code (head-eq_of_cons-eq heads) in absurd (omega arith)

session_key-ne-flow_key : (token state : String) → session_key token ≢ flow_key state
unfolding session_key flow_key
session_key-ne-flow_key token state e =
    let cut = tail-eq_of_cons-eq (
      sym (four_cons "s" "e" "s" "s" "ion:" token) ∙ e ∙ four_cons "s" "s" "o" ":" "flow:" state) in
    let codes : ◌≡◌ {A = ℕ} b'e' b's' = ap code (head-eq_of_cons-eq cut) in absurd (omega arith)

user_sessions_key-ne-flow_key :
    (user_id state : String) → user_sessions_key user_id ≢ flow_key state
unfolding user_sessions_key flow_key
user_sessions_key-ne-flow_key user_id state e =
    let heads =
      sym (four_cons "u" "s" "e" "r" "_sessions:" user_id)
      ∙ e
      ∙ four_cons "s" "s" "o" ":" "flow:" state in
    let codes : ◌≡◌ {A = ℕ} b'u' b's' = ap code (head-eq_of_cons-eq heads) in absurd (omega arith)

test_of_ne : (a b : String) → a ≢ b → (a == b) ≡ false
test_of_ne a b differ = ground (arith, eq_iff a b, differ)

module _ (K : KvNamespace) (state : String) where
  -- No flow is stored under the state, now or later.
  abbrev pub IsSpent : K.Store → Type 0
  IsSpent s = (later : ℕ) → K.get s later (flow_key state) ≡ none

  pub put-IsSpent :
      (key : String) (v : Json) (ttl : Option ℕ) (now : ℕ) (s : K.Store)
      → key ≢ flow_key state
      → IsSpent s
      → IsSpent (K.put key v ttl now s)
  put-IsSpent key v ttl now s differ spent later =
      K.get-put s key (flow_key state) v ttl now later
      ∙ rw (test_of_ne key (flow_key state) differ) (spent later)

  pub delete-IsSpent : (s : K.Store) → IsSpent (K.delete (flow_key state) s)
  delete-IsSpent s later =
      K.get-delete s (flow_key state) (flow_key state) later ∙ rw (eq_refl (flow_key state)) refl

  pub write_entry-IsSpent :
      (s : K.Store) (now : ℕ) (token : String) (session : SessionData)
      → IsSpent s
      → IsSpent (write_entry K s now token session)
  write_entry-IsSpent s now token session spent =
      put-IsSpent _ _ _ now s (session_key-ne-flow_key token state) spent

  pub write_list-IsSpent :
      (s : K.Store) (now : ℕ) (token : String) (session : SessionData)
      → IsSpent s
      → IsSpent (write_list K s now token session)
  write_list-IsSpent s now token session spent =
      put-IsSpent _ _ _ now s (user_sessions_key-ne-flow_key session.user_id state) spent

  -- A computation that brings no flow back, however it ends.
  pub record Keeps {A : Type 0} (m : Handler (World K) A) : Type 0 where
    pub keeps : (w : World K) → IsSpent w.kv → IsSpent (m w).0.kv

  continue-Keeps :
      {A B : Type 0} (p : World K × Exec Response A) (k : A → Handler (World K) B)
      → IsSpent p.0.kv
      → ((a : A) → Keeps (k a))
      → IsSpent (continue p k).0.kv
  continue-Keeps (v, returned a) k first rest = (rest a).keeps v first
  continue-Keeps (v, rejected e) k first rest = first
  continue-Keeps (v, thrown) k first rest = first

  pub then-Keeps :
      {A B : Type 0} (m : Handler (World K) A) (k : A → Handler (World K) B)
      → Keeps m
      → ((a : A) → Keeps (k a))
      → Keeps (m >>= k)
  then-Keeps m k first rest = record {
    keeps = λ w spent. continue-Keeps (m w) k (first.keeps w spent) rest;
  }

  unless_fails-Keeps :
      {A : Type 0} (fails : Bool) (failed : World K) (done : World K × A)
      → IsSpent failed.kv
      → IsSpent done.0.kv
      → IsSpent (unless_fails fails failed done).0.kv
  unless_fails-Keeps true failed (v, a) h1 h2 = h1
  unless_fails-Keeps false failed (v, a) h1 h2 = h2

  pub sql-Keeps : {A : Type 0} (statement : Db → Db × A) → Keeps (sql statement)
  sql-Keeps statement = record {
    keeps = λ w spent. unless_fails-Keeps (next_fails w.outages) _ _ spent spent;
  }

  pub kv-Keeps :
      {A : Type 0} (call : K.Store → K.Store × A)
      → ((s : K.Store) → IsSpent s → IsSpent (call s).0)
      → Keeps (kv call)
  kv-Keeps call h = record {
    keeps = λ w spent. unless_fails-Keeps (next_fails w.outages) _ _ spent (h w.kv spent);
  }

  pub ensure-Keeps : (b : Bool) (e : Response) → Keeps (ensure b e)
  ensure-Keeps true e = record { keeps = λ w spent. spent }
  ensure-Keeps false e = record { keeps = λ w spent. spent }

  pub lift-Keeps : {A : Type 0} (m : Exec Response A) → Keeps (lift m)
  lift-Keeps m = record { keeps = λ w spent. spent }

  pub give-Keeps : {A : Type 0} (a : A) → Keeps (give a)
  give-Keeps a = record { keeps = λ w spent. spent }
