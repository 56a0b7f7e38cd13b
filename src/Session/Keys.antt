-- ===== src/Session/Keys.antt =====
-- The key names of sessions never meet, and token lists are read back as they were written.
use Prim.Native.Char.{code}
use Prim.Native.String
use text.Mathlib.TextLemmas.{append_cancel_left, cons-append, head-eq_of_cons-eq}
use simtrader.Base.{
  ℕ, String, sym, ◌==◌, eq_iff, false, none, some, List, [], ◌∷◌, ◌≡◌, refl, ap, ◌≢◌, arith, ◌∙◌,
  Bool, not, ◌||◌, ◌++◌, any, filter,
}
use simtrader.Json.{arr, to_list, of_strings, strings_of}
use simtrader.Session.{session_key, user_sessions_key, tokens_of}

pub session_key-injective : (t u : String) → session_key t ≡ session_key u → t ≡ u
unfolding session_key
session_key-injective t u e = append_cancel_left "session:" t u e

pub user_sessions_key-injective : (t u : String) → user_sessions_key t ≡ user_sessions_key u → t ≡ u
unfolding user_sessions_key
user_sessions_key-injective t u e = append_cancel_left "user_sessions:" t u e

pub session_key-ne-user_sessions_key : (t u : String) → session_key t ≢ user_sessions_key u
unfolding session_key user_sessions_key
session_key-ne-user_sessions_key t u e =
    let heads : String.◌∷◌ "s" (String.◌++◌ "ession:" t)
        ≡ String.◌∷◌ "u" (String.◌++◌ "ser_sessions:" u) =
      sym (cons-append "s" "ession:" t) ∙ e ∙ cons-append "u" "ser_sessions:" u in
    let codes : ◌≡◌ {A = ℕ} b's' b'u' = ap code (head-eq_of_cons-eq heads) in absurd (omega arith)

-- The same facts for the test that the store makes.
pub eq_session_key : (t u : String) → (session_key t == session_key u) ≡ (t == u)
eq_session_key t u =
    ground (arith, eq_iff t u, eq_iff (session_key t) (session_key u), session_key-injective t u)

pub eq_user_sessions_key : (t u : String) → (user_sessions_key t == user_sessions_key u) ≡ (t == u)
eq_user_sessions_key t u = ground (
  arith,
  eq_iff t u,
  eq_iff (user_sessions_key t) (user_sessions_key u),
  user_sessions_key-injective t u,
)

pub ne_session_key : (t u : String) → (session_key t == user_sessions_key u) ≡ false
ne_session_key t u =
    ground
      (arith, eq_iff (session_key t) (user_sessions_key u), session_key-ne-user_sessions_key t u)

pub ne_user_sessions_key : (t u : String) → (user_sessions_key u == session_key t) ≡ false
ne_user_sessions_key t u =
    ground
      (arith, eq_iff (user_sessions_key u) (session_key t), session_key-ne-user_sessions_key t u)

pub strings_of-of_strings : (ts : List String) → strings_of (to_list (of_strings ts)) ≡ ts
unfolding strings_of of_strings
strings_of-of_strings [] = refl
strings_of-of_strings (t ∷ ts) = ap (λ us. t ∷ us) (strings_of-of_strings ts)

pub tokens_of-of_strings : (ts : List String) → tokens_of (some (arr (of_strings ts))) ≡ ts
unfolding tokens_of
tokens_of-of_strings ts = strings_of-of_strings ts

-- Whether a list of tokens holds one.
abbrev pub contains : List String → String → Bool
contains ts t = any (λ x. x == t) ts

pub contains-append :
    (ts us : List String) (t : String) → contains (ts ++ us) t ≡ (contains ts t || contains us t)
contains-append [] us t = refl
contains-append (x ∷ ts) us t = ground (arith, contains-append ts us t)

-- Taking one token out of a list keeps the others.
pub contains-filter_ne :
    (ts : List String) (gone t : String)
    → gone ≢ t
    → contains (filter (λ x. not (x == gone)) ts) t ≡ contains ts t
contains-filter_ne [] gone t differ = refl
contains-filter_ne (x ∷ ts) gone t differ =
    ground (arith, eq_iff x gone, eq_iff x t, contains-filter_ne ts gone t differ)

pub tokens_of-none : tokens_of none ≡ []
unfolding tokens_of strings_of
tokens_of-none = refl

pub eq-false : (a b : String) → a ≢ b → (a == b) ≡ false
eq-false a b differ = ground (arith, eq_iff a b)
