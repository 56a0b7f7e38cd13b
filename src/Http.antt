-- ===== src/Http.antt =====
-- What a request handler does: it works on a state, and ends with a value, with an early answer to
-- the client, or with an exception. What it did to the state before stays done.
use simtrader.Base.{
  ℕ, String, Bool, true, false, Exec, returned, rejected, thrown, ◌≡◌, refl, sym, ap, if◌then◌else◌,
}
use simtrader.Json.{Json, str, obj, field, end}
use simtrader.Pages.{Page}

pub data Body : Type 0 where
  json : Json → Body
  plain : String → Body
  html : String → Body
  redirect : String → Body
  page : Page → Body
  -- A file: its name and its text.
  csv : String → String → Body

-- `__session` set to a token, or deleted.
pub data Cookie : Type 0 where
  unchanged deleted : Cookie
  issued : String → Cookie

pub record Response : Type 0 where
  pub status : ℕ
  pub body : Body
  pub cookie : Cookie

-- `c.json(body, status)`
abbrev pub json_response : ℕ → Json → Response
json_response status body = record { status = status; body = json body; cookie = unchanged }

-- `c.json({ error: message }, status)`
abbrev pub json_error : ℕ → String → Response
json_error status message = json_response status (obj (field "error" (str message) end))

abbrev pub plain_response : ℕ → String → Response
plain_response status message = record { status = status; body = plain message; cookie = unchanged }

abbrev pub redirect_response : String → Response
redirect_response url = record { status = 302; body = redirect url; cookie = unchanged }

-- `c.html(page)`
abbrev pub page_response : Page → Response
page_response p = record { status = 200; body = page p; cookie = unchanged }

abbrev pub Handler : Type 0 → Type 0 → Type 0
Handler S A = S → S × Exec Response A

module _ {S : Type 0} where
  abbrev pub continue :
      {A B : Type 0} → S × Exec Response A → (A → Handler S B) → S × Exec Response B
  continue (s, returned a) f = f a s
  continue (s, rejected e) f = (s, rejected e)
  continue (s, thrown) f = (s, thrown)

  infixl 5 ◌>>=◌ ◌>>◌
  abbrev pub ◌>>=◌ : {A B : Type 0} → Handler S A → (A → Handler S B) → Handler S B
  ◌>>=◌ m f s = continue (m s) f

  abbrev pub ◌>>◌ : {A B : Type 0} → Handler S A → Handler S B → Handler S B
  m >> k = m >>= λ _. k

  abbrev pub give : {A : Type 0} → A → Handler S A
  give a s = (s, returned a)

  -- `return` of an answer from the middle of a handler.
  abbrev pub answer : {A : Type 0} → Response → Handler S A
  answer e s = (s, rejected e)

  -- `if (!test) return e`
  abbrev pub ensure : Bool → Response → Handler S (Unit {0})
  ensure true e s = (s, returned tt)
  ensure false e s = (s, rejected e)

  -- A computation without effects.
  abbrev pub lift : {A : Type 0} → Exec Response A → Handler S A
  lift r s = (s, r)

-- Inversion of a handler's step that went on.
pub continue-eq-returned :
    {S A B : Type 0} (m : S × Exec Response A) (f : A → Handler S B) {s' : S} {b : B}
    → continue m f ≡ (s', returned b)
    → (s : S) × (a : A) × (m ≡ (s, returned a)) × (f a s ≡ (s', returned b))
continue-eq-returned (s, returned a) f e = (s, a, refl, e)
continue-eq-returned (s, rejected r) f e = absurd (cc (ap (λ p. p.1) e))
continue-eq-returned (s, thrown) f e = absurd (cc (ap (λ p. p.1) e))

pub ensure-returned :
    {S : Type 0} (b : Bool) (e : Response) (s s' : S) {u : Unit {0}}
    → ensure b e s ≡ (s', returned u)
    → (b ≡ true) × (s' ≡ s)
ensure-returned true e s s' h = (refl, sym (ap (λ p. p.0) h))
ensure-returned false e s s' h = absurd (cc (ap (λ p. p.1) h))

pub lift-returned :
    {S A : Type 0} (m : _) (s s' : S) {a : A}
    → lift m s ≡ (s', returned a)
    → (s' ≡ s) × (m ≡ returned a)
lift-returned m s s' e = (sym (ap (λ p. p.0) e), ap (λ p. p.1) e)

abbrev pub error_html : String
error_html =
    "<!DOCTYPE html><html><body style=\"font-family:sans-serif;padding:2rem\">\n    <h2>Something went wrong</h2>\n    <p>Please try again. If this keeps happening, contact support.</p>\n    <a href=\"/\">← Home</a>\n  </body></html>"

-- `app.onError`: the answer to an exception, by the request's path.
unfoldable pub on_error : Bool → Response
on_error is_admin =
    if is_admin
    then plain_response 500 "Internal server error"
    else record { status = 500; body = html error_html; cookie = unchanged }

-- The answer to the client, and the state that the request leaves.
unfoldable pub respond : {S : Type 0} → Bool → S × Exec Response Response → S × Response
unfolding on_error
respond is_admin (s, returned r) = (s, r)
respond is_admin (s, rejected r) = (s, r)
respond is_admin (s, thrown) = (s, on_error is_admin)
