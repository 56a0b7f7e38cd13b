-- ===== src/SignIn/Accounts/Standing.antt =====
-- The account that a sign-in finds, in the database as it was before the sign-in.
use simtrader.Base.{
  ℕ, String, Option-cases, Option, none, some, returned, ◌≡◌, ◌⊎◌, inl, inr, sym, ap, ◌∙◌, subst,
}
use simtrader.Http.{continue-eq-returned}
use simtrader.Kv.{KvNamespace}
use simtrader.World.{World}
use simtrader.Database.{User, Db}
use simtrader.Database.Accounts.{select_user}
use simtrader.Jwt.{IdTokenClaims}
use simtrader.Events.Route.{find_user_id}
use simtrader.SignIn.Accounts.{Account, account_of, find_or_provision}
use simtrader.SignIn.Accounts.Linking.{
  linked_user, find_user_id-returned, refresh-returned, provision-returned,
}

-- The id, the role and the status that the member's linked user has in the database, or those of a
-- new user where no user is linked.
abbrev pub IsAccountOf : String → String → String → Db → Account → Type 0
IsAccountOf new_id iss sub db a =
    ((user : User) × (linked_user iss sub db ≡ some a.user_id)
      × (select_user a.user_id db ≡ some user)
      × (a.role ≡ user.role)
      × (a.status ≡ user.status))
    ⊎ ((linked_user iss sub db ≡ none)
        × (a.user_id ≡ new_id)
        × (a.role ≡ "user")
        × (a.status ≡ "active"))

module _ (K : KvNamespace) (now : ℕ) (new_id : String) (claims : IdTokenClaims) where
  account_of-IsAccountOf :
      (sub : String) (w w' : World K) (found : Option String) (a : Account)
      → found ≡ linked_user claims.iss sub w.db
      → account_of now new_id claims found w ≡ (w', returned a)
      → IsAccountOf new_id claims.iss sub w.db a
  account_of-IsAccountOf sub w w' none a known e =
      let (account, rows) = provision-returned K now new_id claims w w' e in
      inr (
        sym known,
        ap (λ v. v.user_id) account,
        ap (λ v. v.role) account,
        ap (λ v. v.status) account,
      )
  account_of-IsAccountOf sub w w' (some user_id) a known e =
      let (same, db, row) = refresh-returned K now new_id claims user_id w w' e in
      let (user, stored, role, status) = row in
      inl (
        user,
        sym known ∙ ap some (sym same),
        ap (λ id. select_user id w.db) same ∙ stored,
        role,
        status,
      )

  pub find_or_provision-IsAccountOf :
      (w w' : World K) (a : Account)
      → find_or_provision now new_id claims w ≡ (w', returned a)
      → (sub : String) × (claims.sub ≡ some sub) × IsAccountOf new_id claims.iss sub w.db a
  unfolding find_or_provision find_user_id
  find_or_provision-IsAccountOf w w' a e = elim (Option-cases claims.sub) [
    | inl unnamed ↦ absurd (let e1 = rw unnamed at e in cc (ap (λ p. p.1) e1))
    | inr (sub, named) ↦
        let (mid, found, asked, e1) =
          continue-eq-returned (find_user_id claims.iss claims.sub w) _ e in
        let (same, known) = find_user_id-returned K now new_id claims sub w mid named asked in
        let known' : found ≡ linked_user claims.iss sub mid.db =
          known ∙ ap (λ d. linked_user claims.iss sub d) (sym same) in
        (
          sub,
          named,
          subst (λ d. IsAccountOf new_id claims.iss sub d a) same
              (account_of-IsAccountOf sub mid w' found a known' e1),
        )
  ]
