-- ===== src/SignIn/Accounts/Linking.antt =====
-- A member, named by issuer and subject, always reaches the same user.
use simtrader.Base.{
  ℕ, String, ◌==◌, eq_refl, ◌&&◌, Bool-cases, inl, inr, Option, none, some, List, [], ◌∷◌, find,
  or_else, returned, ◌≡◌, refl, sym, ap, ◌∙◌, if◌then◌else◌,
}
use mathlib.Core.Option
use simtrader.Http.{continue-eq-returned}
use simtrader.Kv.{KvNamespace}
use simtrader.World.{World, sql, sql-returned}
use simtrader.Database.{User, Identity, Db, update_where}
use simtrader.Database.Accounts.{
  select_user, select_identity, is_identity, update_user, insert_audit,
}
use simtrader.Audit.{AuditParams, write_audit, audit_row}
use simtrader.Jwt.{IdTokenClaims}
use simtrader.Events.Route.{find_user_id}
use simtrader.SignIn.Accounts.{
  provider_detail, Account, seen_now, sub_text, update_identity, insert_user, insert_identity,
  logged_in, change_db, row_or_missing, refresh_account, provision_account, account_of,
  find_or_provision,
}

-- The user that a member is linked to.
abbrev pub linked_user : String → String → Db → Option String
linked_user iss sub db = Option.map (λ (e : Identity). e.user_id) (select_identity iss sub db)

abbrev find_identity : String → String → List Identity → Option String
find_identity iss sub rows =
    Option.map (λ (e : Identity). e.user_id) (find (is_identity iss sub) rows)

find-seen_now :
    (now : ℕ) (claims : IdTokenClaims) (iss sub : String) (rows : List Identity)
    → find_identity iss sub
        (update_where (is_identity claims.iss (sub_text claims)) (seen_now now claims) rows)
      ≡ find_identity iss sub rows
find-seen_now now claims iss sub [] = refl
find-seen_now now claims iss sub (e ∷ rows) =
    let rest = find-seen_now now claims iss sub rows in
    elim (Bool-cases (is_identity claims.iss (sub_text claims) e)) [
      | inl hit ↦ elim (Bool-cases (is_identity iss sub e)) [
        | inl mine ↦ rw (hit, mine) refl
        | inr other ↦ rw (hit, other) rest
      ]
      | inr miss ↦ elim (Bool-cases (is_identity iss sub e)) [
        | inl mine ↦ rw (miss, mine) refl
        | inr other ↦ rw (miss, other) rest
      ]
    ]

linked_user-update_identity :
    (now : ℕ) (claims : IdTokenClaims) (iss sub : String) (db : Db)
    → linked_user iss sub (update_identity now claims db) ≡ linked_user iss sub db
unfolding update_identity select_identity
linked_user-update_identity now claims iss sub db = find-seen_now now claims iss sub db.identities

linked_user-insert_identity :
    (now : ℕ) (new_id : String) (claims : IdTokenClaims) (iss sub : String) (db : Db)
    → linked_user iss sub (insert_identity now new_id claims db) ≡ (
        if claims.iss == iss && sub_text claims == sub then some new_id else linked_user iss sub db)
unfolding insert_identity select_identity
linked_user-insert_identity now new_id claims iss sub db =
    elim (Bool-cases (claims.iss == iss && sub_text claims == sub)) [
      | inl mine ↦ rw mine refl
      | inr other ↦ rw other refl
    ]

module _ (K : KvNamespace) (now : ℕ) (new_id : String) (claims : IdTokenClaims) where
  change_db-returned :
      (change : Db → Db) (w w' : World K) {u : Unit {0}}
      → change_db now new_id claims change w ≡ (w', returned u)
      → w'.db ≡ change w.db
  unfolding change_db
  change_db-returned change w w' {u} e = (sql-returned (λ db. (change db, tt)) w w' u e).0

  pub find_user_id-returned :
      (sub : String) (w w' : World K) {found : Option String}
      → claims.sub ≡ some sub
      → find_user_id claims.iss claims.sub w ≡ (w', returned found)
      → (w'.db ≡ w.db) × (found ≡ linked_user claims.iss sub w.db)
  unfolding find_user_id
  find_user_id-returned sub w w' {found} named e =
      let (db, value, kv) =
        sql-returned (λ db. (db, linked_user claims.iss sub db)) w w' found (rw named at e) in
      (db, value)

  row-returned :
      (row : Option User) (w w' : World K) {user : User}
      → row_or_missing now new_id claims row w ≡ (w', returned user)
      → (row ≡ some user) × (w' ≡ w)
  row-returned none w w' e = absurd (cc (ap (λ p. p.1) e))
  row-returned (some u) w w' e = (cc (ap (λ p. p.1) e), sym (ap (λ p. p.0) e))

  abbrev provisioned : AuditParams
  provisioned = record {
    actor_id = some new_id;
    target_user_id = none;
    action = "user.provisioned";
    detail = some provider_detail;
    ip_address = none;
  }

  audit-identities :
      (row : AuditParams) (w w' : World K) {u : Unit {0}}
      → write_audit now row w ≡ (w', returned u)
      → w'.db.identities ≡ w.db.identities
  unfolding write_audit insert_audit
  audit-identities row w w' {u} e =
      ap (λ d. d.identities)
        (sql-returned (λ db. (insert_audit (audit_row now row) db, tt)) w w' u e).0

  inserted_alike :
      (db db' : Db)
      → db.identities ≡ (insert_user now new_id claims db').identities
      → (insert_identity now new_id claims db).identities
        ≡ (insert_identity now new_id claims db').identities
  unfolding insert_user insert_identity
  inserted_alike db db' same =
      ap (λ rows. (insert_identity now new_id claims (record db { identities = rows })).identities)
        same

  pub refresh-returned :
      (user_id : String) (w w' : World K) {a : Account}
      → refresh_account now new_id claims user_id w ≡ (w', returned a)
      → (a.user_id ≡ user_id)
        × (w'.db ≡ update_user user_id (logged_in now claims) (update_identity now claims w.db))
        × ((user : User) × (select_user user_id w.db ≡ some user)
            × (a.role ≡ user.role)
            × (a.status ≡ user.status))
  unfolding refresh_account
  refresh-returned user_id w w' {a} e =
      let (w1, row, h1, e1) =
        continue-eq-returned (sql (λ db. (db, select_user user_id db)) w) _ e in
      let (db1, value, kv1) = sql-returned (λ db. (db, select_user user_id db)) w w1 row h1 in
      let (w2, user, h2, e2) =
        continue-eq-returned (row_or_missing now new_id claims row w1) _ e1 in
      let (found, same) = row-returned row w1 w2 h2 in
      let (w3, u3, h3, e3) =
        continue-eq-returned (change_db now new_id claims (update_identity now claims) w2) _ e2 in
      let db3 = change_db-returned (update_identity now claims) w2 w3 h3 in
      let (w4, u4, h4, e4) =
        continue-eq-returned
          (change_db now new_id claims (update_user user_id (logged_in now claims)) w3) _ e3 in
      let db4 = change_db-returned (update_user user_id (logged_in now claims)) w3 w4 h4 in
      let account : record { user_id = user_id; role = user.role; status = user.status } ≡ a =
        cc (ap (λ p. p.1) e4) in
      (
        sym (ap (λ v. v.user_id) account),
        ap (λ v. v.db) (sym (ap (λ p. p.0) e4))
            ∙ db4
            ∙ ap (λ d. update_user user_id (logged_in now claims) d)
                (db3 ∙ ap (λ d. update_identity now claims d) (ap (λ v. v.db) same ∙ db1)),
        (user, sym value ∙ found, sym (ap (λ v. v.role) account), sym (ap (λ v. v.status) account)),
      )

  pub provision-returned :
      (w w' : World K) {a : Account}
      → provision_account now new_id claims w ≡ (w', returned a)
      → (a ≡ record { user_id = new_id; role = "user"; status = "active" })
        × (w'.db.identities ≡ (insert_identity now new_id claims w.db).identities)
  unfolding provision_account
  provision-returned w w' e =
      let (w1, u1, h1, e1) =
        continue-eq-returned (change_db now new_id claims (insert_user now new_id claims) w) _ e in
      let db1 = change_db-returned (insert_user now new_id claims) w w1 h1 in
      let (w2, u2, h2, e2) =
        continue-eq-returned (change_db now new_id claims (insert_identity now new_id claims) w1) _
          e1 in
      let db2 = change_db-returned (insert_identity now new_id claims) w1 w2 h2 in
      let (w3, u3, h3, e3) = continue-eq-returned (write_audit now (provisioned) w2) _ e2 in
      let kept = audit-identities (provisioned) w2 w3 h3 in
      (
        sym (cc (ap (λ p. p.1) e3)),
        ap (λ v. v.db.identities) (sym (ap (λ p. p.0) e3))
            ∙ kept
            ∙ ap (λ d. d.identities) db2
            ∙ inserted_alike w1.db w.db (ap (λ d. d.identities) db1),
      )

  linked_user-identities :
      (iss sub : String) (db db' : Db)
      → db.identities ≡ db'.identities
      → linked_user iss sub db ≡ linked_user iss sub db'
  unfolding select_identity
  linked_user-identities iss sub db db' same = ap (λ rows. find_identity iss sub rows) same

  linked_user-update_user :
      (iss sub user_id : String) (change : User → User) (db : Db)
      → linked_user iss sub (update_user user_id change db) ≡ linked_user iss sub db
  unfolding select_identity update_user
  linked_user-update_user iss sub user_id change db = refl

  account_of-links :
      (sub : String) (w w' : World K) (found : Option String) {a : Account}
      → claims.sub ≡ some sub
      → found ≡ linked_user claims.iss sub w.db
      → account_of now new_id claims found w ≡ (w', returned a)
      → (a.user_id ≡ or_else found new_id) × (linked_user claims.iss sub w'.db ≡ some a.user_id)
  account_of-links sub w w' none {a} named known e =
      let (account, rows) = provision-returned w w' e in
      let linked : linked_user claims.iss sub w'.db ≡ some new_id =
        linked_user-identities claims.iss sub w'.db (insert_identity now new_id claims w.db) rows
        ∙ linked_user-insert_identity now new_id claims claims.iss sub w.db
        ∙ rw (named, eq_refl claims.iss, eq_refl sub) refl in
      (ap (λ v. v.user_id) account, linked ∙ ap (λ v. some v.user_id) (sym account))
  account_of-links sub w w' (some user_id) {a} named known e =
      let (same, db, user) = refresh-returned user_id w w' e in
      (
        same,
        ap (λ d. linked_user claims.iss sub d) db
            ∙ linked_user-update_user claims.iss sub user_id (logged_in now claims) _
            ∙ linked_user-update_identity now claims claims.iss sub w.db
            ∙ sym known
            ∙ ap some (sym same),
      )

  -- The user of a sign-in is the one that the member is linked to, or else the new one, and afterwards
  -- the member is linked to that user.
  pub find_or_provision-links :
      (sub : String) (w w' : World K) (a : Account)
      → claims.sub ≡ some sub
      → find_or_provision now new_id claims w ≡ (w', returned a)
      → (a.user_id ≡ or_else (linked_user claims.iss sub w.db) new_id)
        × (linked_user claims.iss sub w'.db ≡ some a.user_id)
  unfolding find_or_provision
  find_or_provision-links sub w w' a named e =
      let (mid, found, asked, e1) =
        continue-eq-returned (find_user_id claims.iss claims.sub w) _ e in
      let (same, known) = find_user_id-returned sub w mid named asked in
      let known' : found ≡ linked_user claims.iss sub mid.db =
        known ∙ ap (λ d. linked_user claims.iss sub d) (sym same) in
      let (user, linked) = account_of-links sub mid w' found named known' e1 in
      (user ∙ ap (λ f. or_else f new_id) known, linked)

-- Two sign-ins of one member, the second on the state that the first left, reach the same user,
-- whatever email the tokens carry.
pub find_or_provision-again :
    (K : KvNamespace) (now later : ℕ) (new_id other_id sub : String)
    (claims claims' : IdTokenClaims) (w w' w'' : World K) (a a' : Account)
    → claims.sub ≡ some sub
    → claims'.sub ≡ some sub
    → claims'.iss ≡ claims.iss
    → find_or_provision now new_id claims w ≡ (w', returned a)
    → find_or_provision later other_id claims' w' ≡ (w'', returned a')
    → a'.user_id ≡ a.user_id
find_or_provision-again K now later new_id other_id sub claims claims' w w' w'' a a' named named'
      iss first second =
    let (user, linked) = find_or_provision-links K now new_id claims sub w w' a named first in
    let (user', linked') =
      find_or_provision-links K later other_id claims' sub w' w'' a' named' second in
    user'
    ∙ ap (λ i. or_else (linked_user i sub w'.db) other_id) iss
    ∙ ap (λ o. or_else o other_id) linked
