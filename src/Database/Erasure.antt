-- ===== src/Database/Erasure.antt =====
-- What is left of a user after the transaction of `eraseUser`.
use simtrader.Base.{
  String, ◌==◌, eq_iff, false, ◌||◌, Option, none, some, List, [], ◌∷◌, All, map, ◌≡◌, refl, ap,
  ap₂, ◌≢◌, Bool-cases, inl, inr, if◌then◌else◌,
}
use simtrader.Database.{
  User, Identity, SaxoToken, SignalActionRow, AuditRow, Db, update_where, delete_where,
}
use simtrader.Database.Accounts.{
  refers_to, names_user, unset, unlink, clear_ip_addresses, delete_user, insert_audit,
}

-- No row of the tables that refer to users by id has the user's. Signals and evaluations are left out:
-- those that a member pushed with an ID token keep its subject.
pub record IsForgotten (user_id : String) (db : Db) : Type 0 where
  pub users : All (λ (u : User). u.id ≢ user_id) db.users
  pub identities : All (λ (e : Identity). e.user_id ≢ user_id) db.identities
  pub saxo_tokens : All (λ (t : SaxoToken). t.user_id ≢ user_id) db.saxo_tokens
  pub signal_actions : All (λ (a : SignalActionRow). a.user_id ≢ user_id) db.signal_actions
  pub audit_log : All (λ row. names_user user_id row ≡ false) db.audit_log

abbrev pub blank : String → AuditRow → AuditRow
blank user_id row = record row {
  actor_id = unset user_id row.actor_id;
  target_user_id = unset user_id row.target_user_id;
  ip_address = none;
}

-- An audit row that named the user loses the reference and the address; another stays as it is.
abbrev pub scrub : String → AuditRow → AuditRow
scrub user_id row = if names_user user_id row then blank user_id row else row

module _ (user_id : String) where
  module _ {A : Type 0} (key : A → String) where
    pub delete_where-All :
        (rows : List A) → All (λ x. key x ≢ user_id) (delete_where (λ x. key x == user_id) rows)
    delete_where-All [] = tt
    delete_where-All (x ∷ rows) = elim (Bool-cases (key x == user_id)) [
      | inl mine ↦ rw mine (delete_where-All rows)
      | inr other ↦ rw other ((λ e. cc ((eq_iff (key x) user_id).1 e)), delete_where-All rows)
    ]

  unset-refers_to : (o : Option String) → refers_to (unset user_id o) user_id ≡ false
  unset-refers_to none = refl
  unset-refers_to (some id) = elim (Bool-cases (id == user_id)) [
    | inl mine ↦ rw mine refl
    | inr other ↦ rw other other
  ]

  scrub-names_user : (row : AuditRow) → names_user user_id (scrub user_id row) ≡ false
  scrub-names_user row = elim (Bool-cases (names_user user_id row)) [
    | inl named ↦
        rw named (ap₂ ◌||◌ (unset-refers_to row.actor_id) (unset-refers_to row.target_user_id))
    | inr other ↦ rw other other
  ]

  map-scrub-All :
      (rows : List AuditRow)
      → All (λ row. names_user user_id row ≡ false) (map (scrub user_id) rows)
  map-scrub-All [] = tt
  map-scrub-All (row ∷ rows) = (scrub-names_user row, map-scrub-All rows)

  -- Clearing the addresses and then dropping the references scrubs the log.
  pub scrubbed :
      (rows : List AuditRow)
      → update_where
          (names_user user_id)
          (unlink user_id)
          (update_where (names_user user_id) (λ row. record row { ip_address = none }) rows)
        ≡ map (scrub user_id) rows
  scrubbed [] = refl
  scrubbed (row ∷ rows) = elim (Bool-cases (names_user user_id row)) [
    | inl named ↦ rw (named, named) (ap (λ l. blank user_id row ∷ l) (scrubbed rows))
    | inr other ↦ rw (other, other) (ap (λ l. row ∷ l) (scrubbed rows))
  ]

  pub audit_log-erase :
      (db : Db)
      → (delete_user user_id (clear_ip_addresses user_id db)).audit_log
        ≡ map (scrub user_id) db.audit_log
  unfolding delete_user clear_ip_addresses
  audit_log-erase db = scrubbed db.audit_log

  -- The transaction forgets the user.
  pub delete_user-IsForgotten :
      (db : Db) → IsForgotten user_id (delete_user user_id (clear_ip_addresses user_id db))
  unfolding delete_user clear_ip_addresses
  delete_user-IsForgotten db = record {
    users = delete_where-All (λ u. u.id) db.users;
    identities = delete_where-All (λ e. e.user_id) db.identities;
    saxo_tokens = delete_where-All (λ t. t.user_id) db.saxo_tokens;
    signal_actions = delete_where-All (λ a. a.user_id) db.signal_actions;
    audit_log = rw (scrubbed db.audit_log) (map-scrub-All db.audit_log);
  }

  -- A new audit row that does not name the user changes nothing about that.
  pub insert_audit-IsForgotten :
      (row : AuditRow) (db : Db)
      → names_user user_id row ≡ false
      → IsForgotten user_id db
      → IsForgotten user_id (insert_audit row db)
  unfolding insert_audit
  insert_audit-IsForgotten row db other h = record {
    users = h.users;
    identities = h.identities;
    saxo_tokens = h.saxo_tokens;
    signal_actions = h.signal_actions;
    audit_log = (other, h.audit_log);
  }
