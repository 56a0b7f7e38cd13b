-- ===== src/Events/Erasure.antt =====
-- "A 2xx from here is a promise: the data is gone." What an `erased` outcome of the route's store
-- leaves behind, whichever calls fail on the way.
use mathlib.Core.Option
use simtrader.Base.{
  ℕ, ◌/◌, ◌≤◌, String, Option, none, some, ◌∷◌, map, returned, ◌≡◌, refl, ap, subst, sym, ◌∙◌,
}
use simtrader.Json.{Json}
use simtrader.Kv.{KvNamespace}
use simtrader.World.{World, kv, sql-returned, kv-returned}
use simtrader.Database.{Db, AuditRow, Identity}
use simtrader.Database.Accounts.{select_identity, insert_audit}
use simtrader.Database.Erasure.{
  IsForgotten, insert_audit-IsForgotten, delete_user-IsForgotten, audit_log-erase, scrub,
}
use simtrader.Session.{session_key, destroy_all_user_sessions}
use simtrader.Session.Tracking.{BelongsTo, IsTracked, destroy_all-ends_all}
use simtrader.Audit.{audit_row, write_audit}
use simtrader.Jwt.{IdTokenClaims, IssuerConfig, Runtime}
use simtrader.Events.{
  erased, user_deleted, apply_identity_event, apply_verified, erased_detail, accepted,
  receive_identity_event, verify_identity_event,
}
use simtrader.Events.Outcomes.{IsErasure, apply-IsErasure, apply_verified-erased}
use simtrader.Events.Route.{erase, find_user_id, event_store, receive}

module _ {K : KvNamespace} where
  -- The user that the token names is gone at a time `now`.
  pub record IsErased (claims : IdTokenClaims) (event user_id : String) (now : ℕ) (w w' : World K)
      : Type 0 where
    pub known :
        (e : Identity) × (sub : String) × (claims.sub ≡ some sub)
        × (select_identity claims.iss sub w.db ≡ some e)
        × (e.user_id ≡ user_id)
    pub forgotten : IsForgotten user_id w'.db
    pub sessions :
        (token : String) (stored : Json) (later : ℕ)
        → now ≤ later
        → K.get w'.kv later (session_key token) ≡ some stored
        → ¬ BelongsTo stored user_id
    -- The log keeps its rows, scrubbed of the user, and gains one that names nobody.
    pub log :
        w'.db.audit_log
        ≡ audit_row now (record {
          actor_id = none;
          target_user_id = none;
          action = "user.erased";
          detail = some (erased_detail claims event);
          ip_address = none;
        })
          ∷ map (scrub user_id) w.db.audit_log

  find_user_id-returned :
      (w s : World K) (iss : String) (given : Option String) (user_id : String)
      → find_user_id iss given w ≡ (s, returned (some user_id))
      → (s.db ≡ w.db)
        × (s.kv ≡ w.kv)
        × ((e : Identity) × (sub : String) × (given ≡ some sub)
            × (select_identity iss sub w.db ≡ some e)
            × (e.user_id ≡ user_id))
  unfolding find_user_id
  find_user_id-returned w s iss none user_id e = absurd (cc (ap (λ p. p.1) e))
  find_user_id-returned w s iss (some sub) user_id e =
      let (db, found, kv) =
        sql-returned
          (λ d. (d, Option.map (λ (i : Identity). i.user_id) (select_identity iss sub d))) w s
          (some user_id) e in
      let (row, selected, same) = (Option.map-eq-some_iff _ _).0 (sym found) in
      (db, kv, (row, sub, refl, selected, same))

  module _ (now : ℕ) (claims : IdTokenClaims) (event : String) (w w' : World K) where
    abbrev erasure_note : AuditRow
    erasure_note = audit_row now (record {
      actor_id = none;
      target_user_id = none;
      action = "user.erased";
      detail = some (erased_detail claims event);
      ip_address = none;
    })

    forgotten :
        (user_id : String) (db : Db)
        → IsForgotten user_id (insert_audit erasure_note (erase user_id db))
    unfolding erase
    forgotten user_id db =
        insert_audit-IsForgotten user_id erasure_note _ refl (delete_user-IsForgotten user_id db)

    noted :
        (user_id : String) (db : Db)
        → (insert_audit erasure_note (erase user_id db)).audit_log
          ≡ erasure_note ∷ map (scrub user_id) db.audit_log
    unfolding insert_audit erase
    noted user_id db = ap (λ l. erasure_note ∷ l) (audit_log-erase user_id db)

    IsErasure-IsErased :
        (user_id : String)
        → IsTracked K w.kv now
        → IsErasure (event_store now) claims event user_id w w'
        → IsErased claims event user_id now w w'
    unfolding event_store write_audit
    IsErasure-IsErased user_id tracked c =
        let (db1, kv1, known) =
          find_user_id-returned w c.found claims.iss claims.sub user_id c.finds in
        let (kv2, u2, db2) =
          kv-returned (λ s. (destroy_all_user_sessions K s now user_id, tt)) c.found c.ended tt
            c.ends in
        let (db3, u3, kv3) =
          sql-returned (λ db. (erase user_id db, tt)) c.ended c.gone tt c.erases in
        let (db4, u4, kv4) =
          sql-returned (λ db. (insert_audit erasure_note db, tt)) c.gone w' tt c.audits in
        let db : w'.db ≡ insert_audit erasure_note (erase user_id w.db) =
          db4 ∙ ap (insert_audit erasure_note) (db3 ∙ ap (erase user_id) (db2 ∙ db1)) in
        let kv : w'.kv ≡ destroy_all_user_sessions K w.kv now user_id =
          kv4 ∙ kv3 ∙ kv2 ∙ ap (λ s. destroy_all_user_sessions K s now user_id) kv1 in
        record {
          known = known;
          forgotten = subst (IsForgotten user_id) (sym db) (forgotten user_id w.db);
          sessions = λ token stored later after found.
              destroy_all-ends_all K w.kv now tracked user_id token stored later after
                (ap (λ s. K.get s later (session_key token)) (sym kv) ∙ found);
          log = ap (λ d. d.audit_log) db ∙ noted user_id w.db;
        }

    -- When the receiver reports an erasure, the event was a deletion and the user whom its token
    -- names is gone.
    pub apply-IsErased :
        IsTracked K w.kv now
        → apply_identity_event (event_store now) claims event w ≡ (w', returned erased)
        → (event ≡ user_deleted) × ((user_id : String) × IsErased claims event user_id now w w')
    apply-IsErased tracked e =
        let (deletion, erasure) = apply-IsErasure (event_store now) claims event w w' e in
        let (user_id, calls) = erasure in
        (deletion, (user_id, IsErasure-IsErased user_id tracked calls))

  -- An answer that says `erased`, whichever service calls failed on the way, in a state in which every
  -- live session is in its user's list: the token was a genuine `user.deleted` event, and the user
  -- whom its member was linked to has no row left in the tables of users, identities, tokens and
  -- signal actions. The audit rows that named the user as actor or target name nobody there and have
  -- lost their address, and one row that names nobody was added. No session of the user is found, now
  -- or later.
  pub receive-IsErased :
      (r : Runtime) (token event : String) (issuer : IssuerConfig) (w w' : World K)
      → IsTracked K w.kv (r.now_ms / 1000)
      → receive r token issuer w ≡ (w', returned (accepted event erased))
      → (event ≡ user_deleted)
        × ((claims : IdTokenClaims) × ((verify_identity_event r w.jwks token issuer none).1
              ≡ returned (claims, event))
            × ((user_id : String) × IsErased claims event user_id (r.now_ms / 1000) w w'))
  unfolding receive receive_identity_event
  receive-IsErased r token event issuer w w' tracked e =
      let now = r.now_ms / 1000 in
      let verified = verify_identity_event r w.jwks token issuer none in
      let applied = apply_verified (event_store now) verified.1 w in
      let (claims, genuine, ran) =
        apply_verified-erased (event_store now) verified.1 event w applied.0
          (ap (λ p. (applied.0, p.1)) e) in
      let (deletion, member) = apply-IsErased now claims event w applied.0 tracked ran in
      let (user_id, gone) = member in
      (
        deletion,
        (
          claims,
          genuine,
          (
            user_id,
            record {
              known = gone.known;
              forgotten =
                  subst (λ (v : World K). IsForgotten user_id v.db) (ap (λ p. p.0) e)
                    gone.forgotten;
              sessions = λ t stored later after found.
                  gone.sessions t stored later after
                    (ap (λ p. K.get (p.0).kv later (session_key t)) e ∙ found);
              log = ap (λ p. (p.0).db.audit_log) (sym e) ∙ gone.log;
            },
          ),
        ),
      )
