-- ===== src/AuditLog/Export.antt =====
-- What the export of the audit log holds.
use mathlib.Core.Option
use Prim.Native.String
use simtrader.Base.{
  ℕ, ◌≤◌, String, Bool, true, false, ◌&&◌, ◌⊎◌, ◌↔◌, inl, inr, subst, leb, filter-map, take, ap₂,
  arith, Option-cases, some-injective, and_left, and_right, and_both, Option, none, some, List, [],
  ◌∷◌, map, All, is_empty, or_else, returned, returned-injective, ◌≡◌, refl, sym, ap, ◌∙◌,
}
use simtrader.Pages.{AuditEntry}
use simtrader.Http.{Response, csv, lift, continue-eq-returned, lift-returned}
use simtrader.Kv.{KvNamespace}
use simtrader.World.{World, sql, sql-returned}
use simtrader.Database.{AuditRow, Db}
use simtrader.Database.Queries.Newest.{IsNewest, take-IsNewest}
use simtrader.Database.Queries.{Postgres, newest_first}
use simtrader.AuditLog.{
  AuditQuery, email_of, entry_time, is_after, is_before, bound_or_throw, audit_fields, csv_text,
  select_entries, select_export, audit_export,
}
use simtrader.AuditLog.Csv.{csv_lines, read_csv}
use simtrader.AuditLog.RoundTrip.{read_csv-csv_lines}

fields-filled :
    (pg : Postgres) (entries : List AuditEntry)
    → All (λ r. is_empty r ≡ false) (map (audit_fields pg) entries)
fields-filled pg [] = tt
fields-filled pg (e ∷ entries) = (refl, fields-filled pg entries)

-- A bound of the query: none where the text is empty, and else the time that Postgres reads.
abbrev pub IsBound : Postgres → String → Option ℕ → Type 0
IsBound pg text bound =
    ((text ≡ "") × (bound ≡ none)) ⊎ ((at : ℕ) × (pg.parse_time text ≡ some at) × (bound ≡ some at))

bound_or_throw-IsBound :
    (pg : Postgres) (text : String) (bound : Option ℕ)
    → bound_or_throw pg text ≡ returned bound
    → IsBound pg text bound
bound_or_throw-IsBound pg String.[] bound h = inl (refl, cc)
bound_or_throw-IsBound pg (String.◌∷◌ c s) bound h =
    elim (Option-cases (pg.parse_time (String.◌∷◌ c s))) [
      | inl missing ↦ absurd (let h1 = rw missing at h in cc h1)
      | inr (at, read) ↦ inr (at, read, let h1 = rw read at h in cc h1)
    ]

-- From one bound to the other, both included.
pub record IsBetween (from to : Option ℕ) (e : AuditEntry) : Type 0 where
  pub not_before : (at : ℕ) → from ≡ some at → at ≤ e.ts
  pub not_after : (at : ℕ) → to ≡ some at → e.ts ≤ at

abbrev from_on : Option ℕ → ℕ → Bool
from_on none ts = true
from_on (some at) ts = leb at ts

abbrev up_to : Option ℕ → ℕ → Bool
up_to none ts = true
up_to (some at) ts = leb ts at

abbrev in_bounds : Option ℕ → Option ℕ → AuditEntry → Bool
in_bounds from to e = from_on from e.ts && up_to to e.ts

is_after-from_on : (from : Option ℕ) (row : AuditRow) → from_on from row.ts ≡ is_after from row
is_after-from_on none row = refl
is_after-from_on (some at) row = refl

is_before-up_to : (to : Option ℕ) (row : AuditRow) → up_to to row.ts ≡ is_before to row
is_before-up_to none row = refl
is_before-up_to (some at) row = refl

from_on_iff :
    (from : Option ℕ) (ts : ℕ) → (from_on from ts ≡ true) ↔ ((at : ℕ) → from ≡ some at → at ≤ ts)
from_on_iff none ts = ((λ h at e. cc), λ h. refl)
from_on_iff (some b) ts = (
  (λ h at e. let same = some-injective e in ground (arith, h, same)),
  λ h. let le = h b refl in ground (arith, le),
)

up_to_iff : (to : Option ℕ) (ts : ℕ) → (up_to to ts ≡ true) ↔ ((at : ℕ) → to ≡ some at → ts ≤ at)
up_to_iff none ts = ((λ h at e. cc), λ h. refl)
up_to_iff (some b) ts = (
  (λ h at e. let same = some-injective e in ground (arith, h, same)),
  λ h. let le = h b refl in ground (arith, le),
)

in_bounds_iff :
    (from to : Option ℕ) (e : AuditEntry) → (in_bounds from to e ≡ true) ↔ IsBetween from to e
in_bounds_iff from to e = (
  (λ h. record {
    not_before = (from_on_iff from e.ts).0 (and_left _ _ h);
    not_after = (up_to_iff to e.ts).0 (and_right _ _ h);
  }),
  λ h. and_both ((from_on_iff from e.ts).1 h.not_before) ((up_to_iff to e.ts).1 h.not_after),
)

-- A row with the emails of the users that it names.
abbrev pub entry_of : Db → AuditRow → AuditEntry
entry_of db row = record {
  action = row.action;
  ts = row.ts;
  detail = row.detail;
  ip_address = row.ip_address;
  actor_email = email_of db row.actor_id;
  target_email = email_of db row.target_user_id;
}

-- The columns of the export.
abbrev pub columns : Postgres → AuditEntry → List String
columns pg e =
    pg.date_text e.ts
    ∷ or_else e.actor_email ""
    ∷ or_else e.target_email ""
    ∷ e.action
    ∷ or_else e.ip_address ""
    ∷ or_else (Option.map pg.json_text e.detail) ""
    ∷ []

-- The rows of the export are the newest between the bounds.
select_export-IsNewest :
    (from to : Option ℕ) (db : Db)
    → IsNewest
        (λ e. e.ts)
        (IsBetween from to)
        10000
        (map (entry_of db) db.audit_log)
        (select_export from to db)
unfolding select_export select_entries
select_export-IsNewest from to db =
    let rows =
      filter-map (entry_of db) (λ row. is_after from row && is_before to row) (in_bounds from to)
        db.audit_log (λ row. ap₂ ◌&&◌ (is_after-from_on from row) (is_before-up_to to row)) in
    subst
      (λ es.
        IsNewest entry_time (IsBetween from to) 10000 (map (entry_of db) db.audit_log)
          (take 10000 (newest_first entry_time es)))
      rows
      (take-IsNewest entry_time (IsBetween from to) (in_bounds from to) 10000
        (map (entry_of db) db.audit_log) (in_bounds_iff from to))

-- An export that is answered is a file named after the day, with a header line and lines from which
-- a reader of CSV gets back, field by field and whatever characters they hold, the times, the actors'
-- and targets' emails, the actions, the addresses and the details of the newest 10000 audit rows, or
-- of all when they are fewer, that lie between the bounds of the query, the newest first; the
-- database stays as it was.
pub audit_export-reads :
    (K : KvNamespace) (pg : Postgres) (today : String) (q : AuditQuery) (w w' : World K)
    (response : Response)
    → audit_export pg today q w ≡ (w', returned response)
    → (from to : Option ℕ) × IsBound pg (or_else q.from "") from
      × IsBound pg (or_else q.to "") to
      × ((entries : List AuditEntry) × (lines : String) × (response.body
            ≡ csv
                (String.◌++◌ "audit-" (String.◌++◌ today ".csv"))
                (String.◌++◌ "timestamp,actor,target,action,ip,detail\n" lines))
          × (read_csv lines ≡ some (map (columns pg) entries))
          × IsNewest
              (λ e. e.ts)
              (IsBetween from to)
              10000
              (map (entry_of w.db) w.db.audit_log)
              entries
          × (w'.db ≡ w.db))
unfolding audit_export csv_text
audit_export-reads K pg today q w w' response h =
    let (w1, from, h1, e1) =
      continue-eq-returned (lift (bound_or_throw pg (or_else q.from "")) w) _ h in
    let (same1, first) = lift-returned (bound_or_throw pg (or_else q.from "")) w w1 h1 in
    let (w2, to, h2, e2) =
      continue-eq-returned (lift (bound_or_throw pg (or_else q.to "")) w1) _ e1 in
    let (same2, last) = lift-returned (bound_or_throw pg (or_else q.to "")) w1 w2 h2 in
    let select : Db → Db × List AuditEntry = λ db. (db, select_export from to db) in
    let (w3, entries, h3, e3) = continue-eq-returned (sql select w2) _ e2 in
    let (db, value, kv) = sql-returned select w2 w3 entries h3 in
    let start : w2.db ≡ w.db = ap (λ (v : World K). v.db) (same2 ∙ same1) in
    let picked : entries ≡ select_export from to w.db =
      value ∙ ap (λ d. select_export from to d) start in
    (
      from,
      to,
      bound_or_throw-IsBound pg _ from first,
      bound_or_throw-IsBound pg _ to last,
      (
        entries,
        csv_lines (map (audit_fields pg) entries),
        ap (λ (r : Response). r.body) (sym (returned-injective (ap (λ p. p.1) e3))),
        read_csv-csv_lines (map (audit_fields pg) entries) (fields-filled pg entries),
        subst
            (λ es.
              IsNewest entry_time (IsBetween from to) 10000 (map (entry_of w.db) w.db.audit_log) es)
            (sym picked) (select_export-IsNewest from to w.db),
        ap (λ (v : World K). v.db) (sym (ap (λ p. p.0) e3)) ∙ db ∙ start,
      ),
    )
