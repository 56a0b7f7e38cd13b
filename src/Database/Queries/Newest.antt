-- ===== src/Database/Queries/Newest.antt =====
-- What a list of the newest rows that match holds, and what it leaves out.
use Prim.Native.Nat.{zero, suc}
use simtrader.Base.{
  ℕ, ◌≤◌, Bool, true, List, [], ◌∷◌, filter, length, take, In, All, ltb, Bool-cases, In-filter_iff,
  ◌≡◌, refl, ap, ◌∙◌, subst, ◌⊎◌, inl, inr, ◌↔◌, arith,
}
use simtrader.Database.Queries.{insert_by, newest_first}

module _ {A : Type 0} (at : A → ℕ) where
  -- No row is older than a later one.
  abbrev pub IsNewestFirst : List A → Type 0
  IsNewestFirst [] = Unit
  IsNewestFirst (x ∷ xs) = All (λ y. at y ≤ at x) xs × IsNewestFirst xs

  -- The rows are from the table, match, are in order, and number at most n; a matching row that is
  -- not among them has been displaced by n rows that are at least as new.
  pub record IsNewest (Matches : A → Type 0) (n : ℕ) (table rows : List A) : Type 0 where
    pub found : (a : A) → In a rows → In a table × Matches a
    pub ordered : IsNewestFirst rows
    pub at_most : length rows ≤ n
    pub complete :
        (a : A)
        → In a table
        → Matches a
        → In a rows ⊎ ((length rows ≡ n) × All (λ b. at a ≤ at b) rows)

  abbrev newer : A → A → Bool
  newer a b = ltb (at b) (at a)

  In-insert_by_iff : (a x : A) (ys : List A) → In a (insert_by newer x ys) ↔ ((x ≡ a) ⊎ In a ys)
  In-insert_by_iff a x [] = ((λ h. h), λ h. h)
  In-insert_by_iff a x (y ∷ ys) =
      let (to, from) = In-insert_by_iff a x ys in
      elim (Bool-cases (newer y x)) [
        | inl later ↦ rw later (
          (elim [
            | inl same ↦ inr (inl same)
            | inr h ↦ elim (to h) [ inl same ↦ inl same | inr deep ↦ inr (inr deep) ]
          ]),
          (elim [
            | inl same ↦ inr (from (inl same))
            | inr h ↦ elim h [ inl same ↦ inl same | inr deep ↦ inr (from (inr deep)) ]
          ]),
        )
        | inr here ↦ rw here ((λ h. h), λ h. h)
      ]

  -- Sorting changes which rows there are in nothing.
  pub In-newest_first_iff : (a : A) (xs : List A) → In a (newest_first at xs) ↔ In a xs
  In-newest_first_iff a [] = ((λ h. h), λ h. h)
  In-newest_first_iff a (x ∷ xs) =
      let (to, from) = In-newest_first_iff a xs in
      let (to_insert, from_insert) = In-insert_by_iff a x (newest_first at xs) in
      (
        (λ h. elim (to_insert h) [ inl same ↦ inl same | inr deep ↦ inr (to deep) ]),
        (λ h. from_insert (elim h [ inl same ↦ inl same | inr deep ↦ inr (from deep) ])),
      )

  All-insert_by :
      (n : ℕ) (x : A) (ys : List A)
      → at x ≤ n
      → All (λ y. at y ≤ n) ys
      → All (λ y. at y ≤ n) (insert_by newer x ys)
  All-insert_by n x [] h hs = (h, tt)
  All-insert_by n x (y ∷ ys) h hs =
      let rest = All-insert_by n x ys h hs.1 in
      elim (Bool-cases (newer y x)) [
        | inl later ↦ rw later (hs.0, rest)
        | inr here ↦ rw here (h, hs)
      ]

  All-later : (m n : ℕ) (ys : List A) → m ≤ n → All (λ y. at y ≤ m) ys → All (λ y. at y ≤ n) ys
  All-later m n [] le h = tt
  All-later m n (y ∷ ys) le h = (omega (arith, h.0), All-later m n ys le h.1)

  IsNewestFirst-insert_by :
      (x : A) (ys : List A) → IsNewestFirst ys → IsNewestFirst (insert_by newer x ys)
  IsNewestFirst-insert_by x [] h = (tt, tt)
  IsNewestFirst-insert_by x (y ∷ ys) h =
      let rest = IsNewestFirst-insert_by x ys h.1 in
      elim (Bool-cases (newer y x)) [
        | inl later ↦ rw later (All-insert_by (at y) x ys (ground arith) h.0, rest)
        | inr here ↦ rw here ((ground arith, All-later (at y) (at x) ys (ground arith) h.0), h)
      ]

  pub newest_first-IsNewestFirst : (xs : List A) → IsNewestFirst (newest_first at xs)
  newest_first-IsNewestFirst [] = tt
  newest_first-IsNewestFirst (x ∷ xs) =
      IsNewestFirst-insert_by x (newest_first at xs) (newest_first-IsNewestFirst xs)

  In-take : (n : ℕ) (a : A) (xs : List A) → In a (take n xs) → In a xs
  In-take zero a xs = elim [ ]
  In-take (suc n) a [] = λ h. h
  In-take (suc n) a (x ∷ xs) = elim [ inl same ↦ inl same | inr h ↦ inr (In-take n a xs h) ]

  All-take : (P : A → Type 0) (n : ℕ) (xs : List A) → All P xs → All P (take n xs)
  All-take P zero xs h = tt
  All-take P (suc n) [] h = tt
  All-take P (suc n) (x ∷ xs) h = (h.0, All-take P n xs h.1)

  IsNewestFirst-take : (n : ℕ) (xs : List A) → IsNewestFirst xs → IsNewestFirst (take n xs)
  IsNewestFirst-take zero xs h = tt
  IsNewestFirst-take (suc n) [] h = tt
  IsNewestFirst-take (suc n) (x ∷ xs) h =
      (All-take (λ y. at y ≤ at x) n xs h.0, IsNewestFirst-take n xs h.1)

  length-take : (n : ℕ) (xs : List A) → length (take n xs) ≤ n
  length-take zero xs = omega arith
  length-take (suc n) [] = omega arith
  length-take (suc n) (x ∷ xs) = omega (arith, length-take n xs)

  at-le : (n : ℕ) (a : A) (xs : List A) → All (λ y. at y ≤ n) xs → In a xs → at a ≤ n
  at-le n a [] h = elim [ ]
  at-le n a (x ∷ xs) h = elim [
    | inl same ↦ subst (λ b. at b ≤ n) same h.0
    | inr deep ↦ at-le n a xs h.1 deep
  ]

  taken :
      (n : ℕ) (a : A) (xs : List A)
      → IsNewestFirst xs
      → In a xs
      → In a (take n xs) ⊎ ((length (take n xs) ≡ n) × All (λ b. at a ≤ at b) (take n xs))
  taken zero a xs h = λ i. inr (refl, tt)
  taken (suc n) a [] h = elim [ ]
  taken (suc n) a (x ∷ xs) h = elim [
    | inl same ↦ inl (inl same)
    | inr deep ↦ elim (taken n a xs h.1 deep) [
      | inl kept ↦ inl (inr kept)
      | inr full ↦ inr (ap suc full.0, (at-le (at x) a xs h.0 deep, full.1))
    ]
  ]

  -- The n newest of the rows that match.
  pub take-IsNewest :
      (Matches : A → Type 0) (test : A → Bool) (n : ℕ) (table : List A)
      → ((a : A) → (test a ≡ true) ↔ Matches a)
      → IsNewest Matches n table (take n (newest_first at (filter test table)))
  take-IsNewest Matches test n table decides =
      let rows = filter test table in
      let sorted = newest_first-IsNewestFirst rows in
      record {
        found = λ a h.
            let (there, hit) =
              (In-filter_iff test a table).0
                ((In-newest_first_iff a rows).0 (In-take n a (newest_first at rows) h)) in
            (there, (decides a).0 hit);
        ordered = IsNewestFirst-take n (newest_first at rows) sorted;
        at_most = length-take n (newest_first at rows);
        complete = λ a there hit. taken n a (newest_first at rows) sorted (
            (In-newest_first_iff a rows).1
              ((In-filter_iff test a table).1 (there, (decides a).1 hit)));
      }

  length-insert_by : (x : A) (ys : List A) → length (insert_by newer x ys) ≡ suc (length ys)
  length-insert_by x [] = refl
  length-insert_by x (y ∷ ys) = elim (Bool-cases (newer y x)) [
    | inl later ↦ rw later (ap suc (length-insert_by x ys))
    | inr here ↦ rw here refl
  ]

  pub length-newest_first : (xs : List A) → length (newest_first at xs) ≡ length xs
  length-newest_first [] = refl
  length-newest_first (x ∷ xs) =
      length-insert_by x (newest_first at xs) ∙ ap suc (length-newest_first xs)
