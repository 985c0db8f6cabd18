-- ===== src/Cases/Consistent.antt =====
-- While one writer uses it, the store of cases can always be read back (minority_prophet/case_store.py).
use minority_prophet_gate.Base.{
  ℕ, ◌≡◌, refl, ◌∙◌, ap, subst, inl, inr, none, some, List, [], ◌∷◌, ◌++◌, ◌==◌, length, arith,
  lookup, insert, lookup-insert, All, ok, Outcome-cases, Option-cases, Bool-cases,
}
use minority_prophet_gate.Cases.Store.{
  CaseState, CaseValue, CaseRow, EnvelopeRow, CaseStore, CaseKeys, new_store, rows_of,
  authenticated, case_of, case_row, opened, open_case, transition,
}

module _ {E : Type 0} where
  pub rows_of-append :
      (id : ℕ) (xs ys : List (EnvelopeRow E))
      → rows_of id (xs ++ ys) ≡ rows_of id xs ++ rows_of id ys
  unfolding rows_of
  rows_of-append id [] ys = refl
  rows_of-append id (x ∷ xs) ys = elim (Bool-cases (x.value.case_id == id)) [
    | inl own ↦ rw (own, rows_of-append id xs ys) refl
    | inr other ↦ rw (other, rows_of-append id xs ys) refl
  ]

  -- What is stored in the rows of a case, in the order of submission.
  abbrev pub contents : List (EnvelopeRow E) → List E
  contents [] = []
  contents (r ∷ rs) = r.envelope ∷ contents rs

  module _ (key : CaseKeys E) where
    -- A row that reads back.
    abbrev pub IsReadable : EnvelopeRow E → Type 0
    IsReadable r =
        (r.authentication_tag ≡ key.tag_envelope r.value)
        × (key.digest_of r.envelope ≡ r.value.envelope_digest)

    -- Each case is authentic and counts its envelopes, and each envelope has a case and reads back.
    pub record IsConsistent (s : CaseStore E) : Type 0 where
      pub cases :
          (id : ℕ) (row : CaseRow)
          → lookup id s.cases ≡ some row
          → (row.authentication_tag ≡ key.tag_case row.value)
            × (row.value.envelope_count ≡ length (rows_of id s.envelopes))
      pub owned : (id : ℕ) → lookup id s.cases ≡ none → rows_of id s.envelopes ≡ []
      pub readable : All IsReadable s.envelopes

    pub new_store-IsConsistent : IsConsistent new_store
    unfolding rows_of
    new_store-IsConsistent = record {
      cases = λ id row h. absurd (cc);
      owned = λ id h. refl;
      readable = tt;
    }

    -- A case is put in place with the count of its envelopes.
    insert-IsConsistent :
        (s : CaseStore E) (id : ℕ) (v : CaseValue)
        → v.envelope_count ≡ length (rows_of id s.envelopes)
        → IsConsistent s
        → IsConsistent (record s { cases = insert id (case_row key v) s.cases })
    insert-IsConsistent s id v counted h = record {
      cases = λ j row.
          rw (lookup-insert id j (case_row key v) s.cases) (elim (Bool-cases (j == id)) [
            | inl hit ↦ rw hit (λ e.
                let q : case_row key v ≡ row = ground arith in
                let own : id ≡ j = ground arith in
                subst
                  (λ r.
                    (r.authentication_tag ≡ key.tag_case r.value)
                    × (r.value.envelope_count ≡ length (rows_of j s.envelopes)))
                  q
                  (
                    refl,
                    subst (λ i. v.envelope_count ≡ length (rows_of i s.envelopes)) own counted,
                  ))
            | inr miss ↦ rw miss (λ e. h.cases j row e)
          ]);
      owned = λ j. rw (lookup-insert id j (case_row key v) s.cases) (elim (Bool-cases (j == id)) [
        | inl hit ↦ rw hit (λ e. absurd (cc))
        | inr miss ↦ rw miss (λ e. h.owned j e)
      ]);
      readable = h.readable;
    }

    -- A case that is read is the row that is there.
    pub case_of-parts :
        (id : ℕ) (s : CaseStore E) (v : CaseValue)
        → case_of key id s ≡ ok v
        → lookup id s.cases ≡ some (case_row key v)
    unfolding case_of authenticated
    case_of-parts id s v = elim (Option-cases (lookup id s.cases)) [
      | inl gone ↦ rw (gone, case_of) (λ h. absurd (cc))
      | inr (row, here) ↦
          rw (here, case_of)
            (λ h.
              let values : row.value ≡ v = ground arith in
              let tag : row.authentication_tag ≡ key.tag_case row.value = ground arith in
              λ i. some (record {
                value = values i;
                authentication_tag = (tag ∙ ap key.tag_case values) i;
              }))
    ]

    pub counted_lem :
        (id : ℕ) (s : CaseStore E) (v : CaseValue)
        → IsConsistent s
        → case_of key id s ≡ ok v
        → v.envelope_count ≡ length (rows_of id s.envelopes)
    counted_lem id s v h read = (h.cases id (case_row key v) (case_of-parts id s v read)).1

    pub open_case-IsConsistent :
        (id action policy now : ℕ) (s t : CaseStore E)
        → open_case key id action policy now s ≡ ok t
        → IsConsistent s
        → IsConsistent t
    unfolding open_case
    open_case-IsConsistent id action policy now s t = elim (Option-cases (lookup id s.cases)) [
      | inl new ↦
          rw (new, open_case)
            (λ h good.
              let v = opened key id action policy now in
              let q : record s { cases = insert id (case_row key v) s.cases } ≡ t = ground arith in
              subst IsConsistent q (insert-IsConsistent s id v (rw (good.owned id new) refl) good))
      | inr (row, old) ↦ elim (Outcome-cases (case_of key id s)) [
        | inr (e, bad) ↦ rw (old, bad, open_case) (λ h. ground arith)
        | inl (v, read) ↦
            rw (old, read, open_case)
              (λ h good. let q : s ≡ t = ground arith in subst IsConsistent q good)
      ]
    ]

    pub transition-IsConsistent :
        (id now : ℕ) (state : CaseState) (s t : CaseStore E)
        → transition key id state now s ≡ ok t
        → IsConsistent s
        → IsConsistent t
    unfolding transition
    transition-IsConsistent id now state s t = elim (Outcome-cases (case_of key id s)) [
      | inr (e, bad) ↦ rw (bad, transition) (λ h. ground arith)
      | inl (v, read) ↦
          rw (read, transition)
            (λ h good.
              let changed : CaseValue = record v { state = state; updated_at = now } in
              let q : record s { cases = insert id (case_row key changed) s.cases } ≡ t =
                ground arith in
              subst IsConsistent q
                (insert-IsConsistent s id changed (counted_lem id s v good read) good))
    ]
