-- ===== src/Cases/Readable.antt =====
-- A submission is read back, and so is everything that a single writer submitted
-- (minority_prophet/case_store.py).
use minority_prophet_gate.Base.{
  ℕ, ◌+◌, ◌≡◌, ◌⊎◌, refl, sym, subst, inl, inr, true, false, some, List, [], ◌∷◌, ◌++◌, ◌==◌,
  length, length-append, arith, Dict, lookup, insert, lookup-insert, All, ok, Outcome-cases,
  Option-cases, Bool-cases,
}
use minority_prophet_gate.Cases.Store.{
  CaseValue, CaseRow, EnvelopeRow, CaseStore, CaseKeys, rows_of, row_at, case_of, case_row,
  checked_claim, envelope_row, recounted, update_case, submit, append, read_row, read_rows,
  envelopes_of,
}
use minority_prophet_gate.Cases.Consistent.{
  rows_of-append, contents, IsReadable, IsConsistent, case_of-parts, counted_lem,
}

All-snoc :
    {A : Type 0} (P : A → Type 0) (xs : List A) (x : A) → All P xs → P x → All P (xs ++ x ∷ [])
All-snoc P [] x h p = (p, tt)
All-snoc P (y ∷ ys) x (h, hs) p = (h, All-snoc P ys x hs p)

module _ {E : Type 0} (key : CaseKeys E) where
  -- The state that a new submission leaves.
  abbrev pub submitted : CaseValue → ℕ → ℕ → E → ℕ → CaseStore E → CaseStore E
  submitted v id claim envelope now s = record {
    cases =
        insert id
          (case_row key (record v { envelope_count = v.envelope_count + 1; updated_at = now }))
          s.cases;
    envelopes = s.envelopes ++ envelope_row key id claim envelope now ∷ [];
  }

  submitted-IsConsistent :
      (v : CaseValue) (id claim : ℕ) (envelope : E) (now : ℕ) (s : CaseStore E)
      → v.envelope_count ≡ length (rows_of id s.envelopes)
      → IsConsistent key s
      → IsConsistent key (submitted v id claim envelope now s)
  unfolding rows_of
  submitted-IsConsistent v id claim envelope now s counted h =
      let u : CaseValue = record v { envelope_count = v.envelope_count + 1; updated_at = now } in
      let r = envelope_row key id claim envelope now in
      record {
        cases = λ j row.
            rw (lookup-insert id j (case_row key u) s.cases, rows_of-append j s.envelopes (r ∷ []))
              (elim (Bool-cases (j == id)) [
                | inl hit ↦
                    let own : (id == j) ≡ true = ground arith in
                    let e : id ≡ j = ground arith in
                    rw (hit, own)
                      (λ at.
                        let q : case_row key u ≡ row = ground arith in
                        subst
                          (λ w.
                            (w.authentication_tag ≡ key.tag_case w.value)
                            × (w.value.envelope_count ≡ length (rows_of j s.envelopes ++ r ∷ [])))
                          q
                          (
                            refl,
                            subst
                                (λ i.
                                  v.envelope_count + 1 ≡ length (rows_of i s.envelopes ++ r ∷ []))
                                e
                                (omega (
                                  arith,
                                  counted,
                                  length-append {0} (rows_of id s.envelopes) (r ∷ []),
                                )),
                          ))
                | inr miss ↦
                    let other : (id == j) ≡ false = ground arith in
                    rw (miss, other)
                      (λ at.
                        let (tag, many) = h.cases j row at in
                        (tag, omega (arith, many, length-append {0} (rows_of j s.envelopes) [])))
              ]);
        owned = λ j.
            rw (lookup-insert id j (case_row key u) s.cases, rows_of-append j s.envelopes (r ∷ []))
              (elim (Bool-cases (j == id)) [
                | inl hit ↦ rw hit (λ e. absurd (cc))
                | inr miss ↦
                    let other : (id == j) ≡ false = ground arith in
                    rw (miss, other) (λ e. rw (h.owned j e) refl)
              ]);
        readable = All-snoc (IsReadable key) s.envelopes r h.readable (refl, refl);
      }

  pub update_case-found :
      (id : ℕ) (f : CaseRow → CaseRow) (cases : Dict CaseRow) (row : CaseRow)
      → lookup id cases ≡ some row
      → update_case key id f cases ≡ insert id (f row) cases
  update_case-found id f cases row found = rw (found, update_case) refl

  -- A submission that is accepted is new, or repeats one of the same digest.
  pub append-parts :
      (id now : ℕ) (envelope : E) (s t : CaseStore E)
      → append key id envelope now s ≡ ok t
      → (v : CaseValue) × (claim : ℕ) × (case_of key id s ≡ ok v)
        × ((t ≡ s) ⊎ (t ≡ submitted v id claim envelope now s))
  unfolding append submit
  append-parts id now envelope s t = elim (Outcome-cases (case_of key id s)) [
    | inr (e, bad) ↦ rw (bad, append) (λ h. absurd (cc))
    | inl (v, read) ↦ elim (Outcome-cases (checked_claim key (key.claim_id_of envelope))) [
      | inr (e, bad) ↦ rw (read, bad, append) (λ h. ground arith)
      | inl (claim, named) ↦ elim (Option-cases (row_at id claim s.envelopes)) [
        | inr (row, old) ↦
            rw (read, named, append, submit, old) (λ h. (v, claim, refl, inl (ground arith)))
        | inl new ↦
            rw
              (
                read,
                named,
                append,
                submit,
                new,
                update_case-found id (recounted key v now) s.cases (case_row key v)
                    (case_of-parts key id s v read),
              )
              (λ h. (v, claim, refl, inr (ground arith)))
      ]
    ]
  ]

  pub append-IsConsistent :
      (id now : ℕ) (envelope : E) (s t : CaseStore E)
      → append key id envelope now s ≡ ok t
      → IsConsistent key s
      → IsConsistent key t
  append-IsConsistent id now envelope s t h good =
      let (v, claim, read, cases) = append-parts id now envelope s t h in
      elim cases [
        | inl same_store ↦ subst (IsConsistent key) (sym same_store) good
        | inr new ↦ subst (IsConsistent key) (sym new) (
            submitted-IsConsistent v id claim envelope now s (counted_lem key id s v good read)
              good)
      ]

  rows_of-IsReadable :
      (id : ℕ) (rs : List (EnvelopeRow E))
      → All (IsReadable key) rs
      → All (IsReadable key) (rows_of id rs)
  unfolding rows_of
  rows_of-IsReadable id [] h = tt
  rows_of-IsReadable id (r ∷ rs) (h, hs) = elim (Bool-cases (r.value.case_id == id)) [
    | inl own ↦ rw own (h, rows_of-IsReadable id rs hs)
    | inr other ↦ rw other (rows_of-IsReadable id rs hs)
  ]

  read_rows-contents :
      (rs : List (EnvelopeRow E)) → All (IsReadable key) rs → read_rows key rs ≡ ok (contents rs)
  unfolding read_rows read_row
  read_rows-contents [] h = refl
  read_rows-contents (r ∷ rs) ((tag, digest), hs) =
      let authentic : (r.authentication_tag == key.tag_envelope r.value) ≡ true = ground arith in
      let intact : (key.digest_of r.envelope == r.value.envelope_digest) ≡ true = ground arith in
      rw (authentic, intact, read_rows-contents rs hs) refl

  -- A case that can be read has all its envelopes.
  pub envelopes_of-contents :
      (id : ℕ) (s : CaseStore E) (v : CaseValue)
      → IsConsistent key s
      → case_of key id s ≡ ok v
      → envelopes_of key id s ≡ ok (contents (rows_of id s.envelopes))
  unfolding envelopes_of
  envelopes_of-contents id s v good read =
      let many : (length (rows_of id s.envelopes) == v.envelope_count) ≡ true =
        ground (arith, counted_lem key id s v good read) in
      rw (read, many)
        (read_rows-contents (rows_of id s.envelopes)
          (rows_of-IsReadable id s.envelopes good.readable))
