-- ===== src/Cases/Stale.antt =====
-- Two writers: `append` reads the case before its transaction begins (minority_prophet/case_store.py).
use minority_prophet_gate.Base.{
  ℕ, suc, ◌+◌, ◌≡◌, ◌≢◌, ne→==, refl, true, false, none, some, [], ◌∷◌, ◌++◌, ◌==◌, length,
  length-append, arith, lookup, insert, lookup-insert_self, ok, raised,
}
use minority_prophet_gate.Audit.Event.{envelopes_missing}
use minority_prophet_gate.Cases.Store.{
  CaseValue, CaseStore, CaseKeys, rows_of, row_at, authenticated, case_of, case_row, envelope_row,
  recounted, submit, envelopes_of,
}
use minority_prophet_gate.Cases.Consistent.{
  rows_of-append, IsConsistent, case_of-parts, counted_lem,
}
use minority_prophet_gate.Cases.Readable.{submitted, update_case-found}

module _ {E : Type 0} (key : CaseKeys E) where
  submit-submitted :
      (v : CaseValue) (id claim : ℕ) (envelope : E) (now : ℕ) (s : CaseStore E)
      → lookup id s.cases ≡ some (case_row key v)
      → row_at id claim s.envelopes ≡ none
      → submit key v id claim envelope now s ≡ ok (submitted key v id claim envelope now s)
  unfolding submit
  submit-submitted v id claim envelope now s there new =
      rw
        (new, submit, update_case-found key id (recounted key v now) s.cases (case_row key v) there)
        refl

  -- A case whose count is not that of its rows cannot be read.
  miscounted-envelopes_of :
      (id : ℕ) (s : CaseStore E) (v : CaseValue)
      → lookup id s.cases ≡ some (case_row key v)
      → length (rows_of id s.envelopes) ≢ v.envelope_count
      → envelopes_of key id s ≡ raised envelopes_missing
  unfolding envelopes_of authenticated
  miscounted-envelopes_of id s v there differ =
      let same_tag : (key.tag_case v == key.tag_case v) ≡ true = ground arith in
      let wrong : (length (rows_of id s.envelopes) == v.envelope_count) ≡ false =
        ne→== (length (rows_of id s.envelopes)) v.envelope_count differ in
      let read : case_of key id s ≡ ok v = rw (there, case_of, same_tag) refl in
      rw (read, wrong) refl

  submitted-count :
      (v : CaseValue) (id claim : ℕ) (envelope : E) (now : ℕ) (s : CaseStore E)
      → length (rows_of id (submitted key v id claim envelope now s).envelopes)
        ≡ suc (length (rows_of id s.envelopes))
  unfolding rows_of
  submitted-count v id claim envelope now s =
      let r = envelope_row key id claim envelope now in
      let own : (id == id) ≡ true = ground arith in
      rw (rows_of-append id s.envelopes (r ∷ []), own)
        (omega (arith, length-append {0} (rows_of id s.envelopes) (r ∷ [])))

  -- From a consistent store, where two writers read a case before either transaction began and then
  -- commit envelopes with claim ids that are new to it, both commits succeed, and the case can no longer
  -- be read: its count is one short of its envelopes.
  pub submit-envelopes_lost :
      (s : CaseStore E) (id first second : ℕ) (a b : E) (now later : ℕ) (v : CaseValue)
      → IsConsistent key s
      → case_of key id s ≡ ok v
      → row_at id first s.envelopes ≡ none
      → row_at id second (submitted key v id first a now s).envelopes ≡ none
      → (t u : CaseStore E) × (submit key v id first a now s ≡ ok t)
        × (submit key v id second b later t ≡ ok u)
        × (envelopes_of key id u ≡ raised envelopes_missing)
  unfolding submit
  submit-envelopes_lost s id first second a b now later v good read new newer =
      let there = case_of-parts key id s v read in
      let t = submitted key v id first a now s in
      let mid : CaseValue = record v { envelope_count = v.envelope_count + 1; updated_at = now } in
      let end_value : CaseValue = record v {
        envelope_count = v.envelope_count + 1;
        updated_at = later;
      } in
      let held = lookup-insert_self id (case_row key mid) s.cases in
      let u : CaseStore E = record {
        cases = insert id (case_row key end_value) t.cases;
        envelopes = t.envelopes ++ envelope_row key id second b later ∷ [];
      } in
      let commits : submit key v id second b later t ≡ ok u =
        rw
          (
            newer,
            submit,
            update_case-found key id (recounted key v later) t.cases (case_row key mid) held,
          )
          refl in
      let counted = counted_lem key id s v good read in
      let before = submitted-count v id first a now s in
      let after = submitted-count v id second b later t in
      (
        t,
        u,
        submit-submitted v id first a now s there new,
        commits,
        miscounted-envelopes_of id u end_value
            (lookup-insert_self id (case_row key end_value) t.cases)
            (λ e. omega (arith, counted, before, after, e)),
      )
