-- ===== src/Ledger/Keeps.antt =====
-- An append leaves a ledger whose integrity verifies, with one event more
-- (minority_prophet/evidence_ledger.py).
use minority_prophet_gate.Base.{
  ℕ, suc, ◌≡◌, refl, sym, ap, subst, inl, inr, true, Option, none, some, List, [], ◌∷◌, length,
  arith, same_refl, Dict, Option-cases, Outcome, ok, Outcome-cases,
}
use minority_prophet_gate.Audit.Event.{RoutingError, EvidenceAuditEvent, Entry, last_hash}
use minority_prophet_gate.Ledger.Tables.{AuditRow, StateRow, Ledger, Keys, state_of, last_tag}
use minority_prophet_gate.Ledger.Artifacts.{verify_artifacts, verify_reviews}
use minority_prophet_gate.Ledger.Verify.{
  StateMap, same_states, actual_states, noted, verify_readable, verify_row, verify_rows,
  verify_tables, events,
}
use minority_prophet_gate.Ledger.Append.{next_sequence, prior_hash, move, event_of, row_of, append}
use minority_prophet_gate.Ledger.Agree.{
  Alike, Alike-same_states, same_states-Alike, set_state-Alike, move-actual,
}

-- The primary keys are the places of the rows.
abbrev pub Numbered : {D : Type 0} → List (AuditRow D) → Type 0
Numbered [] = Unit
Numbered (row ∷ rows) = (row.sequence ≡ length rows) × Numbered rows

pub next_sequence_lem :
    {D : Type 0} (rows : List (AuditRow D)) → Numbered rows → next_sequence rows ≡ length rows
next_sequence_lem [] h = refl
next_sequence_lem (row ∷ rows) (h, hs) = ap suc h

module _ {D : Type 0} (key : Keys D) where
  verify_readable-indexed :
      (row : AuditRow D) (e : EvidenceAuditEvent D) (n : ℕ) (h t : Option ℕ)
      → verify_readable key row e n h t ≡ ok tt
      → e.event_hash ≡ row.event_hash
  unfolding verify_readable
  verify_readable-indexed row e n h t good = ground arith

  -- The verified events are as many as the rows, and end in the same hash.
  pub verify_rows-shape :
      (rows : List (AuditRow D)) (sofar : List (EvidenceAuditEvent D) × StateMap)
      → verify_rows key rows ≡ ok sofar
      → (length sofar.0 ≡ length rows) × (last_hash sofar.0 ≡ prior_hash rows)
  unfolding verify_rows verify_row
  verify_rows-shape [] sofar = λ h.
      let e : ([], []) ≡ sofar = ground arith in
      subst (λ s. (length s.0 ≡ 0) × (last_hash s.0 ≡ none)) e (refl, refl)
  verify_rows-shape (row ∷ rows) sofar = elim (Outcome-cases (verify_rows key rows)) [
    | inr (x, eq) ↦ rw (eq, verify_rows) (λ h. absurd (cc))
    | inl (older, eq) ↦ elim (Option-cases row.event) [
      | inl unreadable ↦ rw (eq, unreadable, verify_rows, verify_row) (λ h. absurd (cc))
      | inr (event, readable) ↦
          elim (Outcome-cases
            (verify_readable key row event (length older.0) (last_hash older.0) (last_tag rows))) [
              | inr (x, fq) ↦ rw (eq, readable, verify_rows, verify_row, fq) (λ h. absurd (cc))
              | inl (u, fq) ↦
                  rw (eq, readable, verify_rows, verify_row, fq)
                    (λ h.
                      let (many, _) = verify_rows-shape rows older eq in
                      let index =
                        verify_readable-indexed row event (length older.0) (last_hash older.0)
                          (last_tag rows) fq in
                      let e : (event ∷ older.0, noted event older.1) ≡ sofar = ground arith in
                      subst
                        (λ s.
                          (length s.0 ≡ suc (length rows)) × (last_hash s.0 ≡ some row.event_hash))
                        e (ap suc many, ap some index))
            ]
    ]
  ]

  module _ (clock : ℕ → ℕ) (entry : Entry D) where
    -- The appended row verifies after rows that verify.
    row-verifies :
        (rows : List (AuditRow D)) (sofar : List (EvidenceAuditEvent D) × StateMap)
        → Numbered rows
        → verify_rows key rows ≡ ok sofar
        → verify_rows key (row_of key clock (event_of key clock entry rows) rows ∷ rows)
          ≡ ok (
            event_of key clock entry rows ∷ sofar.0,
            noted (event_of key clock entry rows) sofar.1,
          )
    unfolding verify_rows verify_row verify_readable
    row-verifies rows sofar numbered eq =
        let (many, ends) = verify_rows-shape rows sofar eq in
        let next = next_sequence_lem rows numbered in
        rw (eq, many, next, ends, same_refl (prior_hash rows), same_refl (last_tag rows))
          (ground arith)

    pub events-parts :
        (l : Ledger D) (es : List (EvidenceAuditEvent D))
        → events key l ≡ ok es
        → (states : StateMap) × (verify_rows key l.rows ≡ ok (es, states))
          × Alike (actual_states l.states) states
          × (verify_artifacts key l.artifacts ≡ ok tt)
          × (verify_reviews key l.reviews ≡ ok tt)
    unfolding events verify_tables
    events-parts l es = elim (Outcome-cases (verify_rows key l.rows)) [
      | inr (x, eq) ↦ rw (eq, events) (λ h. absurd (cc))
      | inl (sofar, eq) ↦
          rw (eq, events)
            (λ h.
              let q : sofar.0 ≡ es = ground arith in
              (
                sofar.1,
                ap (λ s. ok (s, sofar.1)) q,
                same_states-Alike (actual_states l.states) sofar.1 (ground arith),
                ground arith,
                ground arith,
              ))
    ]

    extended-verifies :
        (l : Ledger D) (es : List (EvidenceAuditEvent D)) (new : Dict StateRow)
        → Numbered l.rows
        → events key l ≡ ok es
        → move entry.dispatch_id (state_of entry.event_type) entry (next_sequence l.rows) l.states
          ≡ ok new
        → events key (record l {
          rows = row_of key clock (event_of key clock entry l.rows) l.rows ∷ l.rows;
          states = new;
        })
          ≡ ok (event_of key clock entry l.rows ∷ es)
    unfolding events verify_tables noted
    extended-verifies l es new numbered good moved =
        let (states, rows, alike, artifacts, reviews) = events-parts l es good in
        let e = event_of key clock entry l.rows in
        let grown = row-verifies l.rows (es, states) numbered rows in
        let table =
          move-actual entry.dispatch_id (state_of entry.event_type) entry (next_sequence l.rows)
            l.states new moved in
        let agree : same_states (actual_states new) (noted e states) ≡ true =
          Alike-same_states (actual_states new) (noted e states) (
            subst (λ a. Alike a (noted e states)) (sym table)
              (set_state-Alike entry.dispatch_id (state_of entry.event_type) (next_sequence l.rows)
                (actual_states l.states) states alike)) in
        rw (grown, agree, artifacts, reviews) refl

    -- What an append that returns leaves.
    pub append-verifies :
        (l m : Ledger D)
        → Numbered l.rows
        → append key clock entry l ≡ ok m
        → Numbered m.rows
          × ((es : List (EvidenceAuditEvent D)) × (events key l ≡ ok es)
              × (events key m ≡ ok (event_of key clock entry l.rows ∷ es)))
    unfolding append
    append-verifies l m numbered = elim (Outcome-cases (events key l)) [
      | inr (x, eq) ↦ rw (eq, append) (λ h. ground arith)
      | inl (es, eq) ↦
          let e = event_of key clock entry l.rows in
          let n = next_sequence l.rows in
          let state = state_of entry.event_type in
          elim (Outcome-cases (move entry.dispatch_id state entry n l.states)) [
            | inr (x, fq) ↦ rw (eq, fq, append) (λ h. ground arith)
            | inl (new, fq) ↦
                rw (eq, fq, append)
                  (λ h.
                    let k : Ledger D = record l {
                      rows = row_of key clock e l.rows ∷ l.rows;
                      states = new;
                    } in
                    let q : k ≡ m = ground arith in
                    subst
                      (λ v.
                        Numbered v.rows
                        × ((fs : List (EvidenceAuditEvent D)) × (◌≡◌
                              {A = Outcome RoutingError (List (EvidenceAuditEvent D))} (ok es)
                              (ok fs))
                            × (events key v ≡ ok (e ∷ fs))))
                      q
                      (
                        (next_sequence_lem l.rows numbered, numbered),
                        (es, refl, extended-verifies l es new numbered eq fq),
                      ))
          ]
    ]
