-- ===== src/Ledger/Refines.antt =====
-- The ledger is a durable EvidenceAuditLog: it offers the same log to the router, and its verified
-- events are those of a log in memory (minority_prophet/evidence_ledger.py, evidence_audit.py).
use minority_prophet_gate.Base.{
  ℕ, ◌≡◌, ◌⊎◌, refl, sym, ◌∙◌, ap, subst, inl, inr, none, List, [], ◌∷◌, length, arith, Outcome, ok,
  raised, Outcome-cases,
}
use minority_prophet_gate.Audit.Event.{RoutingError, EvidenceAuditEvent, Entry}
use minority_prophet_gate.Audit.Log.{EvidenceAuditLog, written}
use minority_prophet_gate.Audit.Log
use minority_prophet_gate.Audit.Interface.{Adds, AuditLog}
use minority_prophet_gate.Ledger.Tables.{Ledger, Keys, new_ledger}
use minority_prophet_gate.Ledger.Verify.{verify_rows, events}
use minority_prophet_gate.Ledger.Append.{event_of, next_sequence, append, append_all}
use minority_prophet_gate.Ledger.Keeps.{
  Numbered, next_sequence_lem, verify_rows-shape, events-parts, append-verifies,
}

-- A ledger whose primary keys are the places of its rows.
abbrev pub SoundLedger : Type 0 → Type 0
SoundLedger D = (l : Ledger D) × Numbered l.rows

module _ {D : Type 0} (key : Keys D) (clock : ℕ → ℕ) where
  abbrev pub sound :
      (entry : Entry D) (l : SoundLedger D)
      → ((m : Ledger D) × (append key clock entry l.0 ≡ ok m))
        ⊎ ((e : RoutingError) × (append key clock entry l.0 ≡ raised e))
      → Outcome RoutingError (SoundLedger D)
  sound entry l (inl (m, eq)) = ok (m, (append-verifies key clock entry l.0 m l.1 eq).0)
  sound entry l (inr (e, eq)) = raised e

  pub sound-Adds :
      (entry : Entry D) (l m : SoundLedger D)
      (r : ((m : Ledger D) × (append key clock entry l.0 ≡ ok m))
        ⊎ ((e : RoutingError) × (append key clock entry l.0 ≡ raised e)))
      → sound entry l r ≡ ok m
      → (es fs : List (EvidenceAuditEvent D)) × (events key l.0 ≡ ok es)
        × (events key m.0 ≡ ok fs)
        × Adds entry es fs
  sound-Adds entry l m (inr (e, eq)) h = absurd (cc)
  sound-Adds entry l m (inl (k, eq)) h =
      let (_, (es, before, after)) = append-verifies key clock entry l.0 k l.1 eq in
      let e = event_of key clock entry l.0.rows in
      let ledger_of : Outcome RoutingError (SoundLedger D) → Ledger D =
        λ r. elim r [ ok p ↦ p.0 | raised _ ↦ k ] in
      let q : k ≡ m.0 = ap ledger_of h in
      (
        es,
        e ∷ es,
        before,
        subst (λ v. events key v ≡ ok (e ∷ es)) q after,
        record { event = e; grown = refl; kind = refl; challenge = refl; dispatch = refl },
      )

  -- The ledger as the router's log.
  abbrev pub ledger_log : AuditLog D (SoundLedger D)
  ledger_log = record {
    append = λ entry l. sound entry l (Outcome-cases (append key clock entry l.0));
    events = λ l. events key l.0;
    append_adds = λ entry l m. sound-Adds entry l m (Outcome-cases (append key clock entry l.0));
  }

  -- The entry's event is the one that the log in memory writes.
  event_of-written :
      (entry : Entry D) (l : Ledger D) (es : List (EvidenceAuditEvent D))
      → Numbered l.rows
      → events key l ≡ ok es
      → event_of key clock entry l.rows ≡ written key.hash_json clock entry es
  event_of-written entry l es numbered good =
      let (states, rows, _, _, _) = events-parts key clock entry l es good in
      let (many, ends) = verify_rows-shape key l.rows (es, states) rows in
      let next : next_sequence l.rows ≡ length es = next_sequence_lem l.rows numbered ∙ sym many in
      rw (next, sym ends) refl

  memory-appends :
      (entry : Entry D) (l m : Ledger D) (es : List (EvidenceAuditEvent D))
      → Numbered l.rows
      → events key l ≡ ok es
      → append key clock entry l ≡ ok m
      → Log.append key.hash_json clock entry (record { file = none; events = es })
        ≡ ok (record { file = none; events = event_of key clock entry l.rows ∷ es })
  unfolding Log.append append
  memory-appends entry l m es numbered good appended =
      rw (event_of-written entry l es numbered good) (ground arith)

  append_all-refines_from :
      (entries : List (Entry D)) (l m : Ledger D) (es : List (EvidenceAuditEvent D))
      → Numbered l.rows
      → events key l ≡ ok es
      → append_all key clock entries l ≡ ok m
      → Numbered m.rows
        × ((fs : List (EvidenceAuditEvent D)) × (events key m ≡ ok fs)
            × (Log.append_all key.hash_json clock entries (record { file = none; events = es })
                ≡ ok (record { file = none; events = fs })))
  unfolding append_all Log.append_all
  append_all-refines_from [] l m es numbered good = λ h.
      let q : l ≡ m = ground arith in
      subst
        (λ v.
          Numbered v.rows
          × ((fs : List (EvidenceAuditEvent D)) × (events key v ≡ ok fs)
              × (◌≡◌ {A = Outcome RoutingError (EvidenceAuditLog D)}
                  (ok (record { file = none; events = es }))
                  (ok (record { file = none; events = fs })))))
        q (numbered, (es, good, refl))
  append_all-refines_from (e ∷ rest) l m es numbered good =
      elim (Outcome-cases (append key clock e l)) [
        | inr (x, eq) ↦ rw (eq, append_all) (λ h. absurd (cc))
        | inl (k, eq) ↦
            rw (eq, memory-appends e l k es numbered good eq, append_all)
              (λ h.
                let (kept, (olds, before, after)) = append-verifies key clock e l k numbered eq in
                let same_events : olds ≡ es = ground (arith, before) in
                let now =
                  subst (λ v. events key k ≡ ok (event_of key clock e l.rows ∷ v)) same_events
                    after in
                append_all-refines_from rest k m (event_of key clock e l.rows ∷ es) kept now h)
      ]

  -- Whatever entries a new ledger takes, its integrity verifies afterwards, and its verified events are
  -- exactly those of a log in memory that took the same entries.
  pub append_all-refines :
      (entries : List (Entry D)) (m : Ledger D)
      → append_all key clock entries new_ledger ≡ ok m
      → (fs : List (EvidenceAuditEvent D)) × (events key m ≡ ok fs)
        × (Log.append_all key.hash_json clock entries (record { file = none; events = [] })
            ≡ ok (record { file = none; events = fs }))
  unfolding events verify_rows
  append_all-refines entries m h = (append_all-refines_from entries new_ledger m [] tt refl h).1
