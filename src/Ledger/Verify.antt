-- ===== src/Ledger/Verify.antt =====
-- evidence_ledger.py: `_verify_integrity_in_transaction`, `events`, `has` and `has_challenge`.
use minority_prophet_gate.Base.{
  ℕ, Bool, true, false, not, ◌&&◌, Option, none, some, List, [], ◌∷◌, ◌++◌, ◌==◌, same, length,
  Dict, lookup, insert, keys, Outcome, ok, raised, ◌>>=◌, ◌>>◌, raise_if,
}
use minority_prophet_gate.Audit.Event.{
  RoutingError, EvidenceAuditEvent, audit_schema, last_hash, invalid_audit_event,
  ledger_sequence_invalid, hash_chain_broken, event_hash_invalid, event_index_invalid,
  tag_chain_broken, tag_invalid, dispatch_state_differs,
}
use minority_prophet_gate.Ledger.Tables.{
  AuditRow, DispatchState, state_code, StateRow, Ledger, Keys, state_of, last_tag,
}
use minority_prophet_gate.Ledger.Artifacts.{verify_artifacts, verify_reviews}

-- A dispatch's state with the sequence of the event that set it.
abbrev pub StateMap : Type 0
StateMap = Dict (DispatchState × ℕ)

abbrev pub same_state : Option (DispatchState × ℕ) → Option (DispatchState × ℕ) → Bool
same_state none none = true
same_state none (some _) = false
same_state (some _) none = false
same_state (some a) (some b) = state_code a.0 == state_code b.0 && a.1 == b.1

unfoldable pub agree_on : List ℕ → StateMap → StateMap → Bool
agree_on [] a b = true
agree_on (k ∷ ks) a b = same_state (lookup k a) (lookup k b) && agree_on ks a b

-- `==` on two dicts
unfoldable pub same_states : StateMap → StateMap → Bool
unfolding agree_on
same_states a b = agree_on (keys a ++ keys b) a b

-- `actual_dispatch_state`
abbrev pub actual_states : Dict StateRow → StateMap
actual_states [] = []
actual_states (r ∷ rs) = (r.0, (r.1.state, r.1.updated_sequence)) ∷ actual_states rs

abbrev pub set_state : Option ℕ → Option DispatchState → ℕ → StateMap → StateMap
set_state none state sequence states = states
set_state (some k) none sequence states = states
set_state (some k) (some state) sequence states = insert k (state, sequence) states

module _ {D : Type 0} where
  -- The event's effect on `expected_dispatch_state`.
  unfoldable pub noted : EvidenceAuditEvent D → StateMap → StateMap
  unfolding state_of
  noted e states =
      set_state e.payload.dispatch_id (state_of e.payload.event_type) e.payload.sequence states

  module _ (key : Keys D) where
    unfoldable pub verify_readable :
        AuditRow D
        → EvidenceAuditEvent D
        → ℕ
        → Option ℕ
        → Option ℕ
        → Outcome RoutingError (Unit {0})
    verify_readable row event expected_sequence previous_hash previous_tag = do
      raise_if
          (not
            (event.payload.schema == audit_schema && event.payload.sequence == expected_sequence))
          ledger_sequence_invalid
      raise_if (not (same event.payload.previous_event_hash previous_hash)) hash_chain_broken
      raise_if (not (event.event_hash == key.hash_json event.payload)) event_hash_invalid
      raise_if (not (row.event_hash == event.event_hash)) event_index_invalid
      raise_if (not (same row.previous_authentication_tag previous_tag)) tag_chain_broken
      raise_if (not (row.authentication_tag == key.tag_event event previous_tag)) tag_invalid

    -- one turn of the loop over the rows
    unfoldable pub verify_row :
        AuditRow D
        → Option (EvidenceAuditEvent D)
        → List (AuditRow D)
        → List (EvidenceAuditEvent D) × StateMap
        → Outcome RoutingError (List (EvidenceAuditEvent D) × StateMap)
    unfolding verify_readable noted
    verify_row row none older sofar = raised invalid_audit_event
    verify_row row (some event) older sofar =
        verify_readable row event (length sofar.0) (last_hash sofar.0) (last_tag older)
        >> ok (event ∷ sofar.0, noted event sofar.1)

    -- The loop, from the oldest row on: the events and the states that they give.
    unfoldable pub verify_rows :
        List (AuditRow D) → Outcome RoutingError (List (EvidenceAuditEvent D) × StateMap)
    unfolding verify_row
    verify_rows [] = ok ([], [])
    verify_rows (row ∷ older) = verify_rows older >>= verify_row row row.event older

    unfoldable pub verify_tables :
        Ledger D
        → List (EvidenceAuditEvent D) × StateMap
        → Outcome RoutingError (List (EvidenceAuditEvent D))
    unfolding same_states verify_artifacts verify_reviews
    verify_tables l sofar = do
      raise_if (not (same_states (actual_states l.states) sofar.1)) dispatch_state_differs
      verify_artifacts key l.artifacts
      verify_reviews key l.reviews
      ok sofar.0

    -- The verified events, the newest first.
    unfoldable pub events : Ledger D → Outcome RoutingError (List (EvidenceAuditEvent D))
    unfolding verify_rows verify_tables
    events l = verify_rows l.rows >>= verify_tables l
