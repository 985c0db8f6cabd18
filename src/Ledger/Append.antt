-- ===== src/Ledger/Append.antt =====
-- evidence_ledger.py: `append`, one transaction.
use minority_prophet_gate.Base.{
  ℕ, suc, Bool, false, ◌||◌, Option, none, some, List, [], ◌∷◌, ◌==◌, if◌then◌else◌, Dict, lookup,
  insert, Outcome, ok, raised, ◌>>=◌, ◌>>◌, raise_if,
}
use minority_prophet_gate.Audit.Event.{
  RoutingError, Unsigned, EvidenceAuditEvent, Entry, audit_schema, entry_incomplete,
  transition_invalid, event_hash_taken,
}
use minority_prophet_gate.Ledger.Tables.{
  AuditRow, DispatchState, StateRow, Ledger, Keys, state_of, allowed, last_tag,
}
use minority_prophet_gate.Ledger.Verify.{events}

abbrev pub current_state : Option StateRow → Option DispatchState
current_state none = none
current_state (some r) = some r.state

module _ {D : Type 0} where
  abbrev pub next_sequence : List (AuditRow D) → ℕ
  next_sequence [] = 0
  next_sequence (row ∷ rows) = suc row.sequence

  abbrev pub prior_hash : List (AuditRow D) → Option ℕ
  prior_hash [] = none
  prior_hash (row ∷ rows) = some row.event_hash

  -- `event_hash TEXT NOT NULL UNIQUE`
  unfoldable pub hash_taken : ℕ → List (AuditRow D) → Bool
  hash_taken h [] = false
  hash_taken h (row ∷ rows) = row.event_hash == h || hash_taken h rows

  -- `DO UPDATE SET state, updated_sequence`: a row that is there keeps its challenge and route.
  abbrev pub upserted : Option StateRow → Entry D → DispatchState → ℕ → StateRow
  upserted none entry state sequence = record {
    challenge_id = entry.challenge_id;
    route_id = entry.route_id;
    state = state;
    updated_sequence = sequence;
  }
  upserted (some r) entry state sequence = record r { state = state; updated_sequence = sequence }

  unfoldable pub move :
      Option ℕ
      → Option DispatchState
      → Entry D
      → ℕ
      → Dict StateRow
      → Outcome RoutingError (Dict StateRow)
  move none state entry sequence states = ok states
  move (some k) none entry sequence states = ok states
  move (some k) (some state) entry sequence states =
      let prior = lookup k states in
      if allowed (current_state prior) state
      then ok (insert k (upserted prior entry state sequence) states)
      else raised transition_invalid

  module _ (key : Keys D) (clock : ℕ → ℕ) where
    abbrev pub event_of : Entry D → List (AuditRow D) → EvidenceAuditEvent D
    event_of entry rows =
        let payload : Unsigned D = record {
          schema = audit_schema;
          sequence = next_sequence rows;
          occurred_at = clock (next_sequence rows);
          event_type = entry.event_type;
          challenge_id = entry.challenge_id;
          dispatch_id = entry.dispatch_id;
          route_id = entry.route_id;
          details = entry.details;
          previous_event_hash = prior_hash rows;
        } in
        record { payload = payload; event_hash = key.hash_json payload }

    abbrev pub row_of : EvidenceAuditEvent D → List (AuditRow D) → AuditRow D
    row_of event rows = record {
      sequence = next_sequence rows;
      event = some event;
      event_hash = event.event_hash;
      previous_event_hash = prior_hash rows;
      previous_authentication_tag = last_tag rows;
      authentication_tag = key.tag_event event (last_tag rows);
    }

    -- What raises rolls the transaction back.
    unfoldable pub append : Entry D → Ledger D → Outcome RoutingError (Ledger D)
    unfolding events hash_taken move state_of
    append entry l = do
      raise_if (entry.event_type == 0 || entry.challenge_id == 0) entry_incomplete
      events key l
      raise_if (hash_taken (event_of entry l.rows).event_hash l.rows) event_hash_taken
      states ←
          move entry.dispatch_id (state_of entry.event_type) entry (next_sequence l.rows) l.states
      ok (record l { rows = row_of (event_of entry l.rows) l.rows ∷ l.rows; states = states })

    unfoldable pub append_all : List (Entry D) → Ledger D → Outcome RoutingError (Ledger D)
    unfolding append
    append_all [] l = ok l
    append_all (e ∷ es) l = append e l >>= append_all es
