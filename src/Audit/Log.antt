-- ===== src/Audit/Log.antt =====
-- evidence_audit.py: EvidenceAuditLog. The hash of a payload and the clock are parameters; the
-- clock gives the reading that is taken when the event of a sequence number is written.
use minority_prophet_gate.Base.{
  ℕ, ◌||◌, Option, none, some, List, [], ◌∷◌, ◌++◌, ◌==◌, length, Outcome, ok, raised, ◌>>=◌, ◌>>◌,
  raise_if,
}
use minority_prophet_gate.Audit.Event.{
  RoutingError, invalid_audit_event, entry_incomplete, audit_schema, Unsigned, EvidenceAuditEvent,
  Entry, last_hash, verify_event,
}

-- A line of the JSONL file: white space, no event, or an event.
pub data Line (D : Type 0) : Type 0 where
  blank unreadable : Line D
  holds : EvidenceAuditEvent D → Line D

-- The file, where there is a path, with its lines in order; and the events, the newest first.
pub record EvidenceAuditLog (D : Type 0) : Type 0 where
  pub file : Option (List (Line D))
  pub events : List (EvidenceAuditEvent D)

module _ {D : Type 0} where
  abbrev pub add_line : Option (List (Line D)) → EvidenceAuditEvent D → Option (List (Line D))
  add_line none event = none
  add_line (some ls) event = some (ls ++ holds event ∷ [])

  abbrev pub extended : EvidenceAuditLog D → EvidenceAuditEvent D → EvidenceAuditLog D
  extended log event = record { file = add_line log.file event; events = event ∷ log.events }

module _ {D : Type 0} (hash_json : Unsigned D → ℕ) where
  -- one round of `_load`
  unfoldable pub load_line :
      Line D → List (EvidenceAuditEvent D) → Outcome RoutingError (List (EvidenceAuditEvent D))
  unfolding verify_event
  load_line blank events = ok events
  load_line unreadable events = raised invalid_audit_event
  load_line (holds event) events =
      verify_event hash_json event (length events) (last_hash events) >> ok (event ∷ events)

  -- `_load`
  unfoldable pub load :
      List (Line D)
      → List (EvidenceAuditEvent D)
      → Outcome RoutingError (List (EvidenceAuditEvent D))
  unfolding load_line
  load [] events = ok events
  load (l ∷ ls) events = load_line l events >>= load ls

  -- `__init__`
  unfoldable pub new_log : Option (List (Line D)) → Outcome RoutingError (EvidenceAuditLog D)
  unfolding load
  new_log none = ok (record { file = none; events = [] })
  new_log (some ls) = load ls [] >>= λ es. ok (record { file = some ls; events = es })

  -- The event of an entry at a place of the chain.
  abbrev pub written : (ℕ → ℕ) → Entry D → List (EvidenceAuditEvent D) → EvidenceAuditEvent D
  written clock entry events =
      let payload : Unsigned D = record {
        schema = audit_schema;
        sequence = length events;
        occurred_at = clock (length events);
        event_type = entry.event_type;
        challenge_id = entry.challenge_id;
        dispatch_id = entry.dispatch_id;
        route_id = entry.route_id;
        details = entry.details;
        previous_event_hash = last_hash events;
      } in
      record { payload = payload; event_hash = hash_json payload }

  unfoldable pub append :
      (ℕ → ℕ) → Entry D → EvidenceAuditLog D → Outcome RoutingError (EvidenceAuditLog D)
  append clock entry log = do
    raise_if (entry.event_type == 0 || entry.challenge_id == 0) entry_incomplete
    ok (extended log (written clock entry log.events))

  -- A caller that appends entry after entry.
  unfoldable pub append_all :
      (ℕ → ℕ) → List (Entry D) → EvidenceAuditLog D → Outcome RoutingError (EvidenceAuditLog D)
  unfolding append
  append_all clock [] log = ok log
  append_all clock (e ∷ es) log = append clock e log >>= append_all clock es
