-- ===== src/Audit/Interface.antt =====
-- The log as the router uses it: EvidenceAuditLog and the SQLite ledger both offer it. Here also
-- the names of the events that the router writes (evidence_router.py), and EvidenceAuditLog as a log.
use minority_prophet_gate.Base.{ℕ, ◌≡◌, refl, List, ◌∷◌, arith, Outcome, ok}
use minority_prophet_gate.Audit.Event.{RoutingError, Unsigned, EvidenceAuditEvent, Entry}
use minority_prophet_gate.Audit.Log.{EvidenceAuditLog, append, written}

abbrev pub challenge_received : ℕ
challenge_received = 1

abbrev pub route_planned : ℕ
route_planned = 2

abbrev pub route_unavailable : ℕ
route_unavailable = 3

abbrev pub route_rejected : ℕ
route_rejected = 4

abbrev pub dispatch_denied : ℕ
dispatch_denied = 5

abbrev pub dispatch_authorized : ℕ
dispatch_authorized = 6

abbrev pub dispatch_started : ℕ
dispatch_started = 7

abbrev pub collection_failed : ℕ
collection_failed = 8

abbrev pub collection_returned : ℕ
collection_returned = 9

abbrev pub gate_reassessed : ℕ
gate_reassessed = 10

-- One event was added, with what the entry states.
pub record Adds {D : Type 0} (entry : Entry D) (es fs : List (EvidenceAuditEvent D)) : Type 0 where
  pub event : EvidenceAuditEvent D
  pub grown : fs ≡ event ∷ es
  pub kind : event.payload.event_type ≡ entry.event_type
  pub challenge : event.payload.challenge_id ≡ entry.challenge_id
  pub dispatch : event.payload.dispatch_id ≡ entry.dispatch_id

-- A log kept in an `L`. A call that raises leaves the log as it was; one that returns adds one event.
pub record AuditLog (D L : Type 0) : Type 0 where
  pub append : Entry D → L → Outcome RoutingError L
  pub events : L → Outcome RoutingError (List (EvidenceAuditEvent D))
  pub append_adds :
      (entry : Entry D) (l m : L)
      → append entry l ≡ ok m
      → (es fs : List (EvidenceAuditEvent D)) × (events l ≡ ok es)
        × (events m ≡ ok fs)
        × Adds entry es fs

module _ {D : Type 0} (hash_json : Unsigned D → ℕ) (clock : ℕ → ℕ) where
  pub append-Adds :
      (entry : Entry D) (l m : EvidenceAuditLog D)
      → append hash_json clock entry l ≡ ok m
      → Adds entry l.events m.events
  unfolding append
  append-Adds entry l m h =
      let e = written hash_json clock entry l.events in
      record { event = e; grown = ground arith; kind = refl; challenge = refl; dispatch = refl }

  -- EvidenceAuditLog keeps the promise.
  abbrev pub memory_log : AuditLog D (EvidenceAuditLog D)
  memory_log = record {
    append = append hash_json clock;
    events = λ l. ok l.events;
    append_adds = λ entry l m h. (l.events, m.events, refl, refl, append-Adds entry l m h);
  }
