-- ===== src/Router/Site.antt =====
-- evidence_router.py: the protocols that the router is built over, its state, and the events of a
-- dispatch.
use minority_prophet_gate.Base.{
  ℕ, ◌≡◌, Bool, false, ◌&&◌, ◌||◌, Option, some, List, [], ◌∷◌, ◌==◌, same, Dict, Outcome, ok,
}
use minority_prophet_gate.Audit.Event.{RoutingError, EvidenceAuditEvent, Entry, collector_failed}
use minority_prophet_gate.Audit.Interface.{
  AuditLog, dispatch_denied, collection_failed, collection_returned,
}
use minority_prophet_gate.Router.Types.{
  CollectorDescriptor, EvidenceDispatch, CollectionAuthorization, EvidenceCollectionResult, Details,
}

-- What a collector, an authorizer or a store raises: an EvidenceRoutingError or another type.
pub data Failure : Type 0 where
  routing : RoutingError → Failure
  other_type : ℕ → Failure

-- `type(exc).__name__`
abbrev pub type_name : Failure → ℕ
type_name (routing _) = 1
type_name (other_type t) = t

-- EvidenceRoutingErrors are passed on, others become one.
abbrev pub as_routing : Failure → RoutingError
as_routing (routing e) = e
as_routing (other_type _) = collector_failed

-- EvidenceCollector, CollectionAuthorizer and EvidenceArtifactStore over the state `W` of what they
-- stand for; the store may be the log itself, and raises without having written.
pub record Collector (W : Type 0) : Type 0 where
  pub descriptor : CollectorDescriptor
  pub collect : EvidenceDispatch → W → Outcome Failure EvidenceCollectionResult × W

-- A store writes nothing that the log's events show.
pub record ArtifactStore {L : Type 0} (log : AuditLog Details L) : Type 0 where
  pub persist : EvidenceDispatch → EvidenceCollectionResult → L → Outcome Failure L
  pub keeps_events :
      (d : EvidenceDispatch) (r : EvidenceCollectionResult) (l m : L)
      → persist d r l ≡ ok m
      → log.events m ≡ log.events l

pub record Site {L : Type 0} (log : AuditLog Details L) (W : Type 0) : Type 0 where
  pub collectors : Dict (Collector W)
  pub authorize :
      EvidenceDispatch
      → CollectorDescriptor
      → W
      → Outcome Failure (Option CollectionAuthorization) × W
  pub artifact_store : Option (ArtifactStore log)

pub record RouterState (L W : Type 0) : Type 0 where
  pub log : L
  pub results : Dict EvidenceCollectionResult
  pub world : W

abbrev pub entry_for : ℕ → EvidenceDispatch → Details → Entry Details
entry_for kind d details = record {
  event_type = kind;
  challenge_id = d.payload.challenge_id;
  dispatch_id = some d.dispatch_id;
  route_id = some d.payload.route.route_id;
  details = details;
}

-- `_terminal_event_exists`
unfoldable pub terminal : ℕ → List (EvidenceAuditEvent Details) → Bool
terminal id [] = false
terminal id (e ∷ es) =
    (same e.payload.dispatch_id (some id)
      && (e.payload.event_type == collection_returned
          || e.payload.event_type == collection_failed
          || e.payload.event_type == dispatch_denied))
    || terminal id es

abbrev pub Answer : Type 0 → Type 0 → Type 0 → Type 0
Answer L W A = Outcome RoutingError A × RouterState L W
