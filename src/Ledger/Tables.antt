-- ===== src/Ledger/Tables.antt =====
-- evidence_ledger.py: the four tables, and the states of a dispatch.
use minority_prophet_gate.Base.{
  ℕ, Bool, true, false, Option, none, some, List, [], ◌∷◌, ◌==◌, if◌then◌else◌, Dict,
}
use minority_prophet_gate.Audit.Event.{Unsigned, EvidenceAuditEvent}
use minority_prophet_gate.Audit.Interface.{
  route_planned, dispatch_denied, dispatch_authorized, dispatch_started, collection_failed,
  collection_returned,
}
use minority_prophet_gate.Router.Types.{ReturnedEnvelope, EvidenceDispatch, Digests}

-- A row of `audit_events`; `event` is what its JSON reads as.
pub record AuditRow (D : Type 0) : Type 0 where
  pub sequence : ℕ
  pub event : Option (EvidenceAuditEvent D)
  pub event_hash : ℕ
  pub previous_event_hash : Option ℕ
  pub previous_authentication_tag : Option ℕ
  pub authentication_tag : ℕ

pub data DispatchState : Type 0 where
  planned authorized started denied returned failed : DispatchState

abbrev pub state_code : DispatchState → ℕ
state_code planned = 0
state_code authorized = 1
state_code started = 2
state_code denied = 3
state_code returned = 4
state_code failed = 5

-- A row of `dispatch_state`, by its dispatch id.
pub record StateRow : Type 0 where
  pub challenge_id : ℕ
  pub route_id : Option ℕ
  pub state : DispatchState
  pub updated_sequence : ℕ

-- What the tag of an artifact is made of: the record that `_verified_artifact` returns.
pub record ArtifactRecord : Type 0 where
  pub evidence_digest : ℕ
  pub challenge_id : ℕ
  pub dispatch_id : ℕ
  pub requirement_id : ℕ
  pub evidence_kind : ℕ
  pub envelope : ReturnedEnvelope
  pub envelope_digest : ℕ

-- A row of `evidence_artifacts`, by its digest; the envelope is what its JSON reads as.
pub record Artifact : Type 0 where
  pub challenge_id : ℕ
  pub dispatch_id : ℕ
  pub requirement_id : ℕ
  pub evidence_kind : ℕ
  pub envelope : Option ReturnedEnvelope
  pub envelope_digest : ℕ
  pub stored_at : ℕ
  pub authentication_tag : ℕ

-- `status` is PENDING or another text.
pub data ReviewStatus : Type 0 where
  pending : ReviewStatus
  other_review : ℕ → ReviewStatus

pub record ReviewRecord : Type 0 where
  pub dispatch_id : ℕ
  pub challenge_id : ℕ
  pub route_id : ℕ
  pub request : EvidenceDispatch
  pub status : ReviewStatus

-- A row of `human_review_queue`, by its dispatch id.
pub record Review : Type 0 where
  pub challenge_id : ℕ
  pub route_id : ℕ
  pub request : Option EvidenceDispatch
  pub status : ReviewStatus
  pub queued_at : ℕ
  pub authentication_tag : ℕ

-- `audit_events` by descending sequence, and the other tables in the order of insertion.
pub record Ledger (D : Type 0) : Type 0 where
  pub rows : List (AuditRow D)
  pub states : Dict StateRow
  pub artifacts : Dict Artifact
  pub reviews : Dict Review

-- The hash of the canonical JSON of payloads and items, and `_authenticate` under the ledger's key.
pub record Keys (D : Type 0) : Type 0 where
  pub hash_json : Unsigned D → ℕ
  pub digests : Digests
  pub tag_event : EvidenceAuditEvent D → Option ℕ → ℕ
  pub tag_artifact : ArtifactRecord → ℕ
  pub tag_review : ReviewRecord → ℕ

abbrev pub new_ledger : {D : Type 0} → Ledger D
new_ledger = record { rows = []; states = []; artifacts = []; reviews = [] }

-- The state that an event type stands for.
unfoldable pub state_of : ℕ → Option DispatchState
state_of kind =
    if kind == route_planned
    then some planned
    else if kind == dispatch_authorized
    then some authorized
    else if kind == dispatch_started
    then some started
    else if kind == dispatch_denied
    then some denied
    else if kind == collection_returned
    then some returned
    else if kind == collection_failed
    then some failed
    else none

-- `allowed`
abbrev pub allowed : Option DispatchState → DispatchState → Bool
allowed none planned = true
allowed none _ = false
allowed (some planned) authorized = true
allowed (some planned) denied = true
allowed (some planned) _ = false
allowed (some authorized) started = true
allowed (some authorized) _ = false
allowed (some started) returned = true
allowed (some started) failed = true
allowed (some started) _ = false
allowed (some _) _ = false

abbrev pub last_tag : {D : Type 0} → List (AuditRow D) → Option ℕ
last_tag [] = none
last_tag (row ∷ rows) = some row.authentication_tag
