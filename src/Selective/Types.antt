-- ===== src/Selective/Types.antt =====
-- selective_hybrid.py: DeterministicDecision, SelectiveDecision and what one call is given.
use minority_prophet_gate.Base.{ℕ, Bool, Option}
use minority_prophet_gate.GateTypes.{GateAction, Reason}
use minority_prophet_gate.Adapter.Intake.{Settings}
use minority_prophet_gate.Gate.Assess.{GateError, EvidenceAssessment}
use minority_prophet_gate.Request.Policy.{RequestError, EvidenceRequestPolicy}
use minority_prophet_gate.Request.Challenge.{EvidenceRequest}

-- The three actions that `__post_init__` admits.
pub data PrimaryAction : Type 0 where
  allow deny review : PrimaryAction

pub record DeterministicDecision : Type 0 where
  pub action : PrimaryAction
  pub reason : ℕ
  pub evidence_sensitive : Bool
  pub policy_id : ℕ

pub data Route : Type 0 where
  deterministic evidence evidence_collection human : Route

pub record SelectiveDecision : Type 0 where
  pub action : GateAction
  pub route : Route
  pub reason : Reason
  pub assessment : Option EvidenceAssessment
  pub evidence_request : Option EvidenceRequest

-- What `assess_memory_evidence` answered, with its reason.
pub data MemoryAnswer : Type 0 where
  accept block_memory escalate_memory : ℕ → MemoryAnswer

-- The keyword arguments; `settings` has the subject, the weight of unbound roots and the freshness.
pub record Ask : Type 0 where
  pub proceed_side : ℕ
  pub min_flip_budget : ℕ
  pub min_conversions_to_reverse : Option ℕ
  pub settings : Settings
  pub memory_evidence : Option MemoryAnswer
  pub evidence_request_policy : Option EvidenceRequestPolicy
  pub prior_evidence_request : Option EvidenceRequest
  pub action_digest : ℕ

pub data SelectiveError : Type 0 where
  prior_without_policy request_arguments_missing too_many_items conversions_not_positive :
      SelectiveError
  from_request : RequestError → SelectiveError
  from_gate : GateError → SelectiveError
