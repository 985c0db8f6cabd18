-- ===== src/Gate/Decide.antt =====
-- gate.py: `decide`.
use minority_prophet_gate.Base.{
  ℕ, Bool, true, not, ◌&&◌, Option, none, some, List, ◌==◌, leb, if◌then◌else◌, Outcome, ok, ◌>>=◌,
}
use minority_prophet_gate.GateTypes.{
  GateAction, GateDecision, Diagnostics, immunity_violated, margin_below_threshold,
}
use minority_prophet_gate.Adapter.Envelope.{Envelope, Verifier}
use minority_prophet_gate.Adapter.Intake.{Settings}
use minority_prophet_gate.Gate.Assess.{GateError, EvidenceAssessment, assess}

abbrev pub decision_on : EvidenceAssessment → GateAction → Diagnostics → GateDecision
decision_on a action diag = record {
  action = action;
  decision = a.verdict;
  flip_budget = a.flip_budget;
  confidence = a.confidence;
  roots_for = a.roots_for;
  roots_against = a.roots_against;
  diagnostics = diag;
  conversions_to_reverse = a.conversions_to_reverse;
}

-- `diagnostics.get("immunity_applicable", True)`
abbrev pub true_unless_false : Option Bool → Bool
true_unless_false none = true
true_unless_false (some b) = b

-- The decision on an assessment.
unfoldable pub gate : ℕ → ℕ → EvidenceAssessment → GateDecision
gate proceed_side min_flip_budget a = elim a.verdict [
  | none ↦ decision_on a GateAction.escalate a.diagnostics
  | some side ↦
      if not (true_unless_false a.diagnostics.immunity_applicable)
      then decision_on a GateAction.escalate
          (record a.diagnostics { reason = some immunity_violated })
      else if side == proceed_side && leb min_flip_budget a.flip_budget
      then decision_on a GateAction.proceed a.diagnostics
      else if side == proceed_side
      then decision_on a GateAction.escalate
          (record a.diagnostics { reason = some margin_below_threshold })
      else decision_on a GateAction.block a.diagnostics
]

unfoldable pub decide :
    ℕ → ℕ → ℕ → Settings → Verifier → List Envelope → Outcome GateError GateDecision
unfolding assess gate
decide proceed_side min_flip_budget abstain st verifier envs =
    assess abstain st verifier envs >>= λ a. ok (gate proceed_side min_flip_budget a)
