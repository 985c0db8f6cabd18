-- ===== src/Selective/Ladder.antt =====
-- selective_hybrid.py: `_unresolved` and `selective_decide`.
use minority_prophet_gate.Base.{
  ℕ, not, ◌||◌, Option, none, some, List, ◌==◌, ltb, is_none, if◌then◌else◌, length, Outcome, ok,
  raised, ◌>>=◌, ◌>>◌, raise_if,
}
use minority_prophet_gate.GateTypes.{
  GateAction, Reason, stated, evidence_unresolved, margin_below_policy, conversion_unavailable,
  conversion_below, satisfies_policy, contradicts_action, memory_evidence, evidence_balanced,
}
use minority_prophet_gate.GateTypes as GateTypes
use minority_prophet_gate.Adapter.Envelope.{Envelope, Verifier}
use minority_prophet_gate.Gate.Assess.{GateError, EvidenceAssessment, assess}
use minority_prophet_gate.Request.Policy.{RequestError, EvidenceRequestPolicy}
use minority_prophet_gate.Request.Policy as Policy
use minority_prophet_gate.Request.Challenge.{
  Host, EvidenceRequest, validate_evidence_return, issue_evidence_request,
}
use minority_prophet_gate.Selective.Types.{
  PrimaryAction, allow, deny, review, DeterministicDecision, SelectiveDecision, Route,
  deterministic, evidence, evidence_collection, human, MemoryAnswer, block_memory, escalate_memory,
  Ask, SelectiveError, prior_without_policy, request_arguments_missing, too_many_items,
  conversions_not_positive, from_request, from_gate,
}

abbrev pub lift_request : {A : Type 0} → Outcome RequestError A → Outcome SelectiveError A
lift_request (ok a) = ok a
lift_request (raised e) = raised (from_request e)

abbrev pub lift_gate : {A : Type 0} → Outcome GateError A → Outcome SelectiveError A
lift_gate (ok a) = ok a
lift_gate (raised e) = raised (from_gate e)

abbrev pub final : GateAction → Route → Reason → Option EvidenceAssessment → SelectiveDecision
final action route reason assessment = record {
  action = action;
  route = route;
  reason = reason;
  assessment = assessment;
  evidence_request = none;
}

-- The texts that `_unresolved` is given as reason codes.
abbrev pub memory_unresolved : ℕ
memory_unresolved = 1

abbrev pub balanced : ℕ
balanced = 2

abbrev pub missing_evidence : ℕ
missing_evidence = 3

abbrev pub thin : ℕ
thin = 4

abbrev pub conversion_missing : ℕ
conversion_missing = 5

abbrev pub conversion_low : ℕ
conversion_low = 6

abbrev pub subject_or_empty : Option ℕ → ℕ
subject_or_empty none = 0
subject_or_empty (some s) = s

-- The outcome of issuing a request: a challenge, a human where the budget is used up, or an error.
unfoldable pub collected :
    Reason
    → Option EvidenceAssessment
    → Outcome RequestError EvidenceRequest
    → Outcome SelectiveError SelectiveDecision
collected reason a (ok r) = ok (record {
  action = GateAction.request_evidence;
  route = evidence_collection;
  reason = reason;
  assessment = a;
  evidence_request = some r;
})
collected reason a (raised Policy.RequestError.exhausted) =
    ok (final GateAction.escalate human (GateTypes.Reason.exhausted reason) a)
collected reason a (raised e) = raised (from_request e)

module _ (host : Host) (ask : Ask) (primary : DeterministicDecision) where
  unfoldable pub unresolved :
      Reason → ℕ → Option EvidenceAssessment → Outcome SelectiveError SelectiveDecision
  unfolding collected issue_evidence_request
  unresolved reason code a = elim ask.evidence_request_policy [
    | none ↦ ok (final GateAction.escalate human reason a)
    | some policy ↦ collected reason a (
        issue_evidence_request host policy ask.action_digest
          (subject_or_empty ask.settings.decision_subject) primary.policy_id code
          ask.prior_evidence_request)
  ]

  -- The checks on the arguments that concern requests.
  unfoldable pub check_arguments : ℕ → Outcome SelectiveError (Unit {0})
  unfolding validate_evidence_return
  check_arguments n_envelopes = elim ask.evidence_request_policy [
    | none ↦ raise_if (not (is_none ask.prior_evidence_request)) prior_without_policy
    | some policy ↦
        raise_if
          (ask.action_digest == 0
            || is_none ask.settings.decision_subject
            || primary.policy_id == 0)
          request_arguments_missing
        >> elim ask.prior_evidence_request [
          | none ↦ ok tt
          | some prior ↦
              lift_request (
                validate_evidence_return host prior policy ask.action_digest
                  (subject_or_empty ask.settings.decision_subject) primary.policy_id)
              >> raise_if (ltb prior.payload.max_evidence_items n_envelopes) too_many_items
        ]
  ]

  -- `min_conversions_to_reverse` is None or a positive integer.
  abbrev pub check_conversions : Outcome SelectiveError (Unit {0})
  check_conversions = elim ask.min_conversions_to_reverse [
    | none ↦ ok tt
    | some k ↦ raise_if (ltb k 1) conversions_not_positive
  ]

  -- The end of the ladder: the verdict against the side that proceeds.
  unfoldable pub by_verdict : EvidenceAssessment → ℕ → SelectiveDecision
  by_verdict a side =
      if side == ask.proceed_side
      then final GateAction.proceed evidence satisfies_policy (some a)
      else final GateAction.block evidence contradicts_action (some a)

  unfoldable pub by_conversions : EvidenceAssessment → ℕ → Outcome SelectiveError SelectiveDecision
  unfolding by_verdict unresolved
  by_conversions a side = elim ask.min_conversions_to_reverse [
    | none ↦ ok (by_verdict a side)
    | some k ↦ elim a.conversions_to_reverse [
      | none ↦ unresolved conversion_unavailable conversion_missing (some a)
      | some c ↦
          if ltb c k
          then unresolved conversion_below conversion_low (some a)
          else ok (by_verdict a side)
    ]
  ]

  abbrev pub missing_code : Option Reason → ℕ
  missing_code (some evidence_balanced) = balanced
  missing_code _ = missing_evidence

  unfoldable pub on_assessment : EvidenceAssessment → Outcome SelectiveError SelectiveDecision
  unfolding by_conversions unresolved
  on_assessment a = elim a.verdict [
    | none ↦ unresolved evidence_unresolved (missing_code a.diagnostics.reason) (some a)
    | some side ↦
        if ltb a.flip_budget ask.min_flip_budget
        then unresolved margin_below_policy thin (some a)
        else by_conversions a side
  ]

  unfoldable pub by_evidence : Verifier → List Envelope → Outcome SelectiveError SelectiveDecision
  unfolding on_assessment
  by_evidence verifier envs = lift_gate (assess 0 ask.settings verifier envs) >>= on_assessment

  unfoldable pub by_memory :
      Option MemoryAnswer → Verifier → List Envelope → Outcome SelectiveError SelectiveDecision
  unfolding by_evidence unresolved
  by_memory (some (block_memory t)) verifier envs =
      ok (final GateAction.block evidence (memory_evidence t) none)
  by_memory (some (escalate_memory t)) verifier envs =
      unresolved (memory_evidence t) memory_unresolved none
  by_memory _ verifier envs = by_evidence verifier envs

  -- Every branch after the deterministic ones.
  unfoldable pub review_evidence :
      Verifier → List Envelope → Outcome SelectiveError SelectiveDecision
  unfolding check_arguments by_memory
  review_evidence verifier envs =
      check_arguments (length envs)
      >> check_conversions
      >> by_memory ask.memory_evidence verifier envs

  -- The deterministic branches.
  unfoldable pub by_primary :
      PrimaryAction → Verifier → List Envelope → Outcome SelectiveError SelectiveDecision
  unfolding review_evidence
  by_primary deny verifier envs =
      ok (final GateAction.block deterministic (stated primary.reason) none)
  by_primary review verifier envs = review_evidence verifier envs
  by_primary allow verifier envs =
      if primary.evidence_sensitive
      then review_evidence verifier envs
      else ok (final GateAction.proceed deterministic (stated primary.reason) none)

  unfoldable pub selective_decide :
      Verifier → List Envelope → Outcome SelectiveError SelectiveDecision
  unfolding by_primary
  selective_decide verifier envs = by_primary primary.action verifier envs
