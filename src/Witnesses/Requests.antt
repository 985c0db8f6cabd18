-- ===== src/Witnesses/Requests.antt =====
-- Runs of the evidence challenges and of the ladder of the selective decision.
use minority_prophet_gate.Base.{
  ℕ, ◌+◌, ◌≡◌, ◌<◌, ◌⊎◌, refl, true, false, none, some, [], ◌∷◌, arith, Outcome, ok, raised,
}
use minority_prophet_gate.GateTypes.{one, GateAction}
use minority_prophet_gate.Adapter.Envelope.{to_bit, trust_all}
use minority_prophet_gate.Adapter.Depth.{stated_depth}
use minority_prophet_gate.Aggregator.Tally.{tally}
use minority_prophet_gate.Aggregator.Attack.{aggregate}
use minority_prophet_gate.Gate.Assess.{assess}
use minority_prophet_gate.Request.Policy.{
  exhausted, CollectorRoute, program, candidate_evidence, EvidenceRequirement,
  EvidenceRequestPolicy,
}
use minority_prophet_gate.Request.Challenge.{
  Host, EvidenceRequest, challenge, issue_evidence_request, validate_evidence_return,
}
use minority_prophet_gate.Request.Budget.{AreTexts, issue_nth, validate-issue, issue_nth-budget}
use minority_prophet_gate.Selective.Types.{
  Ask, DeterministicDecision, SelectiveDecision, SelectiveError, allow, review, human,
}
use minority_prophet_gate.Selective.Ladder.{selective_decide, final}
use minority_prophet_gate.Selective.Requests.{AsksNext, decide-AsksNext}
use minority_prophet_gate.Selective.Proceeds.{Supports, decide-justified}
use minority_prophet_gate.GateTypes.{collection_failed}
use minority_prophet_gate.Witnesses.Samples.{envelope, settings}

abbrev pub host : Host
host = record { strip = λ t. t; policy_digest = λ p. 5; payload_digest = λ p. 100 + p.round }

abbrev pub route : CollectorRoute
route = record {
  route_id = 1;
  collector_kind = program;
  capability = 2;
  output_role = candidate_evidence;
  allowed_actions = 3 ∷ [];
  requires_independence = false;
}

abbrev pub requirement : EvidenceRequirement
requirement = record {
  requirement_id = 4;
  description = 5;
  collector_route = route;
  accepted_kinds = 6 ∷ [];
}

abbrev pub policy : EvidenceRequestPolicy
policy = record {
  requirements = requirement ∷ [];
  max_rounds = 2;
  max_evidence_items_per_round = 3;
}

abbrev pub first : EvidenceRequest
first = record {
  challenge_id = 101;
  payload = challenge host policy 21 22 23 24 (1, none);
  grants_authority = false;
}

validate-issue_example : validate_evidence_return host first policy 21 22 23 ≡ ok tt
unfolding issue_evidence_request
validate-issue_example =
    validate-issue host policy 21 22 23 24 none first (λ t. refl) (omega arith) refl

texts : AreTexts host policy 21 22 23 24
texts = record {
  stripped = λ t. refl;
  action_text = λ h. ground arith;
  subject_text = λ h. ground arith;
  policy_text = λ h. ground arith;
  reason_text = λ h. ground arith;
}

issue_nth-budget_example :
    ((n : ℕ)
      → n < 2
      → (r : EvidenceRequest) × (issue_nth host policy 21 22 23 24 n ≡ ok r)
        × (r.payload.round ≡ n + 1))
    × (issue_nth host policy 21 22 23 24 2 ≡ raised exhausted)
issue_nth-budget_example = issue_nth-budget host policy 21 22 23 24 texts (omega arith)

abbrev primary : DeterministicDecision
primary = record { action = review; reason = 8; evidence_sensitive = true; policy_id = 23 }

abbrev ask : Ask
ask = record {
  proceed_side = 1;
  min_flip_budget = one;
  min_conversions_to_reverse = none;
  settings = record settings { decision_subject = some 22 };
  memory_evidence = none;
  evidence_request_policy = some policy;
  prior_evidence_request = none;
  action_digest = 21;
}

abbrev decided : Outcome SelectiveError SelectiveDecision → SelectiveDecision
decided (ok d) = d
decided (raised _) = final GateAction.escalate human collection_failed none

-- Without evidence the ladder asks.
abbrev asking : SelectiveDecision
unfolding selective_decide
asking = decided (selective_decide host ask primary trust_all [])

asks : asking.action ≡ GateAction.request_evidence
unfolding selective_decide assess
asks = refl

decide-AsksNext_example : AsksNext policy none asking
unfolding selective_decide assess
decide-AsksNext_example =
    decide-AsksNext host ask primary policy refl (omega arith) trust_all [] asking refl

abbrev unbound : Ask
unbound = record ask { settings = settings; evidence_request_policy = none }

-- One probe that says safe is enough.
abbrev proceeding : SelectiveDecision
unfolding selective_decide
proceeding = decided (selective_decide host unbound primary trust_all (envelope 7 true ∷ []))

decide-justified_example :
    ((primary.action ≡ allow) × (primary.evidence_sensitive ≡ false))
    ⊎ Supports unbound proceeding.assessment
unfolding selective_decide assess to_bit trust_all aggregate tally stated_depth
decide-justified_example =
    decide-justified host unbound primary trust_all (envelope 7 true ∷ []) proceeding refl refl
