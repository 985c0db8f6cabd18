-- ===== src/Selective/Requests.antt =====
-- What the ladder asks for: a request for evidence comes with the next challenge of the policy's
-- budget, one round after the prior one (minority_prophet/selective_hybrid.py).
use minority_prophet_gate.Base.{
  ℕ, ◌+◌, ◌≡◌, ◌≤◌, ◌<◌, refl, subst, false, Option, none, some, List, arith, is_none, ltb, ◌==◌,
  Outcome, ok, raised, inl, inr, Option-cases, Outcome-cases, Bool-cases, length,
}
use minority_prophet_gate.GateTypes.{GateAction, Reason}
use minority_prophet_gate.Adapter.Envelope.{Envelope, Verifier}
use minority_prophet_gate.Gate.Assess.{EvidenceAssessment, assess}
use minority_prophet_gate.Request.Policy.{RequestError, EvidenceRequestPolicy}
use minority_prophet_gate.Request.Challenge.{Host, EvidenceRequest, issue_evidence_request}
use minority_prophet_gate.Selective.Types.{
  DeterministicDecision, SelectiveDecision, SelectiveError, PrimaryAction, deny, review, allow, Ask,
  MemoryAnswer, accept, block_memory, escalate_memory,
}
use minority_prophet_gate.Selective.Ladder.{
  collected, unresolved, by_verdict, by_conversions, on_assessment, by_evidence, by_memory,
  review_evidence, by_primary, selective_decide, check_arguments, check_conversions,
  subject_or_empty,
}

-- The round of a request, and 0 before the first.
abbrev pub round_of : Option EvidenceRequest → ℕ
round_of none = 0
round_of (some r) = r.payload.round

module _ (host : Host) (policy : EvidenceRequestPolicy) (rounds : 1 ≤ policy.max_rounds) where
  pub issue-round :
      (action subject pid reason : ℕ) (previous : Option EvidenceRequest) (r : EvidenceRequest)
      → issue_evidence_request host policy action subject pid reason previous ≡ ok r
      → (r.payload.round ≡ round_of previous + 1) × (round_of previous < policy.max_rounds)
  unfolding issue_evidence_request
  issue-round action subject pid reason none r h = ground arith
  issue-round action subject pid reason (some q) r h = ground arith

-- A decision that requests evidence carries the challenge of the next round.
abbrev pub AsksNext : EvidenceRequestPolicy → Option EvidenceRequest → SelectiveDecision → Type 0
AsksNext policy prior d =
    d.action ≡ GateAction.request_evidence
    → (is_none d.evidence_request ≡ false)
      × (round_of d.evidence_request ≡ round_of prior + 1)
      × (round_of prior < policy.max_rounds)

abbrev pub Returns :
    (SelectiveDecision → Type 0) → Outcome SelectiveError SelectiveDecision → Type 0
Returns P (ok d) = P d
Returns P (raised e) = Unit

module _ (host : Host) (ask : Ask) (primary : DeterministicDecision)
    (policy : EvidenceRequestPolicy) (asked : ask.evidence_request_policy ≡ some policy)
    (rounds : 1 ≤ policy.max_rounds) where
  abbrev Good : Outcome SelectiveError SelectiveDecision → Type 0
  Good = Returns (AsksNext policy ask.prior_evidence_request)

  collected-Good :
      (reason : Reason) (code : ℕ) (a : Option EvidenceAssessment)
      (out : Outcome RequestError EvidenceRequest)
      → issue_evidence_request host policy ask.action_digest
          (subject_or_empty ask.settings.decision_subject)
          primary.policy_id
          code
          ask.prior_evidence_request
        ≡ out
      → Good (collected reason a out)
  unfolding collected
  collected-Good reason code a (ok r) e = ground (
    arith,
    issue-round host policy rounds ask.action_digest
        (subject_or_empty ask.settings.decision_subject) primary.policy_id code
        ask.prior_evidence_request r e,
  )
  collected-Good reason code a (raised RequestError.exhausted) e = λ h. cc
  collected-Good reason code a (raised _) e = tt

  unresolved-Good :
      (reason : Reason) (code : ℕ) (a : Option EvidenceAssessment)
      → Good (unresolved host ask primary reason code a)
  unfolding unresolved
  unresolved-Good reason code a = rw (asked, unresolved) (collected-Good reason code a _ refl)

  by_verdict-Good :
      (a : EvidenceAssessment) (side : ℕ) → Good (ok (by_verdict host ask primary a side))
  unfolding by_verdict
  by_verdict-Good a side = elim (Bool-cases (side == ask.proceed_side)) [
    | inl e ↦ rw (e, by_verdict) (λ h. cc)
    | inr e ↦ rw (e, by_verdict) (λ h. cc)
  ]

  by_conversions-Good :
      (a : EvidenceAssessment) (side : ℕ) → Good (by_conversions host ask primary a side)
  unfolding by_conversions
  by_conversions-Good a side = elim (Option-cases ask.min_conversions_to_reverse) [
    | inl e ↦ rw (e, by_conversions) (by_verdict-Good a side)
    | inr (k, e) ↦ elim (Option-cases a.conversions_to_reverse) [
      | inl f ↦ rw (e, by_conversions) (rw (f, by_conversions) (unresolved-Good _ _ _))
      | inr (c, f) ↦ elim (Bool-cases (ltb c k)) [
        | inl t ↦ rw (e, f, t, by_conversions) (unresolved-Good _ _ _)
        | inr t ↦ rw (e, f, t, by_conversions) (by_verdict-Good a side)
      ]
    ]
  ]

  on_assessment-Good : (a : EvidenceAssessment) → Good (on_assessment host ask primary a)
  unfolding on_assessment
  on_assessment-Good a = elim (Option-cases a.verdict) [
    | inl e ↦ rw (e, on_assessment) (unresolved-Good _ _ _)
    | inr (side, e) ↦ elim (Bool-cases (ltb a.flip_budget ask.min_flip_budget)) [
      | inl t ↦ rw (e, t, on_assessment) (unresolved-Good _ _ _)
      | inr t ↦ rw (e, t, on_assessment) (by_conversions-Good a side)
    ]
  ]

  by_evidence-Good :
      (verifier : Verifier) (envs : List Envelope)
      → Good (by_evidence host ask primary verifier envs)
  unfolding by_evidence
  by_evidence-Good verifier envs = elim (Outcome-cases (assess 0 ask.settings verifier envs)) [
    | inl (a, e) ↦ rw (e, by_evidence) (on_assessment-Good a)
    | inr (f, e) ↦ rw (e, by_evidence) tt
  ]

  by_memory-Good :
      (m : Option MemoryAnswer) (verifier : Verifier) (envs : List Envelope)
      → Good (by_memory host ask primary m verifier envs)
  unfolding by_memory
  by_memory-Good none verifier envs = by_evidence-Good verifier envs
  by_memory-Good (some (accept t)) verifier envs = by_evidence-Good verifier envs
  by_memory-Good (some (block_memory t)) verifier envs = λ h. cc
  by_memory-Good (some (escalate_memory t)) verifier envs = unresolved-Good _ _ _

  review_evidence-Good :
      (verifier : Verifier) (envs : List Envelope)
      → Good (review_evidence host ask primary verifier envs)
  unfolding review_evidence
  review_evidence-Good verifier envs =
      elim (Outcome-cases (check_arguments host ask primary (length envs))) [
        | inr (f, e) ↦ rw (e, review_evidence) tt
        | inl (_, e) ↦ elim (Outcome-cases (check_conversions host ask primary)) [
          | inr (f, g) ↦ rw (e, g, review_evidence) tt
          | inl (_, g) ↦
              rw (e, g, review_evidence) (by_memory-Good ask.memory_evidence verifier envs)
        ]
      ]

  by_primary-Good :
      (p : PrimaryAction) (verifier : Verifier) (envs : List Envelope)
      → Good (by_primary host ask primary p verifier envs)
  unfolding by_primary
  by_primary-Good deny verifier envs = λ h. cc
  by_primary-Good review verifier envs = review_evidence-Good verifier envs
  by_primary-Good allow verifier envs = elim (Bool-cases primary.evidence_sensitive) [
    | inl e ↦ rw (e, by_primary) (review_evidence-Good verifier envs)
    | inr e ↦ rw (e, by_primary) (λ h. cc)
  ]

  -- Under a request policy with at least one round, whatever the evidence and the memory, a
  -- decision that requests evidence carries a challenge, of the round after the prior one and within
  -- the policy's budget.
  pub decide-AsksNext :
      (verifier : Verifier) (envs : List Envelope) (d : SelectiveDecision)
      → selective_decide host ask primary verifier envs ≡ ok d
      → AsksNext policy ask.prior_evidence_request d
  unfolding selective_decide
  decide-AsksNext verifier envs d h = subst Good h (by_primary-Good primary.action verifier envs)
