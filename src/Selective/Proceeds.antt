-- ===== src/Selective/Proceeds.antt =====
-- When the ladder lets an action proceed (minority_prophet/selective_hybrid.py).
use minority_prophet_gate.Base.{
  ℕ, ◌≡◌, ◌≤◌, ◌⊎◌, refl, sym, subst, false, Option, none, some, List, arith, ltb, ◌==◌, Outcome,
  ok, raised, inl, inr, Option-cases, Outcome-cases, Bool-cases, length,
}
use minority_prophet_gate.GateTypes.{
  GateAction, Reason, stated, conversion_unavailable, conversion_below,
}
use minority_prophet_gate.Adapter.Envelope.{Envelope, Verifier}
use minority_prophet_gate.Gate.Assess.{EvidenceAssessment, assess}
use minority_prophet_gate.Request.Policy.{RequestError}
use minority_prophet_gate.Request.Challenge.{Host, EvidenceRequest}
use minority_prophet_gate.Selective.Types.{
  DeterministicDecision, SelectiveDecision, SelectiveError, PrimaryAction, deny, review, allow, Ask,
  MemoryAnswer, accept, block_memory, escalate_memory, deterministic,
}
use minority_prophet_gate.Selective.Ladder.{
  final, conversion_missing, conversion_low, collected, unresolved, by_verdict, by_conversions,
  on_assessment, by_evidence, by_memory, review_evidence, by_primary, selective_decide,
  check_arguments, check_conversions,
}
use minority_prophet_gate.Selective.Requests.{Returns}

-- Enough roots would have to be compromised, where the policy asks for that.
abbrev pub Resists : Option ℕ → Option ℕ → Type 0
Resists none c = Unit
Resists (some k) none = ⊥
Resists (some k) (some c) = k ≤ c

-- The assessment favours the action at the prices that the policy sets.
abbrev pub Supports : Ask → Option EvidenceAssessment → Type 0
Supports ask none = ⊥
Supports ask (some a) =
    (a.verdict ≡ some ask.proceed_side)
    × (ask.min_flip_budget ≤ a.flip_budget)
    × Resists ask.min_conversions_to_reverse a.conversions_to_reverse

-- A proceed rests on an allow that asks for no evidence, or on an assessment.
abbrev pub IsJustified : Ask → DeterministicDecision → SelectiveDecision → Type 0
IsJustified ask primary d =
    d.action ≡ GateAction.proceed
    → ((primary.action ≡ allow) × (primary.evidence_sensitive ≡ false)) ⊎ Supports ask d.assessment

module _ (host : Host) (ask : Ask) (primary : DeterministicDecision) where
  abbrev Good : Outcome SelectiveError SelectiveDecision → Type 0
  Good = Returns (IsJustified ask primary)

  collected-Good :
      (reason : Reason) (a : Option EvidenceAssessment) (out : Outcome RequestError EvidenceRequest)
      → Good (collected reason a out)
  unfolding collected
  collected-Good reason a (ok r) = λ h. cc
  collected-Good reason a (raised RequestError.exhausted) = λ h. cc
  collected-Good reason a (raised _) = tt

  unresolved-Good :
      (reason : Reason) (code : ℕ) (a : Option EvidenceAssessment)
      → Good (unresolved host ask primary reason code a)
  unfolding unresolved
  unresolved-Good reason code a = elim (Option-cases ask.evidence_request_policy) [
    | inl e ↦ rw (e, unresolved) (λ h. cc)
    | inr (p, e) ↦ rw (e, unresolved) (collected-Good reason a _)
  ]

  by_verdict-Good :
      (a : EvidenceAssessment) (side : ℕ)
      → a.verdict ≡ some side
      → ask.min_flip_budget ≤ a.flip_budget
      → Resists ask.min_conversions_to_reverse a.conversions_to_reverse
      → Good (ok (by_verdict host ask primary a side))
  unfolding by_verdict
  by_verdict-Good a side v f r = elim (Bool-cases (side == ask.proceed_side)) [
    | inl e ↦ rw (e, by_verdict) (λ h. inr (ground arith, f, r))
    | inr e ↦ rw (e, by_verdict) (λ h. cc)
  ]

  by_conversions-Good :
      (a : EvidenceAssessment) (side : ℕ)
      → a.verdict ≡ some side
      → ask.min_flip_budget ≤ a.flip_budget
      → Good (by_conversions host ask primary a side)
  unfolding by_conversions
  by_conversions-Good a side v f = elim (Option-cases ask.min_conversions_to_reverse) [
    | inl e ↦
        let p : by_conversions host ask primary a side ≡ ok (by_verdict host ask primary a side) =
          ground arith in
        subst Good (sym p) (by_verdict-Good a side v f (rw e tt))
    | inr (k, e) ↦ elim (Option-cases a.conversions_to_reverse) [
      | inl g ↦
          let p : by_conversions host ask primary a side
              ≡ unresolved host ask primary conversion_unavailable conversion_missing (some a) =
            simp (e, g, by_conversions) in
          subst Good (sym p) (unresolved-Good _ _ _)
      | inr (c, g) ↦ elim (Bool-cases (ltb c k)) [
        | inl t ↦
            let p : by_conversions host ask primary a side
                ≡ unresolved host ask primary conversion_below conversion_low (some a) =
              simp (e, g, t, by_conversions) in
            subst Good (sym p) (unresolved-Good _ _ _)
        | inr t ↦
            let p : by_conversions host ask primary a side
                ≡ ok (by_verdict host ask primary a side) =
              simp (e, g, t, by_conversions) in
            subst Good (sym p) (by_verdict-Good a side v f (rw (e, g) (ground arith)))
      ]
    ]
  ]

  on_assessment-Good : (a : EvidenceAssessment) → Good (on_assessment host ask primary a)
  unfolding on_assessment
  on_assessment-Good a = elim (Option-cases a.verdict) [
    | inl e ↦ rw (e, on_assessment) (unresolved-Good _ _ _)
    | inr (side, e) ↦ elim (Bool-cases (ltb a.flip_budget ask.min_flip_budget)) [
      | inl t ↦ rw (e, t, on_assessment) (unresolved-Good _ _ _)
      | inr t ↦ rw (e, t, on_assessment) (by_conversions-Good a side e (ground arith))
    ]
  ]

  by_evidence-Good :
      (verifier : Verifier) (envs : List Envelope)
      → Good (by_evidence host ask primary verifier envs)
  unfolding by_evidence
  by_evidence-Good verifier envs = elim (Outcome-cases (assess 0 ask.settings verifier envs)) [
    | inl (a, e) ↦ rw (e, by_evidence) (on_assessment-Good a)
    | inr (f, e) ↦ rw (e, by_evidence) tt
  ]

  by_memory-Good :
      (m : Option MemoryAnswer) (verifier : Verifier) (envs : List Envelope)
      → Good (by_memory host ask primary m verifier envs)
  unfolding by_memory
  by_memory-Good none verifier envs = by_evidence-Good verifier envs
  by_memory-Good (some (accept t)) verifier envs = by_evidence-Good verifier envs
  by_memory-Good (some (block_memory t)) verifier envs = λ h. cc
  by_memory-Good (some (escalate_memory t)) verifier envs = unresolved-Good _ _ _

  review_evidence-Good :
      (verifier : Verifier) (envs : List Envelope)
      → Good (review_evidence host ask primary verifier envs)
  unfolding review_evidence
  review_evidence-Good verifier envs =
      elim (Outcome-cases (check_arguments host ask primary (length envs))) [
        | inr (f, e) ↦ rw (e, review_evidence) tt
        | inl (_, e) ↦ elim (Outcome-cases (check_conversions host ask primary)) [
          | inr (f, g) ↦ rw (e, g, review_evidence) tt
          | inl (_, g) ↦
              rw (e, g, review_evidence) (by_memory-Good ask.memory_evidence verifier envs)
        ]
      ]

  by_primary-Good :
      (p : PrimaryAction) (verifier : Verifier) (envs : List Envelope)
      → primary.action ≡ p
      → Good (by_primary host ask primary p verifier envs)
  unfolding by_primary
  by_primary-Good deny verifier envs q = λ h. cc
  by_primary-Good review verifier envs q = review_evidence-Good verifier envs
  by_primary-Good allow verifier envs q = elim (Bool-cases primary.evidence_sensitive) [
    | inl e ↦
        let p : by_primary host ask primary allow verifier envs
            ≡ review_evidence host ask primary verifier envs =
          simp (e, by_primary) in
        subst Good (sym p) (review_evidence-Good verifier envs)
    | inr e ↦
        let d = final GateAction.proceed deterministic (stated primary.reason) none in
        let p : by_primary host ask primary allow verifier envs ≡ ok d = simp (e, by_primary) in
        subst Good (sym p) (λ h. inl (q, e))
  ]

  -- Whatever the evidence, the memory and the request policy, a proceed comes only from a
  -- deterministic allow that is not sensitive to evidence, or from an assessment that favours the
  -- side of proceeding with at least the flip budget and, where asked for, the conversion price that
  -- the policy requires.
  pub decide-justified :
      (verifier : Verifier) (envs : List Envelope) (d : SelectiveDecision)
      → selective_decide host ask primary verifier envs ≡ ok d
      → d.action ≡ GateAction.proceed
      → ((primary.action ≡ allow) × (primary.evidence_sensitive ≡ false))
        ⊎ Supports ask d.assessment
  unfolding selective_decide
  decide-justified verifier envs d h =
      subst Good h (by_primary-Good primary.action verifier envs refl)
