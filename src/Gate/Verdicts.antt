-- ===== src/Gate/Verdicts.antt =====
-- What the Gate answers on an assessment, against a description of its answers (minority_prophet/gate.py).
use minority_prophet_gate.Base.{
  ℕ, ◌≡◌, ◌≢◌, ◌≤◌, ◌↔◌, true, some, List, arith, Outcome, ok, raised, inl, inr, refl, subst,
  Option-cases, Outcome-cases,
}
use minority_prophet_gate.GateTypes.{GateAction, GateDecision}
use minority_prophet_gate.Adapter.Envelope.{Envelope, Verifier}
use minority_prophet_gate.Adapter.Intake.{Settings}
use minority_prophet_gate.Gate.Assess.{GateError, EvidenceAssessment, assess}
use minority_prophet_gate.Gate.Decide.{gate, decide, true_unless_false}

-- The action of a call that returned.
abbrev action_of : Outcome GateError GateDecision → GateAction
action_of (ok d) = d.action
action_of (raised _) = GateAction.escalate

-- The evidence favours a side and its copies cannot have moved the verdict.
abbrev pub Favours : EvidenceAssessment → ℕ → Type 0
Favours a side =
    (a.verdict ≡ some side) × (true_unless_false a.diagnostics.immunity_applicable ≡ true)

module _ (side min_flip_budget : ℕ) where
  gate-proceed :
      (a : EvidenceAssessment)
      → ((gate side min_flip_budget a).action ≡ GateAction.proceed)
        ↔ (Favours a side × (min_flip_budget ≤ a.flip_budget))
  unfolding gate
  gate-proceed a = (λ h. ground arith, λ h. ground arith)

  gate-block :
      (a : EvidenceAssessment)
      → ((gate side min_flip_budget a).action ≡ GateAction.block)
        ↔ ((other : ℕ) × Favours a other × (other ≢ side))
  unfolding gate
  gate-block a = (
    λ h. elim (Option-cases a.verdict) [
      | inl undecided ↦ ground arith
      | inr (other, decided) ↦ (other, (ground arith, ground arith), λ same_side. ground arith)
    ],
    λ (other, f, ne). ground arith,
  )

  gate-escalate :
      (a : EvidenceAssessment)
      → (gate side min_flip_budget a).action ≢ GateAction.proceed
      → (gate side min_flip_budget a).action ≢ GateAction.block
      → (gate side min_flip_budget a).action ≡ GateAction.escalate
  unfolding gate
  gate-escalate a np nb = ground arith

  -- What the action of a decision says of the assessment that it was made on.
  abbrev pub Answers : EvidenceAssessment → GateAction → Type 0
  Answers a g =
      ((g ≡ GateAction.proceed) ↔ (Favours a side × (min_flip_budget ≤ a.flip_budget)))
      × ((g ≡ GateAction.block) ↔ ((other : ℕ) × Favours a other × (other ≢ side)))
      × (g ≢ GateAction.proceed → g ≢ GateAction.block → g ≡ GateAction.escalate)

  gate-Answers : (a : EvidenceAssessment) → Answers a (gate side min_flip_budget a).action
  gate-Answers a = (gate-proceed a, gate-block a, gate-escalate a)

  -- The Gate answers from an assessment of the evidence, and otherwise raises: it says proceed exactly when the
  -- assessment favours the side of proceeding with at least the flip budget that is asked for, it
  -- blocks exactly when the assessment favours another side, and it escalates in every other case.
  pub decide-Answers :
      (abstain : ℕ) (st : Settings) (verifier : Verifier) (envs : List Envelope) (d : GateDecision)
      → decide side min_flip_budget abstain st verifier envs ≡ ok d
      → (a : EvidenceAssessment) × (assess abstain st verifier envs ≡ ok a) × Answers a d.action
  unfolding decide
  decide-Answers abstain st verifier envs d =
      elim (Outcome-cases (assess abstain st verifier envs)) [
        | inr (e, raises) ↦ rw (raises, decide) (λ h. cc)
        | inl (a, assessed) ↦
            rw (assessed, decide)
              (λ h. (a, refl, subst (λ r. Answers a (action_of r)) h (gate-Answers a)))
      ]
