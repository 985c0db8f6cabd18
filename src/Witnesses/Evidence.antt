-- ===== src/Witnesses/Evidence.antt =====
-- Runs of the aggregation and of the Gate.
use minority_prophet_gate.Base.{
  ℕ, List, All, ◌≡◌, refl, true, false, none, some, [], ◌∷◌, ◌++◌, Outcome, ok, raised,
}
use minority_prophet_gate.GateTypes.{no_diagnostics, one, GateAction, GateDecision}
use minority_prophet_gate.Aggregator.Graph.{GraphError, build, index_from}
use minority_prophet_gate.Aggregator.Tally.{Verdict, tally}
use minority_prophet_gate.Aggregator.Winner.{Decides, tally-Decides}
use minority_prophet_gate.Aggregator.Roots.{Builds, build-Builds}
use minority_prophet_gate.Aggregator.Copies.{Agrees, tally-copy}
use minority_prophet_gate.Adapter.Envelope.{Envelope, to_bit, trust_all}
use minority_prophet_gate.Adapter.Depth.{stated_depth}
use minority_prophet_gate.Adapter.Lineage.{Record, Records, judged}
use minority_prophet_gate.Adapter.Settled.{IsConsistent, judged-IsConsistent}
use minority_prophet_gate.Aggregator.Attack.{aggregate}
use minority_prophet_gate.Gate.Assess.{unresolved, GateError, EvidenceAssessment, assess}
use minority_prophet_gate.Gate.Decide.{true_unless_false, decide}
use minority_prophet_gate.Gate.Immunity.{assess-Immune}
use minority_prophet_gate.Gate.Verdicts.{Answers, decide-Answers}
use minority_prophet_gate.Witnesses.Samples.{
  plain_attest, root_claim, derived_claim, three_roots, envelope, settings, decision_to,
}

abbrev verdict_of : Outcome GraphError Verdict → Verdict
verdict_of (ok v) = v
verdict_of (raised _) = record {
  decision = none;
  confidence = record { num = 0; den = 1 };
  roots = [];
  margin = 0;
  root_mass = [];
  ranked_margins = [];
  n_claims = 0;
  n_roots = 0;
  n_values = 0;
  value_consistency_violations = 0;
  immunity_applicable = false;
  flip_budget = 0;
  flip_budget_is_root_count = false;
}

abbrev sample_verdict : Verdict
unfolding tally
sample_verdict = verdict_of (tally 0 true three_roots)

tally-Decides_example :
    Decides 0 sample_verdict.flip_budget sample_verdict.root_mass sample_verdict.decision
unfolding tally
tally-Decides_example = tally-Decides 0 true three_roots sample_verdict refl

-- The sample's verdict: one root more for 1 than for 0.
sample_run : (sample_verdict.decision ≡ some 1) × (sample_verdict.flip_budget ≡ one)
unfolding tally
sample_run = (refl, refl)

build-Builds_example : Builds (build (derived_claim 4 1 5 ∷ derived_claim 5 1 4 ∷ []))
build-Builds_example = build-Builds (derived_claim 4 1 5 ∷ derived_claim 5 1 4 ∷ [])

tally-copy_example : Agrees (tally 0 true (three_roots ++ derived_claim 4 1 2 ∷ [])) sample_verdict
unfolding tally index_from
tally-copy_example =
    tally-copy 0 true three_roots sample_verdict (derived_claim 4 1 2) 2 (root_claim 2 1) refl refl
      refl refl refl

-- A probe, an echo of it, and an echo that contradicts it.
abbrev echoes : List Envelope
echoes =
    envelope 7 true
    ∷ record (envelope 8 true) { attest = record plain_attest { derived_from = some 7 } }
    ∷ record (envelope 9 false) { attest = record plain_attest { derived_from = some 7 } }
    ∷ []

abbrev assessment_of : Outcome GateError EvidenceAssessment → EvidenceAssessment
assessment_of (ok a) = a
assessment_of (raised _) = unresolved no_diagnostics

abbrev sample_assessment : Outcome GateError EvidenceAssessment
unfolding assess
sample_assessment = assess 0 settings trust_all echoes

-- One probe says safe.
abbrev sample_decision : Outcome GateError GateDecision
unfolding decide
sample_decision = decide 1 one 0 settings trust_all (envelope 7 true ∷ [])

abbrev decision_of : Outcome GateError GateDecision → GateDecision
decision_of (ok d) = d
decision_of (raised _) = decision_to GateAction.escalate

decide-Answers_example :
    (a : EvidenceAssessment) × (assess 0 settings trust_all (envelope 7 true ∷ []) ≡ ok a)
    × Answers 1 one a (decision_of sample_decision).action
unfolding decide to_bit trust_all aggregate tally stated_depth
decide-Answers_example =
    decide-Answers 1 one 0 settings trust_all (envelope 7 true ∷ []) (decision_of sample_decision)
      refl

-- One root is enough for a budget of one.
sample_proceeds : (decision_of sample_decision).action ≡ GateAction.proceed
unfolding decide to_bit trust_all aggregate tally stated_depth
sample_proceeds = refl

-- A claim that echoes the first one, one that contradicts it, and an echo of the contradiction.
abbrev echo : ℕ → ℕ → ℕ → ℕ × Record
echo cid bit parent = (
  cid,
  record {
    env = envelope cid true;
    assertion = bit;
    attest = plain_attest;
    parent = some parent;
    subject = none;
    depth = none;
  },
)

abbrev sample_records : Records
sample_records =
    (1, record (echo 1 1 0).1 { parent = none }) ∷ echo 4 0 3 ∷ echo 2 1 1 ∷ echo 3 0 1 ∷ []

judged-IsConsistent_example :
    ((judged sample_records).changed ≡ false)
    × All (IsConsistent sample_records (judged sample_records).rejected) sample_records
judged-IsConsistent_example = judged-IsConsistent sample_records

-- The second sweep rejects the echo of what the first rejected.
sample_rejected : (judged sample_records).rejected ≡ 4 ∷ 3 ∷ []
unfolding judged
sample_rejected = refl

assess-Immune_example :
    true_unless_false (assessment_of sample_assessment).diagnostics.immunity_applicable ≡ true
unfolding assess to_bit trust_all aggregate tally stated_depth
assess-Immune_example =
    assess-Immune 0 settings trust_all echoes (assessment_of sample_assessment) refl
