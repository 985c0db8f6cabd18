-- ===== src/Gate/Assess.antt =====
-- gate.py: EvidenceAssessment, `assess` and `assess_bounds`.
use minority_prophet_gate.Base.{
  ℕ, ◌+◌, max, Bool, true, ◌&&◌, Option, none, some, List, [], ◌∷◌, ◌==◌, ltb, same, if◌then◌else◌,
  elem, length, Outcome, ok, raised, ◌>>=◌,
}
use minority_prophet_gate.GateTypes.{
  one, Ratio, Diagnostics, no_diagnostics, no_verifiable_claims, no_bound_roots, evidence_balanced,
}
use minority_prophet_gate.Aggregator.Graph.{Claim, GraphError}
use minority_prophet_gate.Aggregator.Tally.{Verdict, roots_at}
use minority_prophet_gate.Aggregator.Attack.{Aggregate, aggregate}
use minority_prophet_gate.Adapter.Envelope.{Envelope, Verifier, to_bit}
use minority_prophet_gate.Adapter.Depth.{AdapterError, GivenWeights, given}
use minority_prophet_gate.Adapter.Intake.{Settings, AdapterReport, envelopes_to_claims}

pub data GateError : Type 0 where
  from_adapter : AdapterError → GateError
  from_graph : GraphError → GateError

abbrev pub lift_adapter : {A : Type 0} → Outcome AdapterError A → Outcome GateError A
lift_adapter (ok a) = ok a
lift_adapter (raised e) = raised (from_adapter e)

abbrev pub lift_graph : {A : Type 0} → Outcome GraphError A → Outcome GateError A
lift_graph (ok a) = ok a
lift_graph (raised e) = raised (from_graph e)

pub record EvidenceAssessment : Type 0 where
  pub verdict : Option ℕ
  pub flip_budget : ℕ
  pub confidence : Ratio
  pub roots_for : ℕ
  pub roots_against : ℕ
  pub diagnostics : Diagnostics
  pub conversions_to_reverse : Option ℕ
  pub flip_budget_upper : Option ℕ

-- `depth_determined`
abbrev pub depth_determined : EvidenceAssessment → Bool
depth_determined a = elim a.flip_budget_upper [ none ↦ true | some u ↦ u == a.flip_budget ]

-- The answer that rests on no root.
abbrev pub unresolved : Diagnostics → EvidenceAssessment
unresolved diag = record {
  verdict = none;
  flip_budget = 0;
  confidence = record { num = 1; den = 2 };
  roots_for = 0;
  roots_against = 0;
  diagnostics = diag;
  conversions_to_reverse = none;
  flip_budget_upper = none;
}

unfoldable pub claims_in : List ℕ → List Claim → List Claim
claims_in ids [] = []
claims_in ids (c ∷ cs) = let rest = claims_in ids cs in if elem c.id ids then c ∷ rest else rest

-- `weights.get(root, 1.0)`, the last claim of an id counting
unfoldable pub claim_weight : List Claim → ℕ → ℕ → ℕ
claim_weight [] r w = w
claim_weight (c ∷ cs) r w = claim_weight cs r (if c.id == r then c.weight else w)

-- The roots of a side that weigh anything.
unfoldable pub positive_roots : List Claim → List ℕ → ℕ
unfolding claim_weight
positive_roots claims [] = 0
positive_roots claims (r ∷ rs) =
    (if ltb 0 (claim_weight claims r one) then 1 else 0) + positive_roots claims rs

-- The diagnostics of a verdict on the claims of a report.
abbrev pub verdict_diagnostics : Settings → AdapterReport → Aggregate → Diagnostics
verdict_diagnostics st rep v = record no_diagnostics {
  subject = st.decision_subject;
  immunity_applicable = some v.verdict.immunity_applicable;
  conversions_to_reverse = v.price.conversions_to_reverse;
  conversions_to_abstention = v.price.conversions_to_abstention;
  quarantined = some (length rep.quarantined);
}

-- The end of `assess`, with the margin that prices the verdict.
unfoldable pub conclude : AdapterReport → Verdict → ℕ → Diagnostics → EvidenceAssessment
unfolding positive_roots
conclude rep v strength diag = record {
  verdict = v.decision;
  flip_budget = strength;
  confidence = v.confidence;
  roots_for = positive_roots rep.claims (roots_at 1 v.roots);
  roots_against = positive_roots rep.claims (roots_at 0 v.roots);
  diagnostics = elim v.decision [
    | none ↦ record diag { reason = some evidence_balanced }
    | some _ ↦ diag
  ];
  conversions_to_reverse = diag.conversions_to_reverse;
  flip_budget_upper = none;
}

-- With a subject, margin and conversion prices are those of the bound claims alone.
unfoldable pub assess_bound :
    AdapterReport → Verdict → Diagnostics → List Claim → Outcome GateError EvidenceAssessment
unfolding conclude
assess_bound rep v diag [] = ok (unresolved (record diag { reason = some no_bound_roots }))
assess_bound rep v diag (c ∷ cs) = lift_graph (aggregate 0 true (c ∷ cs)) >>= λ bound. ok (
    conclude rep v bound.verdict.margin (record diag {
      conversions_to_reverse = bound.price.conversions_to_reverse;
      conversions_to_abstention = bound.price.conversions_to_abstention;
    }))

unfoldable pub assess_report :
    ℕ → Settings → AdapterReport → List Claim → Outcome GateError EvidenceAssessment
unfolding assess_bound claims_in conclude
assess_report abstain st rep [] = ok (
    unresolved (record no_diagnostics {
      reason = some no_verifiable_claims;
      quarantined = some (length rep.quarantined);
    }))
assess_report abstain st rep (c ∷ cs) = lift_graph (aggregate abstain true (c ∷ cs)) >>= λ v.
    let diag = verdict_diagnostics st rep v in
    elim st.decision_subject [
      | none ↦ ok (conclude rep v.verdict v.verdict.margin diag)
      | some _ ↦ assess_bound rep v.verdict diag (claims_in rep.bound_root_ids rep.claims)
    ]

-- `assess(envelopes, verifier, ...)`; the abstention margin is in millionths.
unfoldable pub assess :
    ℕ → Settings → Verifier → List Envelope → Outcome GateError EvidenceAssessment
unfolding envelopes_to_claims assess_report
assess abstain st verifier envs =
    lift_adapter (envelopes_to_claims to_bit st verifier envs) >>= λ rep.
    assess_report abstain st rep rep.claims

pub record Bounds : Type 0 where
  pub low : EvidenceAssessment
  pub flip_budget_bounds : Option (ℕ × ℕ)
  pub verdict_bounds : Option (Option ℕ × Option ℕ)
  pub determined : Option Bool

-- The highest weight of a stated rung.
abbrev pub highest : GivenWeights → ℕ
highest w = max (given w.reality) (
    max (given w.method)
      (max (given w.replication) (max (given w.raw) (max (given w.analysis) (given w.text_only)))))

-- Unstated depth is read at both ends of its range.
unfoldable pub assess_bounds : ℕ → Settings → Verifier → List Envelope → Outcome GateError Bounds
unfolding assess
assess_bounds abstain st verifier envs = elim st.depth_weights [
  | none ↦ assess abstain st verifier envs >>= λ a.
      ok (record { low = a; flip_budget_bounds = none; verdict_bounds = none; determined = none })
  | some w ↦ do
    low ← assess abstain st verifier envs
    high ←
        assess abstain
          (record st { depth_weights = some (record w { unstated = some (highest w) }) }) verifier
          envs
    ok (record {
      low = record low { flip_budget_upper = some high.flip_budget };
      flip_budget_bounds = some (low.flip_budget, high.flip_budget);
      verdict_bounds = some (low.verdict, high.verdict);
      determined = some (low.flip_budget == high.flip_budget && same low.verdict high.verdict);
    })
]
