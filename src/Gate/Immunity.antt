-- ===== src/Gate/Immunity.antt =====
-- Why the Gate may rely on an assessment (minority_prophet/gate.py): the precondition that its branch
-- on `immunity_applicable` tests holds for every assessment of envelopes.
use minority_prophet_gate.Base.{
  ℕ, ◌≡◌, refl, subst, ap, inl, inr, Bool, true, some, List, [], ◌∷◌, ◌==◌, arith, All, lookup,
  insert, values, Outcome, ok, raised, Option-cases, Outcome-cases, Bool-cases,
}
use minority_prophet_gate.GateTypes.{Diagnostics}
use minority_prophet_gate.Aggregator.Graph.{
  Claim, Claims, GraphError, EvidenceGraph, index_from, build, violations,
}
use minority_prophet_gate.Aggregator.Tally.{Verdict, verdict}
use minority_prophet_gate.Aggregator.Attack.{Aggregate, conversion_attack, aggregate}
use minority_prophet_gate.Aggregator.Filed.{index_from-Ids, All-values, lookup-Ids, All-imp}
use minority_prophet_gate.Aggregator.Copies.{build-Parts}
use minority_prophet_gate.Adapter.Envelope.{Envelope, Verifier, to_bit}
use minority_prophet_gate.Adapter.Intake.{Settings, AdapterReport, envelopes_to_claims}
use minority_prophet_gate.Adapter.Consistent.{Agree, envelopes_to_claims-Agree}
use minority_prophet_gate.Gate.Assess.{
  GateError, EvidenceAssessment, conclude, assess_bound, assess_report, assess, claims_in,
  verdict_diagnostics,
}
use minority_prophet_gate.Gate.Decide.{true_unless_false}

insert-All :
    (P : Claim → Type 0) (k : ℕ) (c : Claim) (g : Claims)
    → P c
    → All P (values g)
    → All P (values (insert k c g))
insert-All P k c [] p all = (p, tt)
insert-All P k c (e ∷ g) p (here, all) = elim (Bool-cases (k == e.0)) [
  | inl yes_it_is ↦ rw yes_it_is (p, all)
  | inr other ↦ rw other (here, insert-All P k c g p all)
]

index_from-All :
    (P : Claim → Type 0) (g : Claims) (cs : List Claim)
    → All P (values g)
    → All P cs
    → All P (values (index_from g cs))
unfolding index_from
index_from-All P g [] old all = old
index_from-All P g (c ∷ cs) old (p, all) =
    index_from-All P (insert c.id c g) cs (insert-All P c.id c g p old) all

-- A claim asserts what its parent in the graph asserts.
abbrev Echoes : Claims → Claim → Type 0
Echoes g c =
    (p : ℕ) (q : Claim) → c.parent ≡ some p → lookup p g ≡ some q → q.assertion ≡ c.assertion

Agree-Echoes :
    (cs : List Claim) → Agree cs cs → All (Echoes (index_from [] cs)) (values (index_from [] cs))
Agree-Echoes cs agree =
    let g = index_from [] cs in
    All-imp (λ c. (p : ℕ) → c.parent ≡ some p → All (λ d. d.id ≡ p → d.assertion ≡ c.assertion) cs)
      (Echoes g) (values g)
      (λ c derives p q below found.
        All-values (λ d. d.id ≡ p → d.assertion ≡ c.assertion) g p q
          (index_from-All (λ d. d.id ≡ p → d.assertion ≡ c.assertion) [] cs tt (derives p below))
          found (lookup-Ids g p q (index_from-Ids [] cs tt) found))
      (index_from-All
        (λ c. (p : ℕ) → c.parent ≡ some p → All (λ d. d.id ≡ p → d.assertion ≡ c.assertion) cs) []
        cs tt agree)

violations-Echoes : (g : Claims) (cs : List Claim) → All (Echoes g) cs → violations g cs ≡ 0
unfolding violations
violations-Echoes g [] all = refl
violations-Echoes g (c ∷ cs) (here, all) =
    let rest = violations-Echoes g cs all in
    elim (Option-cases c.parent) [
      | inl top ↦ ground arith
      | inr (p, below) ↦ elim (Option-cases (lookup p g)) [
        | inl missing ↦ ground arith
        | inr (q, found) ↦ let agrees = here p q below found in ground arith
      ]
    ]

verdict-immune :
    (abstain : ℕ) (use_weights : Bool) (cs : List Claim) (gr : EvidenceGraph)
    → Agree cs cs
    → build cs ≡ ok gr
    → (verdict abstain use_weights gr).immunity_applicable ≡ true
unfolding verdict
verdict-immune abstain use_weights cs gr agree built =
    let (_, _, whole) = build-Parts cs gr built in
    let g = index_from [] cs in
    let clean : violations g (values g) ≡ 0 =
      violations-Echoes g (values g) (Agree-Echoes cs agree) in
    let named : gr.claims ≡ g = ap (λ x. x.claims) whole in rw (named, clean)

abbrev ImmuneAggregate : Outcome GraphError Aggregate → Type 0
ImmuneAggregate (ok v) = v.verdict.immunity_applicable ≡ true
ImmuneAggregate (raised _) = Unit

aggregate-Immune :
    (abstain : ℕ) (use_weights : Bool) (cs : List Claim)
    → Agree cs cs
    → ImmuneAggregate (aggregate abstain use_weights cs)
unfolding aggregate
aggregate-Immune abstain use_weights cs agree = elim (Outcome-cases (build cs)) [
  | inr (e, raises) ↦ rw (raises, aggregate) tt
  | inl (gr, built) ↦
      elim (Outcome-cases
        (conversion_attack abstain use_weights gr (verdict abstain use_weights gr))) [
          | inr (e, raises) ↦ rw (built, raises, aggregate) tt
          | inl (price, priced) ↦
              rw (built, priced, aggregate) (verdict-immune abstain use_weights cs gr agree built)
        ]
]

-- The diagnostics of an assessment that returned do not deny the precondition.
abbrev Immune : Outcome GateError EvidenceAssessment → Type 0
Immune (ok a) = true_unless_false a.diagnostics.immunity_applicable ≡ true
Immune (raised _) = Unit

module _ (st : Settings) (rep : AdapterReport) where
  conclude-immunity :
      (v : Verdict) (strength : ℕ) (diag : Diagnostics)
      → (conclude rep v strength diag).diagnostics.immunity_applicable ≡ diag.immunity_applicable
  unfolding conclude
  conclude-immunity v strength diag = elim (Option-cases v.decision) [
    | inl undecided ↦ ground arith
    | inr (d, decided) ↦ ground arith
  ]

  assess_bound-Immune :
      (v : Verdict) (diag : Diagnostics) (bound : List Claim)
      → true_unless_false diag.immunity_applicable ≡ true
      → Immune (assess_bound rep v diag bound)
  unfolding assess_bound
  assess_bound-Immune v diag [] h = h
  assess_bound-Immune v diag (c ∷ cs) h = elim (Outcome-cases (aggregate 0 true (c ∷ cs))) [
    | inr (e, raises) ↦ rw (raises, assess_bound) tt
    | inl (b, priced) ↦
        rw (priced, assess_bound)
          (rw
            (conclude-immunity v b.verdict.margin (record diag {
              conversions_to_reverse = b.price.conversions_to_reverse;
              conversions_to_abstention = b.price.conversions_to_abstention;
            }))
            h)
  ]

  assess_report-Immune :
      (abstain : ℕ) (cs : List Claim) → Agree cs cs → Immune (assess_report abstain st rep cs)
  unfolding assess_report
  assess_report-Immune abstain [] agree = refl
  assess_report-Immune abstain (c ∷ cs) agree =
      let immune = aggregate-Immune abstain true (c ∷ cs) agree in
      elim (Outcome-cases (aggregate abstain true (c ∷ cs))) [
        | inr (e, raises) ↦ rw (raises, assess_report) tt
        | inl (v, counted) ↦
            let sure = subst ImmuneAggregate counted immune in
            elim (Option-cases st.decision_subject) [
              | inl any ↦
                  rw (counted, any, assess_report)
                    (elim (Option-cases v.verdict.decision) [
                      | inl undecided ↦ rw undecided sure
                      | inr (d, decided) ↦ rw decided sure
                    ])
              | inr (s, named) ↦
                  rw (counted, named, assess_report)
                    (assess_bound-Immune v.verdict (verdict_diagnostics st rep v)
                      (claims_in rep.bound_root_ids rep.claims) sure)
            ]
      ]

-- Whatever the envelopes, the verifier and the settings, an assessment that returns never reports
-- that the precondition of immunity is violated: no claim that was counted derives from one of another value.
pub assess-Immune :
    (abstain : ℕ) (st : Settings) (verifier : Verifier) (envs : List Envelope)
    (a : EvidenceAssessment)
    → assess abstain st verifier envs ≡ ok a
    → true_unless_false a.diagnostics.immunity_applicable ≡ true
unfolding assess
assess-Immune abstain st verifier envs a h =
    subst Immune h (elim (Outcome-cases (envelopes_to_claims to_bit st verifier envs)) [
      | inr (e, raises) ↦ rw (raises, assess) tt
      | inl (rep, taken) ↦
          rw (taken, assess)
            (assess_report-Immune st rep abstain rep.claims
              (envelopes_to_claims-Agree to_bit st verifier envs rep taken))
    ])
