-- ===== src/Adapter/Consistent.antt =====
-- The claims that the adapter hands on never contradict what they derive from
-- (minority_prophet/adapter_acp.py, envelopes_to_claims).
use minority_prophet_gate.Base.{
  ℕ, ◌≡◌, sym, subst, inl, inr, false, Option, none, some, List, [], ◌∷◌, leb, arith, All, elem,
  lookup, Outcome, ok, raised, Outcome-cases, Bool-cases,
}
use minority_prophet_gate.Base.Json.{Json}
use minority_prophet_gate.GateTypes.{one}
use minority_prophet_gate.Aggregator.Graph.{Claim}
use minority_prophet_gate.Adapter.Envelope.{Envelope, Verifier}
use minority_prophet_gate.Adapter.Depth.{AdapterError, DepthWeights, normalise_depth_weights}
use minority_prophet_gate.Adapter.Lineage.{Record, Records, Reading, read_all, judged}
use minority_prophet_gate.Adapter.Intake.{
  Settings, Weighed, AdapterReport, claim_of, weigh, admit, ids_of, orphaned, fix_orphans,
  envelopes_to_claims,
}
use minority_prophet_gate.Adapter.Settled.{IsConsistent, judged-IsConsistent}
use minority_prophet_gate.Adapter.Filed.{read_all-HasKeys}
use minority_prophet_gate.Base.Keys.{Own, Distinct-Own}

-- No claim of the first list derives from one of the second that asserts another value.
abbrev pub Agree : List Claim → List Claim → Type 0
Agree cs ds =
    All (λ c. (p : ℕ) → c.parent ≡ some p → All (λ d. d.id ≡ p → d.assertion ≡ c.assertion) ds) cs

module _ (st : Settings) (weights : DepthWeights) (rejected : List ℕ) where
  -- A claim is made of each kept record.
  abbrev AllOf : (Claim → Type 0) → Outcome AdapterError AdapterReport → Type 0
  AllOf P (ok rep) = All P rep.claims
  AllOf P (raised _) = Unit

  admit-AllOf :
      (P : Claim → Type 0) (rest : Records)
      → All (λ e. elem e.0 rejected ≡ false → (w : Weighed) → P (claim_of e.0 e.1 w)) rest
      → AllOf P (admit st weights rejected rest)
  unfolding admit
  admit-AllOf P [] all = tt
  admit-AllOf P ((cid, r) ∷ rest) (here, all) =
      let later = admit-AllOf P rest all in
      elim (Bool-cases (elem cid rejected)) [
        | inl out ↦ rw (out, admit) later
        | inr kept ↦ elim (Outcome-cases (weigh st weights r)) [
          | inr (f, raises) ↦ rw (kept, raises, admit) tt
          | inl (w, weighed) ↦ elim (Outcome-cases (admit st weights rejected rest)) [
            | inr (f, raises) ↦ rw (kept, weighed, raises, admit) tt
            | inl (rep, admitted) ↦
                rw (kept, weighed, admitted, admit) (here kept w, subst (AllOf P) admitted later)
          ]
        ]
      ]

fix_orphans-All :
    (P : Claim → Type 0) (ids : List ℕ) (cs : List Claim)
    → ((c : Claim) → P c → P (record c { parent = none; weight = 0 }))
    → All P cs
    → All P (fix_orphans ids cs)
unfolding fix_orphans
fix_orphans-All P ids [] f all = tt
fix_orphans-All P ids (c ∷ cs) f (p, all) = elim (Bool-cases (orphaned ids c)) [
  | inl orphan ↦ rw (orphan, fix_orphans) (f c p, fix_orphans-All P ids cs f all)
  | inr kept ↦ rw (kept, fix_orphans) (p, fix_orphans-All P ids cs f all)
]

abbrev AgreeOf : Outcome AdapterError AdapterReport → Type 0
AgreeOf (ok rep) = Agree rep.claims rep.claims
AgreeOf (raised _) = Unit

-- The claims made of kept records agree, and they still do once orphans were made roots.
module _ (st : Settings) (weights : DepthWeights) (records : Records)
    (own : Own records records) where
  abbrev rejected : List ℕ
  rejected = (judged records).rejected

  -- The claims under the id of a record's parent assert what the record asserts.
  parent-AllOf :
      (p : ℕ) (q : Record) (bit : ℕ) (rest : Records)
      → lookup p records ≡ some q
      → q.assertion ≡ bit
      → Own records rest
      → AllOf st weights rejected
          (λ d. d.id ≡ p → d.assertion ≡ bit)
          (admit st weights rejected rest)
  parent-AllOf p q bit rest found agrees own' =
      admit-AllOf st weights rejected (λ d. d.id ≡ p → d.assertion ≡ bit) rest (each rest own')
    where
      each :
          (rest : Records)
          → Own records rest
          → All
              (λ e.
                elem e.0 rejected ≡ false
                → (w : Weighed) → (claim_of e.0 e.1 w).id ≡ p
                → (claim_of e.0 e.1 w).assertion ≡ bit)
              rest
      each [] o = tt
      each (e ∷ rest) (here, o) = ((λ kept w same_id. ground arith), each rest o)

  admit-AgreeOf : AgreeOf (admit st weights rejected records)
  admit-AgreeOf = elim (Outcome-cases (admit st weights rejected records)) [
    | inr (f, raises) ↦ rw raises tt
    | inl (rep, admitted) ↦
        let all =
          admit-AllOf st weights rejected (Derives rep) records
            (each rep admitted records (judged-IsConsistent records).1) in
        subst AgreeOf (sym admitted) (subst (AllOf st weights rejected (Derives rep)) admitted all)
  ]
    where
      Derives : AdapterReport → Claim → Type 0
      Derives rep c =
          (p : ℕ) → c.parent ≡ some p → All (λ d. d.id ≡ p → d.assertion ≡ c.assertion) rep.claims

      each :
          (rep : AdapterReport)
          → admit st weights rejected records ≡ ok rep
          → (rest : Records) → All (IsConsistent records rejected) rest
          → All
              (λ e. elem e.0 rejected ≡ false → (w : Weighed) → Derives rep (claim_of e.0 e.1 w))
              rest
      each rep admitted [] all = tt
      each rep admitted ((cid, r) ∷ rest) (here, all) = (
        (λ kept w p below.
            let (q, found, _, agrees) = here p kept below in
            subst (AllOf st weights rejected (λ d. d.id ≡ p → d.assertion ≡ r.assertion)) admitted
              (parent-AllOf p q r.assertion records found agrees own)),
        each rep admitted rest all,
      )

fix_orphans-Agree :
    (ids : List ℕ) (cs : List Claim) → Agree cs cs → Agree (fix_orphans ids cs) (fix_orphans ids cs)
fix_orphans-Agree ids cs agree =
    fix_orphans-All (λ c. Derives c) ids cs (λ c old p h. absurd cc) (each cs agree)
  where
    Derives : Claim → Type 0
    Derives c =
        (p : ℕ)
        → c.parent ≡ some p
        → All (λ d. d.id ≡ p → d.assertion ≡ c.assertion) (fix_orphans ids cs)

    each : (bs : List Claim) → Agree bs cs → All (λ c. Derives c) bs
    each [] h = tt
    each (b ∷ bs) (here, h) = (
      (λ p below.
          fix_orphans-All (λ d. d.id ≡ p → d.assertion ≡ b.assertion) ids cs (λ c old. old)
            (here p below)),
      each bs h,
    )

-- Whatever the envelopes, the verifier and the settings, no claim that the adapter hands on derives
-- from one that asserts another value.
pub envelopes_to_claims-Agree :
    (bit_of : Json → Option ℕ) (st : Settings) (verifier : Verifier) (envs : List Envelope)
    (rep : AdapterReport)
    → envelopes_to_claims bit_of st verifier envs ≡ ok rep
    → Agree rep.claims rep.claims
unfolding envelopes_to_claims
envelopes_to_claims-Agree bit_of st verifier envs rep h =
    subst AgreeOf h (elim (Bool-cases (leb st.unbound_root_weight one)) [
      | inr over ↦ rw (over, envelopes_to_claims) tt
      | inl fits ↦ elim (Outcome-cases (normalise_depth_weights st.depth_weights)) [
        | inr (f, raises) ↦ rw (fits, raises, envelopes_to_claims) tt
        | inl (weights, normal) ↦
            let nothing : Reading = record { records = []; quarantined = [] } in
            let records = (read_all bit_of verifier envs nothing).records in
            let own = Distinct-Own records (read_all-HasKeys bit_of verifier envs nothing tt) in
            let agrees = admit-AgreeOf st weights records own in
            elim (Outcome-cases (admit st weights (judged records).rejected records)) [
              | inr (f, raises) ↦ rw (fits, normal, raises, envelopes_to_claims) tt
              | inl (kept, admitted) ↦
                  rw (fits, normal, admitted, envelopes_to_claims)
                    (fix_orphans-Agree (ids_of kept.claims) kept.claims
                      (subst AgreeOf admitted agrees))
            ]
      ]
    ])
