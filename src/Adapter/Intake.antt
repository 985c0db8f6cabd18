-- ===== src/Adapter/Intake.antt =====
-- adapter_acp.py: the rest of `envelopes_to_claims`, from the kept records to the report.
use minority_prophet_gate.Base.{
  ℕ, ◌+◌, ◌*◌, ◌/◌, Bool, true, false, not, Option, none, some, List, [], ◌∷◌, ◌++◌, ◌==◌, ltb, leb,
  if◌then◌else◌, elem, Outcome, ok, ◌>>=◌, ◌>>◌, raise_if,
}
use minority_prophet_gate.Base.Json.{Json}
use minority_prophet_gate.GateTypes.{one}
use minority_prophet_gate.Aggregator.Graph.{Claim}
use minority_prophet_gate.Adapter.Envelope.{Envelope, Verifier}
use minority_prophet_gate.Adapter.Depth.{
  Depth, AdapterError, unbound_weight_range, GivenWeights, DepthWeights, normalise_depth_weights,
  factor_of,
}
use minority_prophet_gate.Adapter.Freshness.{
  Exclusion, Freshness, unbound_root, subject_mismatch, depth_discount, root_weight,
}
use minority_prophet_gate.Adapter.Lineage.{Record, Records, read_all, judged}

-- The parameters of one call: `now` is the clock, `decay` the half-life law.
pub record Settings : Type 0 where
  pub now : ℕ
  pub decay : ℕ → ℕ → ℕ
  pub decision_subject : Option ℕ
  pub unbound_root_weight : ℕ
  pub freshness : Freshness
  pub depth_weights : Option GivenWeights

-- `weight *= factor`, in millionths
abbrev pub scaled : ℕ → ℕ → ℕ
scaled w f = w * f / one

pub record Weighed : Type 0 where
  pub weight : ℕ
  pub exclusions : List Exclusion
  pub bound : Bool
  pub unbound : Bool

-- A root's depth, where a factor below 1.0 is noted.
abbrev pub discounted : DepthWeights → Record → ℕ × List Exclusion → ℕ × List Exclusion
discounted weights r (w, ex) =
    let f = factor_of weights r.depth in
    if ltb f one then (scaled w f, ex ++ depth_discount r.depth ∷ []) else (w, ex)

-- A root's subject, against the subject of the decision.
abbrev pub matched : Option ℕ → ℕ → Record → ℕ × List Exclusion → Weighed
matched none unbound_weight r (w, ex) = record {
  weight = w;
  exclusions = ex;
  bound = false;
  unbound = false;
}
matched (some s) unbound_weight r (w, ex) = elim r.subject [
  | none ↦ record {
    weight = scaled w unbound_weight;
    exclusions = ex ++ unbound_root ∷ [];
    bound = false;
    unbound = true;
  }
  | some t ↦
      if t == s
      then record { weight = w; exclusions = ex; bound = true; unbound = false }
      else record {
        weight = 0;
        exclusions = ex ++ subject_mismatch ∷ [];
        bound = false;
        unbound = false;
      }
]

unfoldable pub weigh : Settings → DepthWeights → Record → Outcome AdapterError Weighed
unfolding root_weight
weigh st weights r = elim r.parent [
  | some _ ↦ ok (record { weight = one; exclusions = []; bound = false; unbound = false })
  | none ↦ root_weight st.decay st.now r.attest st.freshness >>= λ x.
      ok (matched st.decision_subject st.unbound_root_weight r (discounted weights r x))
]

pub record AdapterReport : Type 0 where
  pub claims : List Claim
  pub quarantined : List Envelope
  pub unattested_singletons : ℕ
  pub bound_root_ids : List ℕ
  pub unbound_root_ids : List ℕ
  pub exclusions : List Exclusion
  pub depth_profile : List (Option Depth)

abbrev pub claim_of : ℕ → Record → Weighed → Claim
claim_of cid r w = record {
  id = cid;
  assertion = r.assertion;
  parent = r.parent;
  weight = w.weight;
}

abbrev pub consider : Bool → ℕ → List ℕ → List ℕ
consider true cid ids = cid ∷ ids
consider false cid ids = ids

-- The kept records in their order, each with its weight and its mark.
unfoldable pub admit :
    Settings → DepthWeights → List ℕ → Records → Outcome AdapterError AdapterReport
unfolding weigh
admit st weights rejected [] = ok (record {
  claims = [];
  quarantined = [];
  unattested_singletons = 0;
  bound_root_ids = [];
  unbound_root_ids = [];
  exclusions = [];
  depth_profile = [];
})
admit st weights rejected ((cid, r) ∷ rest) =
    let later = admit st weights rejected rest in
    if elem cid rejected then later else (do
      w ← weigh st weights r
      rep ← later
      ok (record {
        claims = claim_of cid r w ∷ rep.claims;
        quarantined = [];
        unattested_singletons = 0;
        bound_root_ids = consider w.bound cid rep.bound_root_ids;
        unbound_root_ids = consider w.unbound cid rep.unbound_root_ids;
        exclusions = w.exclusions ++ rep.exclusions;
        depth_profile = elim r.parent [
          | none ↦ r.depth ∷ rep.depth_profile
          | some _ ↦ rep.depth_profile
        ];
      }))

abbrev pub ids_of : List Claim → List ℕ
ids_of [] = []
ids_of (c ∷ cs) = c.id ∷ ids_of cs

-- A claim whose parent is not among the claims becomes a root of no weight.
abbrev pub orphaned : List ℕ → Claim → Bool
orphaned ids c = elim c.parent [ none ↦ false | some p ↦ not (elem p ids) ]

unfoldable pub fix_orphans : List ℕ → List Claim → List Claim
fix_orphans ids [] = []
fix_orphans ids (c ∷ cs) =
    (if orphaned ids c then record c { parent = none; weight = 0 } else c) ∷ fix_orphans ids cs

unfoldable pub count_orphans : List ℕ → List Claim → ℕ
count_orphans ids [] = 0
count_orphans ids (c ∷ cs) = (if orphaned ids c then 1 else 0) + count_orphans ids cs

-- The envelopes of the rejected records.
unfoldable pub rejected_envelopes : List ℕ → Records → List Envelope
rejected_envelopes rejected [] = []
rejected_envelopes rejected ((cid, r) ∷ rest) =
    let later = rejected_envelopes rejected rest in
    if elem cid rejected then r.env ∷ later else later

unfoldable pub envelopes_to_claims :
    (Json → Option ℕ) → Settings → Verifier → List Envelope → Outcome AdapterError AdapterReport
unfolding normalise_depth_weights read_all judged admit fix_orphans count_orphans rejected_envelopes
envelopes_to_claims bit_of st verifier envs = do
  raise_if (not (leb st.unbound_root_weight one)) unbound_weight_range
  weights ← normalise_depth_weights st.depth_weights
  let reading = read_all bit_of verifier envs (record { records = []; quarantined = [] })
  let swept = judged reading.records
  rep ← admit st weights swept.rejected reading.records
  let ids = ids_of rep.claims
  ok (record {
    claims = fix_orphans ids rep.claims;
    quarantined = reading.quarantined ++ rejected_envelopes swept.rejected reading.records;
    unattested_singletons = count_orphans ids rep.claims;
    bound_root_ids = rep.bound_root_ids;
    unbound_root_ids = rep.unbound_root_ids;
    exclusions = swept.exclusions ++ rep.exclusions;
    depth_profile = rep.depth_profile;
  })
