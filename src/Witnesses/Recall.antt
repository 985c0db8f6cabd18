-- ===== src/Witnesses/Recall.antt =====
-- Runs of the consumer of memory evidence.
use minority_prophet_gate.Base.{ℕ, Bool, true, ◌≢◌, refl, none, some, [], ◌∷◌, Dict, raised}
use minority_prophet_gate.Continuity.Receipt.{aware, nonce_text}
use minority_prophet_gate.MemoryEvidence.Lineage.{
  out_of_fuel, MemoryClaim, claim_map, check_claims, parents, visit_each, visit, check_lineage,
}
use minority_prophet_gate.MemoryEvidence.Assess.{
  active, coverage_complete, authenticated, MemoryProfile, Expectations, read_profile,
  check_binding, check_lifetime, check_standing, check_roots, admit,
}
use minority_prophet_gate.MemoryEvidence.Accepts.{IsAdmissible, admit-IsAdmissible}
use minority_prophet_gate.MemoryEvidence.Ends.{check_lineage-ends}

abbrev any_digest : ℕ → Bool
any_digest t = true

abbrev source : MemoryClaim
source = record {
  id = 1;
  claim_digest = 31;
  derived_from = some [];
  root_status = some authenticated;
}

abbrev summary : MemoryClaim
summary = record { id = 2; claim_digest = 32; derived_from = some (1 ∷ []); root_status = none }

abbrev remembered : MemoryProfile
remembered = record {
  claims = some (source ∷ summary ∷ []);
  proposition_digest = 33;
  memory_object_digest = 34;
  request_digest = some 35;
  action_digest = none;
  observed_at = aware 10;
  expires_at = aware 20;
  nonce = nonce_text 36 16;
  revocation_status = some active;
  coverage = some coverage_complete;
  conclusion_kind = none;
  input_claims = 2 ∷ [];
}

abbrev expected : Expectations
expected = record {
  proposition = some 33;
  memory_object = none;
  request = some 35;
  action = none;
  used_nonces = 37 ∷ [];
  now = aware 15;
}

abbrev lineage : Dict MemoryClaim
lineage = (1, source) ∷ (2, summary) ∷ []

admit-IsAdmissible_example : IsAdmissible any_digest remembered expected lineage
unfolding admit read_profile check_binding check_lifetime check_standing check_roots check_lineage
    claim_map check_claims visit visit_each parents
admit-IsAdmissible_example = admit-IsAdmissible any_digest remembered expected lineage refl

check_lineage-ends_example : check_lineage any_digest (source ∷ summary ∷ []) ≢ raised out_of_fuel
check_lineage-ends_example = check_lineage-ends any_digest (source ∷ summary ∷ [])
