-- ===== src/MemoryEvidence/Assess.antt =====
-- memory_evidence.py: `assess_memory_evidence`. The form of a digest is a parameter.
use minority_prophet_gate.Base.{
  ℕ, Bool, true, false, not, ◌||◌, Option, none, some, List, [], ◌∷◌, ◌==◌, leb, ltb, if◌then◌else◌,
  is_none, same, elem, length, Dict, Outcome, ok, raised, ◌>>=◌, ◌>>◌, raise_if,
}
use minority_prophet_gate.Selective.Types.{MemoryAnswer, accept, block_memory, escalate_memory}
use minority_prophet_gate.Continuity.Receipt.{Stamp, aware, NonceField, no_text, nonce_text}
use minority_prophet_gate.MemoryEvidence.Lineage.{
  LineageError, MemoryClaim, all_known, check_lineage,
}

-- What a refusal says, and whether it blocks.
pub data MemoryReason : Type 0 where
  unsupported_profile malformed_evidence expectation_missing : MemoryReason
  proposition_mismatch object_mismatch request_mismatch action_mismatch : MemoryReason
  invalid_lifetime clock_without_timezone evidence_expired nonce_used : MemoryReason
  evidence_revoked revocation_unknown coverage_incomplete inconclusive : MemoryReason
  malformed_lineage inputs_unresolved no_roots roots_unauthenticated : MemoryReason

pub data Refusal : Type 0 where
  blocks escalates : MemoryReason → Refusal

-- The text "sha256:…" of each digest is a number; the texts that are compared are named here.
abbrev pub active : ℕ
active = 1

abbrev pub revoked : ℕ
revoked = 2

abbrev pub coverage_complete : ℕ
coverage_complete = 3

abbrev pub kind_inconclusive : ℕ
kind_inconclusive = 4

abbrev pub authenticated : ℕ
authenticated = 5

-- A profile that has the keys; `claims` is `none` where it is no list.
pub record MemoryProfile : Type 0 where
  pub claims : Option (List MemoryClaim)
  pub proposition_digest : ℕ
  pub memory_object_digest : ℕ
  pub request_digest : Option ℕ
  pub action_digest : Option ℕ
  pub observed_at : Stamp
  pub expires_at : Stamp
  pub nonce : NonceField
  pub revocation_status : Option ℕ
  pub coverage : Option ℕ
  pub conclusion_kind : Option ℕ
  pub input_claims : List ℕ

-- `profile`: of another version, without some key, or as above.
pub data MemoryEvidence : Type 0 where
  other_version incomplete : MemoryEvidence
  profile : MemoryProfile → MemoryEvidence

-- The keyword arguments; `now` is the clock's reading where none is given.
pub record Expectations : Type 0 where
  pub proposition : Option ℕ
  pub memory_object : Option ℕ
  pub request : Option ℕ
  pub action : Option ℕ
  pub used_nonces : List ℕ
  pub now : Stamp

abbrev malformed : Refusal
malformed = escalates malformed_evidence

-- `_time`
abbrev pub instant : Stamp → Outcome Refusal ℕ
instant (aware t) = ok t
instant _ = raised malformed

abbrev pub checked_nonce : NonceField → Outcome Refusal ℕ
checked_nonce no_text = raised malformed
checked_nonce (nonce_text n size) = if ltb size 16 then raised malformed else ok n

abbrev pub checked_digest : (ℕ → Bool) → Option ℕ → Outcome Refusal (Unit {0})
checked_digest is_digest none = ok tt
checked_digest is_digest (some t) = raise_if (not (is_digest t)) malformed

abbrev pub some_claims : Option (List MemoryClaim) → Outcome Refusal (List MemoryClaim)
some_claims none = raised malformed
some_claims (some []) = raised malformed
some_claims (some (c ∷ cs)) = ok (c ∷ cs)

-- A field that must be expected where it is bound.
abbrev pub check_bound : MemoryReason → Option ℕ → Option ℕ → Outcome Refusal (Unit {0})
check_bound why bound none = raise_if (not (is_none bound)) (escalates expectation_missing)
check_bound why bound (some e) = raise_if (not (same bound (some e))) (blocks why)

abbrev pub check_expected : MemoryReason → ℕ → Option ℕ → Outcome Refusal (Unit {0})
check_expected why bound none = ok tt
check_expected why bound (some e) = raise_if (not (bound == e)) (blocks why)

abbrev pub clock_reading : Stamp → Outcome Refusal ℕ
clock_reading (aware t) = ok t
clock_reading _ = raised (escalates clock_without_timezone)

abbrev pub as_lineage : Outcome LineageError (Dict MemoryClaim) → Outcome Refusal (Dict MemoryClaim)
as_lineage (ok d) = ok d
as_lineage (raised e) = raised (escalates malformed_lineage)

abbrev pub is_root : MemoryClaim → Bool
is_root c = elim c.derived_from [ none ↦ true | some ps ↦ length ps == 0 ]

abbrev pub root_claims : Dict MemoryClaim → List MemoryClaim
root_claims [] = []
root_claims (e ∷ d) = let rest = root_claims d in if is_root e.1 then e.1 ∷ rest else rest

abbrev pub all_authenticated : List MemoryClaim → Bool
all_authenticated [] = true
all_authenticated (c ∷ cs) =
    if same c.root_status (some authenticated) then all_authenticated cs else false

module _ (is_digest : ℕ → Bool) where
  -- The first `try` block: the observation, the expiry and the nonce.
  unfoldable pub read_profile : MemoryProfile → Outcome Refusal (List MemoryClaim × ℕ × ℕ × ℕ)
  read_profile p = do
    claims ← some_claims p.claims
    raise_if (not (is_digest p.proposition_digest)) malformed
    raise_if (not (is_digest p.memory_object_digest)) malformed
    checked_digest is_digest p.request_digest
    checked_digest is_digest p.action_digest
    observed ← instant p.observed_at
    expires ← instant p.expires_at
    nonce ← checked_nonce p.nonce
    ok (claims, observed, expires, nonce)

  unfoldable pub check_binding : MemoryProfile → Expectations → Outcome Refusal (Unit {0})
  check_binding p x = do
    check_expected proposition_mismatch p.proposition_digest x.proposition
    check_expected object_mismatch p.memory_object_digest x.memory_object
    check_bound request_mismatch p.request_digest x.request
    check_bound action_mismatch p.action_digest x.action

  unfoldable pub check_lifetime : ℕ → ℕ → ℕ → Expectations → Outcome Refusal (Unit {0})
  check_lifetime observed expires nonce x = do
    raise_if (leb expires observed) (blocks invalid_lifetime)
    current ← clock_reading x.now
    raise_if (leb expires current) (blocks evidence_expired)
    raise_if (elem nonce x.used_nonces) (blocks nonce_used)

  unfoldable pub check_standing : MemoryProfile → Outcome Refusal (Unit {0})
  check_standing p = do
    raise_if (same p.revocation_status (some revoked)) (blocks evidence_revoked)
    raise_if (not (same p.revocation_status (some active))) (escalates revocation_unknown)
    raise_if (not (same p.coverage (some coverage_complete))) (escalates coverage_incomplete)
    raise_if (same p.conclusion_kind (some kind_inconclusive)) (escalates inconclusive)

  unfoldable pub check_roots : MemoryProfile → Dict MemoryClaim → Outcome Refusal (Unit {0})
  check_roots p d = do
    raise_if (length p.input_claims == 0 || not (all_known p.input_claims d))
        (escalates inputs_unresolved)
    raise_if (length (root_claims d) == 0) (escalates no_roots)
    raise_if (not (all_authenticated (root_claims d))) (escalates roots_unauthenticated)

  -- The claims of a profile that is admitted.
  unfoldable pub admit : MemoryProfile → Expectations → Outcome Refusal (Dict MemoryClaim)
  unfolding read_profile check_binding check_lifetime check_standing check_roots check_lineage
  admit p x = do
    parts ← read_profile p
    check_binding p x
    check_lifetime parts.1 parts.2 parts.3 x
    check_standing p
    d ← as_lineage (check_lineage is_digest parts.0)
    check_roots p d
    ok d

  unfoldable pub assess_memory_evidence :
      MemoryEvidence → Expectations → Outcome Refusal (Dict MemoryClaim)
  unfolding admit
  assess_memory_evidence other_version x = raised (escalates unsupported_profile)
  assess_memory_evidence incomplete x = raised malformed
  assess_memory_evidence (profile p) x = admit p x

-- MemoryEvidenceAssessment as the selective ladder reads it, with the number of each reason's text.
abbrev pub as_answer : (MemoryReason → ℕ) → Outcome Refusal (Dict MemoryClaim) → MemoryAnswer
as_answer number (ok d) = accept 0
as_answer number (raised (blocks r)) = block_memory (number r)
as_answer number (raised (escalates r)) = escalate_memory (number r)
