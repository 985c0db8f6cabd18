-- ===== src/MemoryEvidence/Lineage.antt =====
-- memory_evidence.py: the claims of a profile and the search for a derivation cycle.
use minority_prophet_gate.Base.{
  ℕ, zero, suc, Bool, true, false, not, Option, none, some, List, [], ◌∷◌, ◌==◌, if◌then◌else◌,
  elem, length, Dict, lookup, insert, has_key, keys, Outcome, ok, raised, ◌>>=◌, ◌>>◌, raise_if,
}

pub data LineageError : Type 0 where
  duplicate_claim invalid_digest invalid_derivation unknown_parent derivation_cycle : LineageError
  missing_claim out_of_fuel : LineageError

-- `derived_from` is `none` where it is no list; the status of the root's authentication is a text.
pub record MemoryClaim : Type 0 where
  pub id : ℕ
  pub claim_digest : ℕ
  pub derived_from : Option (List ℕ)
  pub root_status : Option ℕ

-- `{claim["id"]: claim for claim in claims}`
unfoldable pub claim_map : List MemoryClaim → Dict MemoryClaim → Dict MemoryClaim
claim_map [] d = d
claim_map (c ∷ cs) d = claim_map cs (insert c.id c d)

abbrev pub all_known : List ℕ → Dict MemoryClaim → Bool
all_known [] d = true
all_known (k ∷ ks) d = if has_key k d then all_known ks d else false

abbrev pub known_parents : Option (List ℕ) → Dict MemoryClaim → Outcome LineageError (Unit {0})
known_parents none d = raised invalid_derivation
known_parents (some ps) d = raise_if (not (all_known ps d)) unknown_parent

-- the tests of each claim, the digest's form being a parameter
unfoldable pub check_claims :
    (ℕ → Bool) → List MemoryClaim → Dict MemoryClaim → Outcome LineageError (Unit {0})
check_claims is_digest [] d = ok tt
check_claims is_digest (c ∷ cs) d = do
  raise_if (not (is_digest c.claim_digest)) invalid_digest
  known_parents c.derived_from d
  check_claims is_digest cs d

-- `claim_map[claim_id]["derived_from"]`
unfoldable pub parents : Dict MemoryClaim → ℕ → Outcome LineageError (List ℕ)
parents d k = elim (lookup k d) [
  | none ↦ raised missing_claim
  | some c ↦ elim c.derived_from [ none ↦ raised invalid_derivation | some ps ↦ ok ps ]
]

unfoldable pub visit_each :
    (ℕ → Outcome LineageError (Unit {0})) → List ℕ → Outcome LineageError (Unit {0})
visit_each visit_one [] = ok tt
visit_each visit_one (k ∷ ks) = visit_one k >> visit_each visit_one ks

-- `visit`
unfoldable pub visit : ℕ → Dict MemoryClaim → List ℕ → ℕ → Outcome LineageError (Unit {0})
unfolding visit_each parents
visit zero d stack k = raised out_of_fuel
visit (suc fuel) d stack k =
    let deeper = visit_each (visit fuel d (k ∷ stack)) in
    raise_if (elem k stack) derivation_cycle >> parents d k >>= deeper

-- The `try` block. A stack of distinct claims is at most as long as the map.
unfoldable pub check_lineage :
    (ℕ → Bool) → List MemoryClaim → Outcome LineageError (Dict MemoryClaim)
unfolding claim_map check_claims visit
check_lineage is_digest claims =
    let d = claim_map claims [] in
    raise_if (not (length d == length claims)) duplicate_claim
    >> check_claims is_digest claims d
    >> visit_each (visit (suc (length d)) d []) (keys d)
    >> ok d
