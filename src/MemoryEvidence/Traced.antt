-- ===== src/MemoryEvidence/Traced.antt =====
-- What the claims of a lineage are that passes its tests (minority_prophet/memory_evidence.py).
use minority_prophet_gate.Base.{
  ℕ, suc, ◌≡◌, subst, inl, inr, Bool, true, some, List, [], ◌∷◌, elem, length, arith, Dict, lookup,
  keys, ok, Option-cases,
}
use minority_prophet_gate.MemoryEvidence.Lineage.{
  MemoryClaim, claim_map, parents, visit_each, visit, check_lineage,
}
use minority_prophet_gate.MemoryEvidence.Acyclic.{Ancestor, visit_each-ok, visit-acyclic}
use minority_prophet_gate.Base.Pigeonhole.{Distinct}
use minority_prophet_gate.MemoryEvidence.Lineage.{check_claims}
use minority_prophet_gate.MemoryEvidence.Mapped.{ids, IsSound, IsWhole-filed, check_claims-IsSound}
use minority_prophet_gate.Base.{All}

-- No claim derives from itself.
abbrev pub IsAcyclic : Dict MemoryClaim → Type 0
IsAcyclic d = (k p : ℕ) (ps : List ℕ) → parents d k ≡ ok ps → elem p ps ≡ true → ¬ Ancestor d p k

pub lookup-key :
    (d : Dict MemoryClaim) (k : ℕ) (c : MemoryClaim) → lookup k d ≡ some c → elem k (keys d) ≡ true
lookup-key [] k c h = absurd (cc)
lookup-key (e ∷ d) k c h = ground (arith, lookup-key d k c)

parents-key :
    (d : Dict MemoryClaim) (k : ℕ) (ps : List ℕ) → parents d k ≡ ok ps → elem k (keys d) ≡ true
unfolding parents
parents-key d k ps = elim (Option-cases (lookup k d)) [
  | inl gone ↦ rw (gone, parents) (λ h. absurd (cc))
  | inr (c, here) ↦ λ h. lookup-key d k c here
]

-- The map holds the claims of the list under their ids, which are distinct, and nothing else; each claim
-- is sound, and none derives from itself.
pub record IsTraced (is_digest : ℕ → Bool) (claims : List MemoryClaim) (d : Dict MemoryClaim)
    : Type 0 where
  pub distinct : Distinct (ids claims)
  pub filed : All (λ c. lookup c.id d ≡ some c) claims
  pub whole : length d ≡ length claims
  pub sound : All (IsSound is_digest claims) claims
  pub acyclic : IsAcyclic d

module _ (is_digest : ℕ → Bool) (claims : List MemoryClaim) (d : Dict MemoryClaim) where
  pub check_lineage-map : check_lineage is_digest claims ≡ ok d → claim_map claims [] ≡ d
  unfolding check_lineage
  check_lineage-map h = ground arith

  check_lineage-parts :
      check_lineage is_digest claims ≡ ok d
      → (length (claim_map claims []) ≡ length claims)
        × (check_claims is_digest claims (claim_map claims []) ≡ ok tt)
        × (visit_each
              (visit (suc (length (claim_map claims []))) (claim_map claims []) [])
              (keys (claim_map claims []))
            ≡ ok tt)
  unfolding check_lineage
  check_lineage-parts h = ground arith

  pub check_lineage-IsTraced : check_lineage is_digest claims ≡ ok d → IsTraced is_digest claims d
  check_lineage-IsTraced h =
      let m = claim_map claims [] in
      let (size, tested, visited) = check_lineage-parts h in
      let (distinct, filed) = IsWhole-filed claims [] (omega (arith, size)) in
      subst (IsTraced is_digest claims) (check_lineage-map h) (record {
        distinct = distinct;
        filed = filed;
        whole = size;
        sound = check_claims-IsSound is_digest claims claims tested;
        acyclic = λ k p ps at up.
            let here =
              visit_each-ok m (visit (suc (length m)) m []) (keys m) k visited
                (parents-key m k ps at) in
            visit-acyclic m (suc (length m)) [] k p ps here at up;
      })
