-- ===== src/MemoryEvidence/Ends.antt =====
-- The search of a lineage ends within its fuel (minority_prophet/memory_evidence.py).
use minority_prophet_gate.Base.{
  ℕ, suc, ◌≡◌, ◌≢◌, ◌∙◌, ap, subst, inl, inr, Bool, true, Option, none, some, List, [], ◌∷◌, ◌==◌,
  length, arith, All, Dict, lookup, insert, lookup-insert, has_key, keys, ok, raised, Outcome-cases,
  Option-cases, Bool-cases,
}
use minority_prophet_gate.MemoryEvidence.Lineage.{
  out_of_fuel, MemoryClaim, claim_map, all_known, known_parents, check_claims, parents, visit_each,
  visit, check_lineage,
}
use minority_prophet_gate.MemoryEvidence.Acyclic.{
  Closed, visit_each-fueled, All-fueled, visit-fueled,
}

all_known-All :
    (ks : List ℕ) (d : Dict MemoryClaim) → all_known ks d ≡ true → All (λ k. has_key k d ≡ true) ks
all_known-All [] d h = tt
all_known-All (k ∷ ks) d h = (ground arith, all_known-All ks d (ground arith))

-- What holds of each claim holds of each entry of the map.
claim_map-keeps :
    (P : MemoryClaim → Type 0) (cs : List MemoryClaim) (d : Dict MemoryClaim)
    → All P cs
    → ((k : ℕ) (c : MemoryClaim) → lookup k d ≡ some c → P c)
    → (k : ℕ) (c : MemoryClaim) → lookup k (claim_map cs d) ≡ some c
    → P c
unfolding claim_map
claim_map-keeps P [] d all old = old
claim_map-keeps P (b ∷ bs) d (here, all) old = claim_map-keeps P bs (insert b.id b d) all (λ k c.
    rw (lookup-insert b.id k b d) (elim (Bool-cases (k == b.id)) [
      | inl hit ↦ rw hit (λ h. let q : b ≡ c = ground arith in subst P q here)
      | inr miss ↦ rw miss (λ h. old k c h)
    ]))

-- The parents that a claim lists are known.
abbrev KnownParents : Dict MemoryClaim → MemoryClaim → Type 0
KnownParents d c = known_parents c.derived_from d ≡ ok tt

weaken_keys :
    (e : ℕ × MemoryClaim) (d : Dict MemoryClaim) (ks : List ℕ)
    → All (λ k. has_key k d ≡ true) ks
    → All (λ k. has_key k (e ∷ d) ≡ true) ks
weaken_keys e d [] h = tt
weaken_keys e d (k ∷ ks) (h, hs) = (ground arith, weaken_keys e d ks hs)

keys_known : (d : Dict MemoryClaim) → All (λ k. has_key k d ≡ true) (keys d)
keys_known [] = tt
keys_known (e ∷ d) = (ground arith, weaken_keys e d (keys d) (keys_known d))

module _ (is_digest : ℕ → Bool) where
  check_claims-All :
      (cs : List MemoryClaim) (d : Dict MemoryClaim)
      → check_claims is_digest cs d ≡ ok tt
      → All (KnownParents d) cs
  unfolding check_claims
  check_claims-All [] d h = tt
  check_claims-All (c ∷ cs) d h = (ground arith, check_claims-All cs d (ground arith))

  known_parents-fueled :
      (o : Option (List ℕ)) (d : Dict MemoryClaim) → known_parents o d ≢ raised out_of_fuel
  known_parents-fueled none d = λ h. cc
  known_parents-fueled (some ps) d = elim (Bool-cases (all_known ps d)) [
    | inl known ↦ rw known (λ h. cc)
    | inr strange ↦ rw strange (λ h. cc)
  ]

  check_claims-fueled :
      (cs : List MemoryClaim) (d : Dict MemoryClaim)
      → check_claims is_digest cs d ≢ raised out_of_fuel
  unfolding check_claims
  check_claims-fueled [] d = λ h. cc
  check_claims-fueled (c ∷ cs) d = elim (Bool-cases (is_digest c.claim_digest)) [
    | inr bad ↦ rw bad (λ h. cc)
    | inl good ↦ elim (Outcome-cases (known_parents c.derived_from d)) [
      | inr (e, eq) ↦
          rw (good, eq)
            (λ h.
              let q : e ≡ out_of_fuel = ground arith in
              known_parents-fueled c.derived_from d (eq ∙ ap raised q))
      | inl (u, eq) ↦ rw (good, eq) (check_claims-fueled cs d)
    ]
  ]

  parents-Closed :
      (d : Dict MemoryClaim)
      → ((k : ℕ) (c : MemoryClaim) → lookup k d ≡ some c → KnownParents d c)
      → Closed d
  unfolding parents
  parents-Closed d known k ps = elim (Option-cases (lookup k d)) [
    | inl gone ↦ rw (gone, parents) (λ h. absurd (cc))
    | inr (c, here) ↦ elim (Option-cases c.derived_from) [
      | inl listless ↦ rw (here, listless, parents) (λ h. absurd (cc))
      | inr (qs, listed) ↦
          rw (here, listed, parents)
            (λ h.
              let q : qs ≡ ps = ground arith in
              let at : known_parents (some qs) d ≡ ok tt =
                subst (λ o. known_parents o d ≡ ok tt) listed (known k c here) in
              subst (λ xs. All (λ p. has_key p d ≡ true) xs) q (all_known-All qs d (ground arith)))
    ]
  ]

  -- Whatever the claims, the search of their lineage for a cycle ends within the fuel it is given.
  pub check_lineage-ends :
      (claims : List MemoryClaim) → check_lineage is_digest claims ≢ raised out_of_fuel
  unfolding check_lineage
  check_lineage-ends claims =
      let d = claim_map claims [] in
      elim (Bool-cases (length d == length claims)) [
        | inr repeated ↦ rw repeated (λ h. cc)
        | inl distinct ↦ elim (Outcome-cases (check_claims is_digest claims d)) [
          | inr (e, eq) ↦
              rw (distinct, eq)
                (λ h.
                  let q : e ≡ out_of_fuel = ground arith in
                  check_claims-fueled claims d (eq ∙ ap raised q))
          | inl (tt, eq) ↦
              let closed = parents-Closed d (
                claim_map-keeps (KnownParents d) claims [] (check_claims-All claims d eq)
                  (λ k c h. absurd (cc))) in
              let fueled = visit_each-fueled d (visit (suc (length d)) d []) (keys d) (
                All-fueled d (suc (length d)) [] (keys d)
                  (λ k. visit-fueled d (suc (length d)) [] k closed tt tt (omega arith))
                  (keys_known d)) in
              elim (Outcome-cases (visit_each (visit (suc (length d)) d []) (keys d))) [
                | inl (u, fq) ↦ rw (distinct, eq, fq) (λ h. cc)
                | inr (e, fq) ↦
                    rw (distinct, eq, fq)
                      (λ h. let q : e ≡ out_of_fuel = ground arith in fueled (fq ∙ ap raised q))
              ]
        ]
      ]
