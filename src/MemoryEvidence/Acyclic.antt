-- ===== src/MemoryEvidence/Acyclic.antt =====
-- The search for a cycle ends, and finds each one (minority_prophet/memory_evidence.py).
use minority_prophet_gate.Base.{
  ℕ, zero, suc, ◌+◌, ◌≡◌, ◌≢◌, ◌<◌, ap, ◌∙◌, subst, inl, inr, true, false, List, [], ◌∷◌, ◌==◌,
  arith, elem, length, All, Dict, lookup, has_key, Outcome, ok, raised, Outcome-cases, Option-cases,
  Bool-cases,
}
use minority_prophet_gate.Base.Pigeonhole.{Distinct, AreKeys, length-Distinct}
use minority_prophet_gate.MemoryEvidence.Lineage.{
  LineageError, out_of_fuel, MemoryClaim, parents, visit_each, visit,
}

-- A claim and a claim that it is derived from, over any number of steps.
pub data Ancestor (d : Dict MemoryClaim) : ℕ → ℕ → Type 0 where
  self : {k : ℕ} → Ancestor d k k
  above :
      {k p j : ℕ} (ps : List ℕ)
      → parents d k ≡ ok ps
      → elem p ps ≡ true
      → Ancestor d p j
      → Ancestor d k j

module _ (d : Dict MemoryClaim) where
  pub visit_each-ok :
      (f : ℕ → Outcome LineageError (Unit {0})) (ks : List ℕ) (k : ℕ)
      → visit_each f ks ≡ ok tt
      → elem k ks ≡ true
      → f k ≡ ok tt
  unfolding visit_each
  visit_each-ok f [] k = λ h m. absurd (cc)
  visit_each-ok f (j ∷ js) k = elim (Outcome-cases (f j)) [
    | inr (e, eq) ↦ rw (eq, visit_each) (λ h m. absurd (cc))
    | inl (tt, eq) ↦
        rw (eq, visit_each)
          (λ h. elim (Bool-cases (k == j)) [
            | inl hit ↦ rw hit (λ m. let q : j ≡ k = ground arith in subst (λ x. f x ≡ ok tt) q eq)
            | inr miss ↦ rw miss (λ m. visit_each-ok f js k h m)
          ])
  ]

  visit-parts :
      (fuel : ℕ) (stack : List ℕ) (k : ℕ) (ps : List ℕ)
      → visit (suc fuel) d stack k ≡ ok tt
      → parents d k ≡ ok ps
      → (elem k stack ≡ false) × (visit_each (visit fuel d (k ∷ stack)) ps ≡ ok tt)
  unfolding visit
  visit-parts fuel stack k ps h at = elim (Bool-cases (elem k stack)) [
    | inl again ↦ absurd (ground arith)
    | inr new ↦ (new, ground arith)
  ]

  -- A claim that was visited has no ancestor on the stack.
  visit-misses :
      {k j : ℕ} (fuel : ℕ) (stack : List ℕ)
      → Ancestor d k j
      → visit fuel d stack k ≡ ok tt
      → elem j stack ≡ false
  unfolding visit
  visit-misses zero stack a h = absurd (cc)
  visit-misses {k} (suc fuel) stack self h = ground arith
  visit-misses {k} {j} (suc fuel) stack (above {p = p} ps at m rest) h =
      let (new, deeper) = visit-parts fuel stack k ps h at in
      let here = visit_each-ok (visit fuel d (k ∷ stack)) ps p deeper m in
      let missed : elem j (k ∷ stack) ≡ false = visit-misses fuel (k ∷ stack) rest here in
      ground arith

  -- A claim that was visited derives from itself over no step or more only by being itself.
  pub visit-acyclic :
      (fuel : ℕ) (stack : List ℕ) (k p : ℕ) (ps : List ℕ)
      → visit fuel d stack k ≡ ok tt
      → parents d k ≡ ok ps
      → elem p ps ≡ true
      → ¬ Ancestor d p k
  unfolding visit
  visit-acyclic zero stack k p ps h at m a = absurd (cc)
  visit-acyclic (suc fuel) stack k p ps h at m a =
      let (new, deeper) = visit-parts fuel stack k ps h at in
      let here = visit_each-ok (visit fuel d (k ∷ stack)) ps p deeper m in
      let missed : elem k (k ∷ stack) ≡ false = visit-misses fuel (k ∷ stack) a here in ground arith

  -- The parents of each claim are known.
  abbrev pub Closed : Type 0
  Closed = (k : ℕ) (ps : List ℕ) → parents d k ≡ ok ps → All (λ p. has_key p d ≡ true) ps

  pub visit_each-fueled :
      (f : ℕ → Outcome LineageError (Unit {0})) (ks : List ℕ)
      → All (λ k. f k ≢ raised out_of_fuel) ks
      → visit_each f ks ≢ raised out_of_fuel
  unfolding visit_each
  visit_each-fueled f [] hs = λ h. cc
  visit_each-fueled f (k ∷ ks) (h, hs) = elim (Outcome-cases (f k)) [
    | inl (u, eq) ↦ rw (eq, visit_each) (visit_each-fueled f ks hs)
    | inr (e, eq) ↦
        rw (eq, visit_each)
          (λ q. let same_error : e ≡ out_of_fuel = ground arith in h (eq ∙ ap raised same_error))
  ]

  pub All-fueled :
      (fuel : ℕ) (stack ks : List ℕ)
      → ((k : ℕ) → has_key k d ≡ true → visit fuel d stack k ≢ raised out_of_fuel)
      → All (λ k. has_key k d ≡ true) ks
      → All (λ k. visit fuel d stack k ≢ raised out_of_fuel) ks
  All-fueled fuel stack [] f hs = tt
  All-fueled fuel stack (k ∷ ks) f (h, hs) = (f k h, All-fueled fuel stack ks f hs)

  parents-fueled : (k : ℕ) → parents d k ≢ raised out_of_fuel
  unfolding parents
  parents-fueled k = elim (Option-cases (lookup k d)) [
    | inl gone ↦ rw (gone, parents) (λ h. cc)
    | inr (c, here) ↦ elim (Option-cases c.derived_from) [
      | inl listless ↦ rw (here, listless, parents) (λ h. cc)
      | inr (ps, listed) ↦ rw (here, listed, parents) (λ h. cc)
    ]
  ]

  -- With fuel for each claim that is not on the stack, a visit does not run out of it.
  pub visit-fueled :
      (fuel : ℕ) (stack : List ℕ) (k : ℕ)
      → Closed
      → Distinct stack
      → AreKeys stack d
      → length d < fuel + length stack
      → has_key k d ≡ true
      → visit fuel d stack k ≢ raised out_of_fuel
  unfolding visit
  visit-fueled zero stack k closed distinct held enough known =
      let few = length-Distinct stack d distinct held in absurd (omega arith)
  visit-fueled (suc fuel) stack k closed distinct held enough known =
      elim (Bool-cases (elem k stack)) [
        | inl again ↦ rw again (λ h. cc)
        | inr new ↦ elim (Outcome-cases (parents d k)) [
          | inr (e, eq) ↦
              rw (new, eq)
                (λ q.
                  let same_error : e ≡ out_of_fuel = ground arith in
                  parents-fueled k (eq ∙ ap raised same_error))
          | inl (ps, eq) ↦
              rw (new, eq)
                (visit_each-fueled (visit fuel d (k ∷ stack)) ps (
                  All-fueled fuel (k ∷ stack) ps
                    (λ j.
                      visit-fueled fuel (k ∷ stack) j closed (new, distinct) (known, held)
                        (omega arith))
                    (closed k ps eq)))
        ]
      ]
