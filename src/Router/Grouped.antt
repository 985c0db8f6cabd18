-- ===== src/Router/Grouped.antt =====
-- Grouping the requirements by route loses none (minority_prophet/evidence_router.py, plan).
use minority_prophet_gate.Base.{
  ℕ, suc, ◌+◌, ◌≡◌, refl, subst, inl, inr, Bool, none, some, List, [], ◌∷◌, ◌++◌, ◌==◌, arith,
  lookup, insert, Dict, length, length-append, ok, Outcome-cases, Option-cases, Bool-cases,
}
use minority_prophet_gate.Request.Policy.{EvidenceRequirement, same_route}
use minority_prophet_gate.Router.Plan.{Group, add_requirement, group, place, by_route}

-- The requirements that are grouped.
abbrev pub grouped_count : Dict Group → ℕ
grouped_count [] = 0
grouped_count (g ∷ gs) = length g.1.1 + grouped_count gs

insert_new-grouped_count :
    (k : ℕ) (g : Group) (gs : Dict Group)
    → lookup k gs ≡ none
    → grouped_count (insert k g gs) ≡ length g.1 + grouped_count gs
insert_new-grouped_count k g [] h = omega arith
insert_new-grouped_count k g (x ∷ xs) h = ground (arith, insert_new-grouped_count k g xs)

insert_old-grouped_count :
    (k : ℕ) (g h : Group) (gs : Dict Group)
    → lookup k gs ≡ some h
    → grouped_count (insert k g gs) + length h.1 ≡ length g.1 + grouped_count gs
insert_old-grouped_count k g h [] = λ e. absurd (cc)
insert_old-grouped_count k g h (x ∷ xs) = elim (Bool-cases (k == x.0)) [
  | inl hit ↦ rw hit (λ e.
      let q : x.1 ≡ h = ground arith in
      subst
        (λ v.
          length g.1 + grouped_count xs + length v.1
          ≡ length g.1 + (length x.1.1 + grouped_count xs))
        q (omega arith))
  | inr miss ↦ rw miss (λ e. omega (arith, insert_old-grouped_count k g h xs e))
]

add_requirement-grouped_count :
    (q : EvidenceRequirement) (gs hs : Dict Group)
    → add_requirement q gs ≡ ok hs
    → grouped_count hs ≡ suc (grouped_count gs)
unfolding add_requirement
add_requirement-grouped_count q gs hs =
    let route = q.collector_route in
    elim (Option-cases (lookup route.route_id gs)) [
      | inl new ↦
          rw (new, add_requirement)
            (λ h.
              let e : insert route.route_id (route, q ∷ []) gs ≡ hs = ground arith in
              subst (λ v. grouped_count v ≡ suc (grouped_count gs)) e
                (omega (arith, insert_new-grouped_count route.route_id (route, q ∷ []) gs new)))
      | inr (g, old) ↦ elim (Bool-cases (same_route g.0 route)) [
        | inr differs ↦ rw (old, differs, add_requirement) (λ h. absurd (cc))
        | inl agrees ↦
            rw (old, agrees, add_requirement)
              (λ h.
                let e : insert route.route_id (g.0, g.1 ++ q ∷ []) gs ≡ hs = ground arith in
                subst (λ v. grouped_count v ≡ suc (grouped_count gs)) e
                  (omega (
                    arith,
                    insert_old-grouped_count route.route_id (g.0, g.1 ++ q ∷ []) g gs old,
                    length-append {0} g.1 (q ∷ []),
                  )))
      ]
    ]

pub group-grouped_count :
    (qs : List EvidenceRequirement) (gs hs : Dict Group)
    → group qs gs ≡ ok hs
    → grouped_count hs ≡ length qs + grouped_count gs
unfolding group
group-grouped_count [] gs hs = λ h. let e : gs ≡ hs = ground arith in rw e (omega arith)
group-grouped_count (q ∷ qs) gs hs = elim (Outcome-cases (add_requirement q gs)) [
  | inr (e, eq) ↦ rw (eq, group) (λ h. absurd (cc))
  | inl (ks, eq) ↦
      rw (eq, group)
        (λ h.
          omega (arith, group-grouped_count qs ks hs h, add_requirement-grouped_count q gs ks eq))
]

module _ (before : ℕ → ℕ → Bool) where
  place_counts :
      (g : ℕ × Group) (gs : Dict Group)
      → (grouped_count (place before g gs) ≡ length g.1.1 + grouped_count gs)
        × (length (place before g gs) ≡ suc (length gs))
  unfolding place
  place_counts g [] = (refl, refl)
  place_counts g (h ∷ hs) =
      let (a, b) = place_counts g hs in
      elim (Bool-cases (before g.0 h.0)) [
        | inl first ↦ rw first (refl, refl)
        | inr later ↦ rw later (omega (arith, a), omega (arith, b))
      ]

  pub by_route_counts :
      (gs : Dict Group)
      → (grouped_count (by_route before gs) ≡ grouped_count gs)
        × (length (by_route before gs) ≡ length gs)
  unfolding by_route
  by_route_counts [] = (refl, refl)
  by_route_counts (g ∷ gs) =
      let (a, b) = by_route_counts gs in
      let (c, d) = place_counts g (by_route before gs) in (omega (arith, a, c), omega (arith, b, d))
