-- ===== src/Router/Assigned.antt =====
-- Each route of the challenge has one group, with exactly its requirements, also once the groups are
-- sorted (minority_prophet/evidence_router.py, plan).
use minority_prophet_gate.Base.{
  ℕ, ◌+◌, ◌≡◌, ◌≢◌, refl, sym, ◌∙◌, ap, inl, inr, Bool, true, some, List, [], ◌∷◌, ◌==◌,
  if◌then◌else◌, arith, All, count, elem, Dict, lookup, keys, ok, Option-cases, Bool-cases,
}
use minority_prophet_gate.Base.Keys.{Distinct-Own}
use minority_prophet_gate.Request.Policy.{EvidenceRequirement}
use minority_prophet_gate.Router.Plan.{Group, group, place, by_route}
use minority_prophet_gate.Router.Partition.{
  of_route_id, members, AreGroups, group-AreGroups, IsGroup, All-IsGroup, count-Distinct, AreRouted,
}

occurs-more :
    (x : EvidenceRequirement) (qs rest : List EvidenceRequirement)
    → All (λ q. of_route_id q.collector_route.route_id qs ≢ []) rest
    → All (λ q. of_route_id q.collector_route.route_id (x ∷ qs) ≢ []) rest
occurs-more x qs [] h = tt
occurs-more x qs (q ∷ rest) (here, h) = (λ e. ground arith, occurs-more x qs rest h)

occurs :
    (qs : List EvidenceRequirement) → All (λ q. of_route_id q.collector_route.route_id qs ≢ []) qs
occurs [] = tt
occurs (q ∷ qs) = (λ e. ground arith, occurs-more q qs qs (occurs qs))

lookup-keys : (k : ℕ) (g : Group) (gs : Dict Group) → lookup k gs ≡ some g → elem k (keys gs) ≡ true
lookup-keys k g [] h = absurd (cc)
lookup-keys k g (e ∷ gs) h = ground (arith, lookup-keys k g gs)

listed-AreRouted :
    (qs rest : List EvidenceRequirement) (gs : Dict Group)
    → AreGroups qs gs
    → All (λ q. of_route_id q.collector_route.route_id qs ≢ []) rest
    → AreRouted rest gs
listed-AreRouted qs [] gs groups h = tt
listed-AreRouted qs (q ∷ rest) gs groups (here, h) =
    let k = q.collector_route.route_id in
    (
      elim (Option-cases (lookup k gs)) [
        | inl missing ↦ absurd (here (sym (groups.lists k) ∙ ap members missing))
        | inr (g, found) ↦
            count-Distinct k (keys gs) groups.distinct ∙ rw (lookup-keys k g gs found) refl
      ],
      listed-AreRouted qs rest gs groups h,
    )

-- What grouping gives.
pub group-IsGroup :
    (qs : List EvidenceRequirement) (gs : Dict Group)
    → group qs [] ≡ ok gs
    → All (IsGroup qs) gs × AreRouted qs gs
group-IsGroup qs gs h =
    let groups =
      group-AreGroups qs [] [] gs
        (record { lists = λ k. refl; routes = λ k g at. absurd (cc); distinct = tt }) h in
    (
      All-IsGroup qs gs gs groups (Distinct-Own gs groups.distinct),
      listed-AreRouted qs qs gs groups (occurs qs),
    )

module _ (before : ℕ → ℕ → Bool) where
  place-All :
      (P : ℕ × Group → Type 0) (g : ℕ × Group) (gs : Dict Group)
      → P g
      → All P gs
      → All P (place before g gs)
  unfolding place
  place-All P g [] h all = (h, tt)
  place-All P g (x ∷ gs) h (here, all) = elim (Bool-cases (before g.0 x.0)) [
    | inl first ↦ rw first (h, (here, all))
    | inr later ↦ rw later (here, place-All P g gs h all)
  ]

  -- Sorting the groups keeps what holds of each.
  pub by_route-All :
      (P : ℕ × Group → Type 0) (gs : Dict Group) → All P gs → All P (by_route before gs)
  unfolding by_route
  by_route-All P [] all = tt
  by_route-All P (g ∷ gs) (here, all) =
      place-All P g (by_route before gs) here (by_route-All P gs all)

  place-count :
      (k : ℕ) (g : ℕ × Group) (gs : Dict Group)
      → count k (keys (place before g gs)) ≡ count k (keys (g ∷ gs))
  unfolding place
  place-count k g [] = refl
  place-count k g (x ∷ gs) = elim (Bool-cases (before g.0 x.0)) [
    | inl first ↦ rw first refl
    | inr later ↦ rw later (omega (arith, place-count k g gs))
  ]

  by_route-count :
      (k : ℕ) (gs : Dict Group) → count k (keys (by_route before gs)) ≡ count k (keys gs)
  unfolding by_route
  by_route-count k [] = refl
  by_route-count k (g ∷ gs) =
      place-count k g (by_route before gs)
      ∙ ap (λ n. (if k == g.0 then 1 else 0) + n) (by_route-count k gs)

  pub by_route-AreRouted :
      (qs : List EvidenceRequirement) (gs : Dict Group)
      → AreRouted qs gs
      → AreRouted qs (by_route before gs)
  by_route-AreRouted [] gs h = tt
  by_route-AreRouted (q ∷ qs) gs (here, h) =
      (by_route-count q.collector_route.route_id gs ∙ here, by_route-AreRouted qs gs h)
