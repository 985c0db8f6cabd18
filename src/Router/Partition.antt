-- ===== src/Router/Partition.antt =====
-- Grouping puts each requirement under its own route, in the order of the challenge
-- (minority_prophet/evidence_router.py, plan).
use minority_prophet_gate.Base.{
  ℕ, ◌≡◌, refl, sym, ◌∙◌, ap, subst, inl, inr, Bool, true, false, Option, none, some, List, [], ◌∷◌,
  ◌++◌, ◌==◌, if◌then◌else◌, arith, All, count, elem, Dict, lookup, insert, keys, lookup-insert,
  lookup-insert_self, ==_refl, ok, Outcome-cases, Option-cases, Bool-cases,
}
use minority_prophet_gate.Base.Pigeonhole.{Distinct}
use minority_prophet_gate.Base.Keys.{insert-Distinct, Own}
use minority_prophet_gate.Request.Policy.{
  CollectorRoute, EvidenceRequirement, same_texts, same_flag, same_route,
}
use minority_prophet_gate.Router.Plan.{Group, add_requirement, group}

-- The requirements of a route id, in their order.
abbrev pub of_route_id : ℕ → List EvidenceRequirement → List EvidenceRequirement
of_route_id k [] = []
of_route_id k (q ∷ qs) =
    let rest = of_route_id k qs in if k == q.collector_route.route_id then q ∷ rest else rest

of_route_id-append :
    (k : ℕ) (qs rs : List EvidenceRequirement)
    → of_route_id k (qs ++ rs) ≡ of_route_id k qs ++ of_route_id k rs
of_route_id-append k [] rs = refl
of_route_id-append k (q ∷ qs) rs = elim (Bool-cases (k == q.collector_route.route_id)) [
  | inl hit ↦ rw hit (ap (λ xs. q ∷ xs) (of_route_id-append k qs rs))
  | inr miss ↦ rw miss (of_route_id-append k qs rs)
]

append_nil : (qs : List EvidenceRequirement) → qs ++ [] ≡ qs
append_nil [] = refl
append_nil (q ∷ qs) = ap (λ xs. q ∷ xs) (append_nil qs)

append_assoc :
    (xs : List EvidenceRequirement) (q : EvidenceRequirement) (ys : List EvidenceRequirement)
    → (xs ++ q ∷ []) ++ ys ≡ xs ++ q ∷ ys
append_assoc [] q ys = refl
append_assoc (x ∷ xs) q ys = ap (λ zs. x ∷ zs) (append_assoc xs q ys)

same_texts_refl : (ts : List ℕ) → same_texts ts ts ≡ true
same_texts_refl [] = refl
same_texts_refl (t ∷ ts) = ground (arith, same_texts_refl ts)

same_flag_refl : (b : Bool) → same_flag b b ≡ true
same_flag_refl true = refl
same_flag_refl false = refl

same_route_refl : (r : CollectorRoute) → same_route r r ≡ true
same_route_refl r =
    ground (arith, same_texts_refl r.allowed_actions, same_flag_refl r.requires_independence)

-- Every requirement of a group has the group's route.
abbrev pub IsAlike : Group → Type 0
IsAlike g = All (λ q. same_route g.0 q.collector_route ≡ true) g.1

All-append :
    (r : CollectorRoute) (qs rs : List EvidenceRequirement)
    → All (λ q. same_route r q.collector_route ≡ true) qs
    → All (λ q. same_route r q.collector_route ≡ true) rs
    → All (λ q. same_route r q.collector_route ≡ true) (qs ++ rs)
All-append r [] rs _ h = h
All-append r (q ∷ qs) rs (here, rest) h = (here, All-append r qs rs rest h)

abbrev pub members : Option Group → List EvidenceRequirement
members none = []
members (some g) = g.1

abbrev pub listed : ℕ → Dict Group → List EvidenceRequirement
listed k gs = members (lookup k gs)

-- The groups of the requirements that were taken so far.
pub record AreGroups (taken : List EvidenceRequirement) (gs : Dict Group) : Type 0 where
  pub lists : (k : ℕ) → listed k gs ≡ of_route_id k taken
  pub routes : (k : ℕ) (g : Group) → lookup k gs ≡ some g → (g.0.route_id ≡ k) × IsAlike g
  pub distinct : Distinct (keys gs)

-- A group that takes one more requirement.
insert-AreGroups :
    (q : EvidenceRequirement) (taken : List EvidenceRequirement) (gs : Dict Group) (g : Group)
    → AreGroups taken gs
    → g.1 ≡ listed q.collector_route.route_id gs ++ q ∷ []
    → g.0.route_id ≡ q.collector_route.route_id
    → IsAlike g
    → AreGroups (taken ++ q ∷ []) (insert q.collector_route.route_id g gs)
insert-AreGroups q taken gs g groups more named alike =
    let rid = q.collector_route.route_id in
    let alone : of_route_id rid (q ∷ []) ≡ q ∷ [] = rw (==_refl rid) refl in
    let whole : of_route_id rid (taken ++ q ∷ []) ≡ of_route_id rid taken ++ q ∷ [] =
      of_route_id-append rid taken (q ∷ []) ∙ ap (λ xs. of_route_id rid taken ++ xs) alone in
    let here : listed rid (insert rid g gs) ≡ of_route_id rid (taken ++ q ∷ []) =
      ap members (lookup-insert_self rid g gs)
      ∙ (more ∙ ap (λ xs. xs ++ q ∷ []) (groups.lists rid) ∙ sym whole) in
    record {
      lists = λ k. elim (Bool-cases (k == rid)) [
        | inl hit ↦
            let e : rid ≡ k = ground arith in
            subst (λ j. listed j (insert rid g gs) ≡ of_route_id j (taken ++ q ∷ [])) e here
        | inr miss ↦
            let unchanged : lookup k (insert rid g gs) ≡ lookup k gs =
              ground (arith, lookup-insert rid k g gs, miss) in
            let same_group : listed k (insert rid g gs) ≡ listed k gs = ap members unchanged in
            let nothing : of_route_id k (q ∷ []) ≡ [] = rw miss refl in
            same_group
            ∙ groups.lists k
            ∙ sym (
                of_route_id-append k taken (q ∷ [])
                ∙ ap (λ xs. of_route_id k taken ++ xs) nothing
                ∙ append_nil (of_route_id k taken))
      ];
      routes = λ k h at. elim (Bool-cases (k == rid)) [
        | inl hit ↦
            let e : rid ≡ k = ground arith in
            let found : g ≡ h = ground (arith, lookup-insert rid k g gs, at, hit) in
            subst (λ x. (x.0.route_id ≡ k) × IsAlike x) found (named ∙ e, alike)
        | inr miss ↦ groups.routes k h (ground (arith, lookup-insert rid k g gs, at, miss))
      ];
      distinct = insert-Distinct rid g gs groups.distinct;
    }

add_requirement-AreGroups :
    (q : EvidenceRequirement) (taken : List EvidenceRequirement) (gs hs : Dict Group)
    → AreGroups taken gs
    → add_requirement q gs ≡ ok hs
    → AreGroups (taken ++ q ∷ []) hs
unfolding add_requirement
add_requirement-AreGroups q taken gs hs groups =
    let route = q.collector_route in
    elim (Option-cases (lookup route.route_id gs)) [
      | inl new ↦
          rw (new, add_requirement)
            (λ h.
              let e : insert route.route_id (route, q ∷ []) gs ≡ hs = ground arith in
              subst (AreGroups (taken ++ q ∷ [])) e (
                insert-AreGroups q taken gs (route, q ∷ []) groups
                  (ap (λ o. members o ++ q ∷ []) (sym new)) refl (same_route_refl route, tt)))
      | inr (g, old) ↦ elim (Bool-cases (same_route g.0 route)) [
        | inr differs ↦ rw (old, differs, add_requirement) (λ h. absurd (cc))
        | inl agrees ↦
            rw (old, agrees, add_requirement)
              (λ h.
                let (named, alike) = groups.routes route.route_id g old in
                let e : insert route.route_id (g.0, g.1 ++ q ∷ []) gs ≡ hs = ground arith in
                subst (AreGroups (taken ++ q ∷ [])) e (
                  insert-AreGroups q taken gs (g.0, g.1 ++ q ∷ []) groups
                    (ap (λ o. members o ++ q ∷ []) (sym old)) named
                    (All-append g.0 g.1 (q ∷ []) alike (agrees, tt))))
      ]
    ]

pub group-AreGroups :
    (qs taken : List EvidenceRequirement) (gs hs : Dict Group)
    → AreGroups taken gs
    → group qs gs ≡ ok hs
    → AreGroups (taken ++ qs) hs
unfolding group
group-AreGroups [] taken gs hs groups = λ h.
    let e : gs ≡ hs = ground arith in
    subst (AreGroups (taken ++ [])) e
      (subst (λ xs. AreGroups xs gs) (sym (append_nil taken)) groups)
group-AreGroups (q ∷ qs) taken gs hs groups = elim (Outcome-cases (add_requirement q gs)) [
  | inr (e, eq) ↦ rw (eq, group) (λ h. absurd (cc))
  | inl (ks, eq) ↦
      rw (eq, group)
        (λ h.
          subst (λ xs. AreGroups xs hs) (append_assoc taken q qs)
            (group-AreGroups qs (taken ++ q ∷ []) ks hs
              (add_requirement-AreGroups q taken gs ks groups eq) h))
]

-- A group stands under the id of its route, and holds the requirements of that id.
pub record IsGroup (qs : List EvidenceRequirement) (e : ℕ × Group) : Type 0 where
  pub named : e.1.0.route_id ≡ e.0
  pub alike : IsAlike e.1
  pub exact : e.1.1 ≡ of_route_id e.0 qs

pub All-IsGroup :
    (qs : List EvidenceRequirement) (gs rest : Dict Group)
    → AreGroups qs gs
    → Own gs rest
    → All (IsGroup qs) rest
All-IsGroup qs gs [] groups own = tt
All-IsGroup qs gs (e ∷ rest) groups (here, own) =
    let (named, alike) = groups.routes e.0 e.1 here in
    let found : listed e.0 gs ≡ e.1.1 = ap members here in
    (
      record { named = named; alike = alike; exact = sym found ∙ groups.lists e.0 },
      All-IsGroup qs gs rest groups own,
    )

pub count-Distinct : (k : ℕ) (ks : List ℕ) → Distinct ks → count k ks ≡ (if elem k ks then 1 else 0)
count-Distinct k [] d = refl
count-Distinct k (j ∷ ks) (new, d) = ground (arith, count-Distinct k ks d)

-- Each requirement's route has one group.
abbrev pub AreRouted : List EvidenceRequirement → Dict Group → Type 0
AreRouted qs gs = All (λ q. count q.collector_route.route_id (keys gs) ≡ 1) qs
