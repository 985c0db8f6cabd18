-- ===== src/Router/Caps.antt =====
-- The plan shares the challenge's items out over its routes, and routes every requirement
-- (minority_prophet/evidence_router.py).
use minority_prophet_gate.Base.{
  ℕ, suc, ◌+◌, ◌-◌, ◌*◌, ◌/◌, ◌%◌, ◌≡◌, ◌≤◌, ◌<◌, refl, sym, true, count, keys, ◌∙◌, ap, subst, inl,
  inr, Bool, List, [], ◌∷◌, ◌==◌, ltb, ltb→lt, le→leb, arith, Dict, length, Outcome, ok, raised,
  Outcome-cases, Bool-cases, if◌then◌else◌, All,
}
use native.Mathlib.Nat.{div-add-mod, mod-lt, mul-suc}
use minority_prophet_gate.Request.Challenge.{Host, EvidenceRequest, verify_evidence_request}
use minority_prophet_gate.Audit.Event.{RoutingError}
use minority_prophet_gate.Audit.Interface.{AuditLog}
use minority_prophet_gate.Router.Types.{pos, negsuc, EvidenceDispatch, Digests, Details}
use minority_prophet_gate.Router.Checks.{verify_dispatch}
use minority_prophet_gate.Router.Plan.{
  Group, group, by_route, route_item_cap, dispatches, note_all, note_plan, plan_groups,
  plan_received, plan, note_received,
}
use minority_prophet_gate.Request.Policy.{EvidenceRequirement, same_route}
use minority_prophet_gate.Router.Partition.{of_route_id, IsGroup, AreRouted}
use minority_prophet_gate.Router.Assigned.{group-IsGroup, by_route-All, by_route-AreRouted}
use minority_prophet_gate.Router.Grouped.{grouped_count, group-grouped_count, by_route_counts}

-- The caps of some dispatches, where none lies below 0.
abbrev pub cap_total : List EvidenceDispatch → ℕ
cap_total [] = 0
cap_total (d ∷ ds) = (elim d.payload.max_evidence_items [ pos n ↦ n | negsuc _ ↦ 0 ]) + cap_total ds

abbrev pub routed_total : List EvidenceDispatch → ℕ
routed_total [] = 0
routed_total (d ∷ ds) = length d.payload.requirements + routed_total ds

abbrev pub route_ids : List EvidenceDispatch → List ℕ
route_ids [] = []
route_ids (d ∷ ds) = d.payload.route.route_id ∷ route_ids ds

-- A dispatch carries exactly the requirements of its route, in their order.
pub record IsExact (qs : List EvidenceRequirement) (d : EvidenceDispatch) : Type 0 where
  pub requirements : d.payload.requirements ≡ of_route_id d.payload.route.route_id qs
  pub alike : All (λ q. same_route d.payload.route q.collector_route ≡ true) d.payload.requirements

-- A dispatch passes its check, and may return at least an item for each of its requirements.
abbrev pub IsRoomy : Digests → EvidenceDispatch → Type 0
IsRoomy hash d =
    (verify_dispatch hash d ≡ ok tt)
    × ((n : ℕ) × (d.payload.max_evidence_items ≡ pos n) × (length d.payload.requirements ≤ n))

module _ (hash : Digests) (domain : ℕ) (r : EvidenceRequest)
    (fits : length r.payload.requirements ≤ r.payload.max_evidence_items) where
  abbrev spare : ℕ
  spare = r.payload.max_evidence_items - length r.payload.requirements

  dispatches-cap_total :
      (routes index : ℕ) (gs : Dict Group)
      → index + length gs ≡ routes
      → spare % routes < routes
      → cap_total (dispatches hash domain r routes index gs)
        ≡ grouped_count gs + (spare / routes) * length gs + (spare % routes - index)
  unfolding dispatches route_item_cap
  dispatches-cap_total routes index [] e lt = omega arith
  dispatches-cap_total routes index (g ∷ gs) e lt =
      let ih = dispatches-cap_total routes (suc index) gs (omega arith) lt in
      let ok_fits = le→leb _ _ fits in
      elim (Bool-cases (ltb index (spare % routes))) [
        | inl b ↦
            rw (ok_fits, b, ih) (omega (arith, ltb→lt _ _ b, mul-suc (spare / routes) (length gs)))
        | inr b ↦
            let not_below : spare % routes ≤ index = ground arith in
            rw (ok_fits, b, ih) (omega (arith, not_below, mul-suc (spare / routes) (length gs)))
      ]

  dispatches-routed_total :
      (routes index : ℕ) (gs : Dict Group)
      → routed_total (dispatches hash domain r routes index gs) ≡ grouped_count gs
  unfolding dispatches
  dispatches-routed_total routes index [] = refl
  dispatches-routed_total routes index (g ∷ gs) =
      omega (arith, dispatches-routed_total routes (suc index) gs)

  dispatches-IsRoomy :
      (routes index : ℕ) (gs : Dict Group)
      → All (IsRoomy hash) (dispatches hash domain r routes index gs)
  unfolding dispatches route_item_cap verify_dispatch
  dispatches-IsRoomy routes index [] = tt
  dispatches-IsRoomy routes index (g ∷ gs) =
      let n = length g.1.1 + spare / routes + (if ltb index (spare % routes) then 1 else 0) in
      (
        (ground arith, (n, rw (le→leb _ _ fits) refl, omega arith)),
        dispatches-IsRoomy routes (suc index) gs,
      )

  dispatches-IsExact :
      (qs : List EvidenceRequirement) (routes index : ℕ) (gs : Dict Group)
      → All (IsGroup qs) gs
      → All (IsExact qs) (dispatches hash domain r routes index gs)
        × (route_ids (dispatches hash domain r routes index gs) ≡ keys gs)
  unfolding dispatches
  dispatches-IsExact qs routes index [] h = (tt, refl)
  dispatches-IsExact qs routes index (g ∷ gs) (here, h) =
      let (rest, ids) = dispatches-IsExact qs routes (suc index) gs h in
      (
        (
          record {
            requirements = here.exact ∙ ap (λ k. of_route_id k qs) (sym here.named);
            alike = here.alike;
          },
          rest,
        ),
        ap (λ ks. g.1.0.route_id ∷ ks) ids ∙ ap (λ k. k ∷ keys gs) here.named,
      )

-- What a plan promises of its dispatches: the caps, and that the route of each requirement has one
-- dispatch, which carries the requirements of its route and no other.
pub record IsShared (hash : Digests) (r : EvidenceRequest) (ds : List EvidenceDispatch)
    : Type 0 where
  pub caps : cap_total ds ≡ r.payload.max_evidence_items
  pub routed : routed_total ds ≡ length r.payload.requirements
  pub exact : All (IsExact r.payload.requirements) ds
  pub once : All (λ q. count q.collector_route.route_id (route_ids ds) ≡ 1) r.payload.requirements
  pub roomy : All (IsRoomy hash) ds

-- What grouping gives the plan.
abbrev AreGrouped : List EvidenceRequirement → Dict Group → Type 0
AreGrouped qs gs = (grouped_count gs ≡ length qs) × All (IsGroup qs) gs × AreRouted qs gs

group-AreGrouped :
    (qs : List EvidenceRequirement) (gs : Dict Group) → group qs [] ≡ ok gs → AreGrouped qs gs
group-AreGrouped qs gs h =
    let (groups, routed) = group-IsGroup qs gs h in
    (omega (arith, group-grouped_count qs [] gs h), groups, routed)

module _ {L : Type 0} (log : AuditLog Details L) (hash : Digests) (before : ℕ → ℕ → Bool)
    (domain : ℕ) (r : EvidenceRequest)
    (fits : length r.payload.requirements ≤ r.payload.max_evidence_items) where
  groups-IsShared :
      (g : ℕ × Group) (gs : Dict Group)
      → AreGrouped r.payload.requirements (g ∷ gs)
      → IsShared hash r (dispatches hash domain r (length (g ∷ gs)) 0 (by_route before (g ∷ gs)))
  groups-IsShared g gs (counted, groups, routed) =
      let n = suc (length gs) in
      let qs = r.payload.requirements in
      let sorted = by_route before (g ∷ gs) in
      let (exact, ids) =
        dispatches-IsExact hash domain r fits qs n 0 sorted
          (by_route-All before (IsGroup qs) (g ∷ gs) groups) in
      let (a, b) = by_route_counts before (g ∷ gs) in
      let some_route : 0 < n = omega arith in
      let lt = mod-lt (spare hash domain r fits) {m = n} some_route in
      let share = div-add-mod (spare hash domain r fits) n in
      record {
        caps =
            let total =
              dispatches-cap_total hash domain r fits n 0 (by_route before (g ∷ gs))
                (omega (arith, b)) lt in
            let whole = ap (λ m. spare hash domain r fits / n * m) b in
            omega (arith, total, whole, share, a, counted, fits);
        routed = dispatches-routed_total hash domain r fits n 0 _ ∙ a ∙ counted;
        exact = exact;
        once =
            subst (λ ks. All (λ q. count q.collector_route.route_id ks ≡ 1) qs) (sym ids)
              (by_route-AreRouted before qs (g ∷ gs) routed);
        roomy = dispatches-IsRoomy hash domain r fits n 0 _;
      }

  note_plan_same :
      (ds es : List EvidenceDispatch) (l : L) → (note_plan log ds l).0 ≡ ok es → ds ≡ es
  unfolding note_plan
  note_plan_same ds es l = elim (Outcome-cases (note_all log ds l).0) [
    | inr (e, eq) ↦ rw (eq, note_plan) (λ h. absurd (cc))
    | inl (u, eq) ↦ rw (eq, note_plan) (λ h. ground arith)
  ]

  plan_groups-IsShared :
      (gs : Outcome RoutingError (Dict Group)) (l : L) (ds : List EvidenceDispatch)
      → ((hs : Dict Group) → gs ≡ ok hs → AreGrouped r.payload.requirements hs)
      → (plan_groups log hash before domain r gs l).0 ≡ ok ds
      → IsShared hash r ds
  unfolding plan_groups
  plan_groups-IsShared (raised e) l ds counted h = absurd (cc)
  plan_groups-IsShared (ok []) l ds counted h = absurd (cc)
  plan_groups-IsShared (ok (g ∷ gs)) l ds counted h =
      subst (IsShared hash r) (note_plan_same _ ds l h)
        (groups-IsShared g gs (counted (g ∷ gs) refl))

  -- Where the cap of the challenge is at least the number of its requirements, a plan that returns gives
  -- dispatches that pass their check. The route of each requirement of the challenge has one dispatch,
  -- and each dispatch carries exactly the requirements of its route, in their order. Each cap has room
  -- for these, and the caps add up to the challenge's cap.
  pub plan-IsShared :
      (host : Host) (l : L) (ds : List EvidenceDispatch)
      → (plan log hash before domain r host l).0 ≡ ok ds
      → IsShared hash r ds
  unfolding plan plan_received
  plan-IsShared host l ds = elim (Outcome-cases (verify_evidence_request host r)) [
    | inr (e, eq) ↦ rw (eq, plan) (λ h. absurd (cc))
    | inl (u, eq) ↦ elim (Bool-cases (domain == 0)) [
      | inl nameless ↦ rw (eq, nameless, plan) (λ h. absurd (cc))
      | inr named ↦ elim (Outcome-cases (note_received log r l).0) [
        | inr (e, fq) ↦ rw (eq, named, fq, plan, plan_received) (λ h. absurd (cc))
        | inl (v, fq) ↦
            rw (eq, named, fq, plan, plan_received)
              (λ h.
                plan_groups-IsShared (group r.payload.requirements []) (note_received log r l).1 ds
                  (group-AreGrouped r.payload.requirements) h)
      ]
    ]
  ]
