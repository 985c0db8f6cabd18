-- ===== src/Router/Fresh.antt =====
-- A dispatch that returns a result it did not remember has met the route's policy, was authorized,
-- and its result was accepted (minority_prophet/evidence_router.py).
use minority_prophet_gate.Base.{
  ◌≡◌, ◌≢◌, refl, ap, subst, inl, inr, Option, none, some, arith, lookup, insert,
  lookup-insert_self, length, Outcome, ok, raised, Outcome-cases, Option-cases, Bool-cases,
}
use minority_prophet_gate.Audit.Event.{RoutingError, Entry, has}
use minority_prophet_gate.Audit.Interface.{
  AuditLog, dispatch_authorized, dispatch_started, collection_returned,
}
use minority_prophet_gate.Router.Types.{
  EvidenceDispatch, CollectionAuthorization, Digests, digests, EvidenceCollectionResult, Details,
  of_collector, of_authorization, of_return,
}
use minority_prophet_gate.Router.Checks.{
  verify_dispatch, verify_collector, verify_authorization, verify_result,
}
use minority_prophet_gate.Router.Site.{Failure, Collector, Site, RouterState, entry_for, terminal}
use minority_prophet_gate.Router.Dispatch.{
  refuse, failed, returned, stored, keep, collected, start, denied, authorized, ask, first_dispatch,
  unanswered, dispatch,
}
use minority_prophet_gate.Router.Accepted.{IsAccepted, verify_result-IsAccepted}
use minority_prophet_gate.Router.Permitted.{
  MeetsPolicy, Permits, collector-MeetsPolicy, authorization-Permits,
}

module _ {L W : Type 0} (log : AuditLog Details L) (hash : Digests) (site : Site log W)
    (d : EvidenceDispatch) (r : EvidenceCollectionResult) where
  -- What stands behind a result that a dispatch in the state `s` collected, and the state `t` after it:
  -- the authorizer was asked for the configured collector and gave the permit, and this collector, called
  -- next, gave the result.
  pub record IsCollected (s t : RouterState L W) : Type 0 where
    pub collector : Collector W
    pub configured : lookup d.payload.route.route_id site.collectors ≡ some collector
    pub meets : MeetsPolicy d collector.descriptor
    pub authorization : CollectionAuthorization
    pub authorized : (site.authorize d collector.descriptor s.world).0 ≡ ok (some authorization)
    pub permits : Permits d collector.descriptor authorization
    pub gathered : (collector.collect d (site.authorize d collector.descriptor s.world).1).0 ≡ ok r
    pub accepted : IsAccepted hash d collector.descriptor r
    pub remembered : lookup d.dispatch_id t.results ≡ some r

  refuse_raises :
      (entry : Entry Details) (why : RoutingError) (s : RouterState L W)
      → (refuse log {A = EvidenceCollectionResult} entry why s).0 ≢ ok r
  unfolding refuse
  refuse_raises entry why s = elim (Outcome-cases (log.append entry s.log)) [
    | inl (m, eq) ↦ rw (eq, refuse) (λ h. absurd (cc))
    | inr (e, eq) ↦ rw (eq, refuse) (λ h. absurd (cc))
  ]

  module _ (c : Collector W) where
    -- What was collected is the result, which is accepted and remembered.
    abbrev Kept : Outcome Failure EvidenceCollectionResult → RouterState L W → Type 0
    Kept x s =
        (x ≡ ok r) × IsAccepted hash d c.descriptor r × (lookup d.dispatch_id s.results ≡ some r)

    returned-Kept :
        (x : EvidenceCollectionResult) (s : RouterState L W)
        → IsAccepted hash d c.descriptor x
        → (returned log hash site d c x s).0 ≡ ok r
        → Kept (ok x) (returned log hash site d c x s).1
    unfolding returned
    returned-Kept x s fine = elim (Outcome-cases (digests hash x.items)) [
      | inr (e, eq) ↦ rw (eq, returned) (λ h. absurd (cc))
      | inl (ds, eq) ↦
          let entry =
            entry_for collection_returned d
              (of_return c.descriptor.collector_id x.status ds (length x.items)) in
          elim (Outcome-cases (log.append entry s.log)) [
            | inr (e, fq) ↦ rw (eq, fq, returned) (λ h. absurd (cc))
            | inl (m, fq) ↦
                rw (eq, fq, returned)
                  (λ h.
                    let q : x ≡ r = ground arith in
                    (
                      ap ok q,
                      subst (IsAccepted hash d c.descriptor) q fine,
                      subst (λ y. lookup d.dispatch_id (insert d.dispatch_id x s.results) ≡ some y)
                          q (lookup-insert_self d.dispatch_id x s.results),
                    ))
          ]
    ]

    keep-Kept :
        (x : EvidenceCollectionResult) (s : RouterState L W)
        → IsAccepted hash d c.descriptor x
        → (keep log hash site d c x s).0 ≡ ok r
        → Kept (ok x) (keep log hash site d c x s).1
    unfolding keep stored failed
    keep-Kept x s fine = elim (Option-cases site.artifact_store) [
      | inl absent ↦ rw (absent, keep) (returned-Kept x s fine)
      | inr (store, given) ↦ elim (Outcome-cases (store.persist d x s.log)) [
        | inr (e, eq) ↦ rw (given, eq, keep) (λ h. absurd (refuse_raises _ _ s h))
        | inl (m, eq) ↦ rw (given, eq, keep) (returned-Kept x (record s { log = m }) fine)
      ]
    ]

    collected-Kept :
        (x : Outcome Failure EvidenceCollectionResult) (s : RouterState L W)
        → (collected log hash site d c x s).0 ≡ ok r
        → Kept x (collected log hash site d c x s).1
    unfolding collected failed
    collected-Kept (raised e) s = λ h. absurd (refuse_raises _ _ s h)
    collected-Kept (ok x) s = elim (Outcome-cases (verify_result hash d c.descriptor x)) [
      | inr (e, eq) ↦ rw (eq, collected) (λ h. absurd (refuse_raises _ _ s h))
      | inl (u, eq) ↦
          rw (eq, collected) (keep-Kept x s (verify_result-IsAccepted hash d c.descriptor x eq))
    ]

    start-Kept :
        (a : CollectionAuthorization) (s : RouterState L W)
        → (start log hash site d c a s).0 ≡ ok r
        → Kept (c.collect d s.world).0 (start log hash site d c a s).1
    unfolding start
    start-Kept a s =
        let id = c.descriptor.collector_id in
        let first =
          entry_for dispatch_authorized d
            (of_authorization a.authorization_id id a.allowed_actions) in
        elim (Outcome-cases (log.append first s.log)) [
          | inr (e, eq) ↦ rw (eq, start) (λ h. absurd (cc))
          | inl (l, eq) ↦
              elim (Outcome-cases (log.append (entry_for dispatch_started d (of_collector id)) l)) [
                | inr (e, fq) ↦ rw (eq, fq, start) (λ h. absurd (cc))
                | inl (m, fq) ↦
                    let (x, w) = c.collect d s.world in
                    rw (eq, fq, start) (collected-Kept x (record s { log = m; world = w }))
              ]
        ]

    authorized-Kept :
        (a : Outcome Failure (Option CollectionAuthorization)) (s : RouterState L W)
        → (authorized log hash site d c a s).0 ≡ ok r
        → ((p : CollectionAuthorization) × (a ≡ ok (some p)) × Permits d c.descriptor p)
          × Kept (c.collect d s.world).0 (authorized log hash site d c a s).1
    unfolding authorized denied
    authorized-Kept (raised e) s = λ h. absurd (refuse_raises _ _ s h)
    authorized-Kept (ok none) s = λ h. absurd (refuse_raises _ _ s h)
    authorized-Kept (ok (some p)) s = elim (Outcome-cases (verify_authorization d c.descriptor p)) [
      | inr (e, eq) ↦ rw (eq, authorized) (λ h. absurd (refuse_raises _ _ s h))
      | inl (u, eq) ↦
          rw (eq, authorized)
            (λ h. ((p, refl, authorization-Permits d c.descriptor p eq), start-Kept p s h))
    ]

  ask-IsCollected :
      (c : Collector W) (s : RouterState L W)
      → lookup d.payload.route.route_id site.collectors ≡ some c
      → (ask log hash site d c s).0 ≡ ok r
      → IsCollected s (ask log hash site d c s).1
  unfolding ask
  ask-IsCollected c s at = elim (Outcome-cases (verify_collector d c.descriptor)) [
    | inr (e, eq) ↦ rw (eq, ask) (λ h. absurd (refuse_raises _ _ s h))
    | inl (u, eq) ↦
        let (a, w) = site.authorize d c.descriptor s.world in
        rw (eq, ask)
          (λ h.
            let ((p, given, permits), (gave, accepted, remembered)) =
              authorized-Kept c a (record s { world = w }) h in
            record {
              collector = c;
              configured = at;
              meets = collector-MeetsPolicy d c.descriptor eq;
              authorization = p;
              authorized = given;
              permits = permits;
              gathered = gave;
              accepted = accepted;
              remembered = remembered;
            })
  ]

  unanswered-IsCollected :
      (s : RouterState L W)
      → (unanswered log hash site d (log.events s.log) s).0 ≡ ok r
      → IsCollected s (unanswered log hash site d (log.events s.log) s).1
  unfolding unanswered first_dispatch
  unanswered-IsCollected s = elim (Outcome-cases (log.events s.log)) [
    | inr (e, eq) ↦ rw (eq, unanswered) (λ h. absurd (cc))
    | inl (es, eq) ↦ elim (Bool-cases (terminal d.dispatch_id es)) [
      | inl ended ↦ rw (eq, ended, unanswered) (λ h. absurd (cc))
      | inr open_still ↦ elim (Bool-cases (has dispatch_started d.dispatch_id es)) [
        | inl begun ↦ rw (eq, open_still, begun, unanswered) (λ h. absurd (cc))
        | inr fresh ↦ elim (Option-cases (lookup d.payload.route.route_id site.collectors)) [
          | inl missing ↦
              rw (eq, open_still, fresh, unanswered, missing, first_dispatch)
                (λ h. absurd (refuse_raises _ _ s h))
          | inr (c, at) ↦
              rw (eq, open_still, fresh, unanswered, at, first_dispatch) (ask-IsCollected c s at)
        ]
      ]
    ]
  ]

  -- A result that a dispatch returns, and that the router did not remember, is what the collector that
  -- is configured for the route, and meets its policy, gave when it was called; before that the
  -- authorizer, asked for this dispatch and collector, gave a permit for exactly them. The result
  -- passed every check, and is remembered.
  pub dispatch-IsCollected :
      (s : RouterState L W)
      → lookup d.dispatch_id s.results ≡ none
      → (dispatch log hash site d s).0 ≡ ok r
      → IsCollected s (dispatch log hash site d s).1
  unfolding dispatch
  dispatch-IsCollected s new = elim (Outcome-cases (verify_dispatch hash d)) [
    | inr (e, eq) ↦ rw (eq, dispatch) (λ h. absurd (cc))
    | inl (u, eq) ↦ rw (eq, new, dispatch) (unanswered-IsCollected s)
  ]
