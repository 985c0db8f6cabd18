-- ===== src/Router/Dispatch.antt =====
-- evidence_router.py: `dispatch`, branch by branch.
use minority_prophet_gate.Base.{
  Option, none, some, List, length, if◌then◌else◌, lookup, insert, Outcome, ok, raised, ◌>>=◌,
}
use minority_prophet_gate.Audit.Event.{
  RoutingError, EvidenceAuditEvent, Entry, has, already_terminal, attempt_unresolved,
  not_configured, authorizer_failed, not_authorized,
}
use minority_prophet_gate.Audit.Interface.{
  AuditLog, route_unavailable, route_rejected, dispatch_denied, dispatch_authorized,
  dispatch_started, collection_failed, collection_returned,
}
use minority_prophet_gate.Router.Types.{
  EvidenceDispatch, CollectionAuthorization, Digests, digests, EvidenceCollectionResult, Details,
  of_error, of_collector, of_collector_error, of_authorization, of_return,
}
use minority_prophet_gate.Router.Checks.{
  verify_dispatch, verify_collector, verify_authorization, verify_result,
}
use minority_prophet_gate.Router.Site.{
  Failure, routing, type_name, as_routing, Collector, Site, RouterState, entry_for, terminal,
  Answer,
}

module _ {L W : Type 0} (log : AuditLog Details L) where
  -- Append, then raise; where the append raises, that is what is raised.
  unfoldable pub refuse {ℓ} :
      {A : Type ℓ}
      → Entry Details
      → RoutingError
      → RouterState L W
      → Outcome RoutingError A × RouterState L W
  refuse entry why s = elim (log.append entry s.log) [
    | ok l ↦ (raised why, record s { log = l })
    | raised e ↦ (raised e, s)
  ]

  module _ (hash : Digests) (site : Site log W) (d : EvidenceDispatch) where
    module _ (c : Collector W) where
      -- the `except` of the collection
      unfoldable pub failed : Failure → RouterState L W → Answer L W EvidenceCollectionResult
      unfolding refuse
      failed e s =
          refuse
            (entry_for collection_failed d
              (of_collector_error c.descriptor.collector_id (type_name e)))
            (as_routing e) s

      -- The result is noted and remembered.
      unfoldable pub returned :
          EvidenceCollectionResult → RouterState L W → Answer L W EvidenceCollectionResult
      returned r s =
          elim (digests hash r.items >>= λ ds.
          log.append
            (entry_for collection_returned d
              (of_return c.descriptor.collector_id r.status ds (length r.items)))
            s.log) [
              | raised e ↦ (raised e, s)
              | ok l ↦ (ok r, record s { log = l; results = insert d.dispatch_id r s.results })
            ]

      unfoldable pub stored :
          EvidenceCollectionResult
          → Outcome Failure L
          → RouterState L W
          → Answer L W EvidenceCollectionResult
      unfolding failed returned
      stored r (raised e) s = failed e s
      stored r (ok l) s = returned r (record s { log = l })

      unfoldable pub keep :
          EvidenceCollectionResult → RouterState L W → Answer L W EvidenceCollectionResult
      unfolding stored
      keep r s = elim site.artifact_store [
        | none ↦ stored r (ok s.log) s
        | some store ↦ stored r (store.persist d r s.log) s
      ]

      unfoldable pub collected :
          Outcome Failure EvidenceCollectionResult
          → RouterState L W
          → Answer L W EvidenceCollectionResult
      unfolding failed keep
      collected (raised e) s = failed e s
      collected (ok r) s = elim (verify_result hash d c.descriptor r) [
        | raised e ↦ failed (routing e) s
        | ok _ ↦ keep r s
      ]

      -- Both events stand before the collector is called.
      unfoldable pub start :
          CollectionAuthorization → RouterState L W → Answer L W EvidenceCollectionResult
      unfolding collected
      start a s =
          elim (log.append
            (entry_for dispatch_authorized d
              (of_authorization a.authorization_id c.descriptor.collector_id a.allowed_actions))
            s.log) [
              | raised e ↦ (raised e, s)
              | ok l ↦
                  elim (log.append
                    (entry_for dispatch_started d (of_collector c.descriptor.collector_id)) l) [
                      | raised e ↦ (raised e, record s { log = l })
                      | ok m ↦
                          let (r, w) = c.collect d s.world in
                          collected r (record s { log = m; world = w })
                    ]
            ]

      unfoldable pub denied :
          Details → RoutingError → RouterState L W → Answer L W EvidenceCollectionResult
      unfolding refuse
      denied details why s = refuse (entry_for dispatch_denied d details) why s

      unfoldable pub authorized :
          Outcome Failure (Option CollectionAuthorization)
          → RouterState L W
          → Answer L W EvidenceCollectionResult
      unfolding start denied
      authorized (raised e) s =
          denied (of_collector_error c.descriptor.collector_id (type_name e)) authorizer_failed s
      authorized (ok none) s = denied (of_collector c.descriptor.collector_id) not_authorized s
      authorized (ok (some a)) s = elim (verify_authorization d c.descriptor a) [
        | raised e ↦ denied (of_collector_error c.descriptor.collector_id 2) e s
        | ok _ ↦ start a s
      ]

      unfoldable pub ask : RouterState L W → Answer L W EvidenceCollectionResult
      unfolding authorized refuse
      ask s = elim (verify_collector d c.descriptor) [
        | raised e ↦
            refuse (entry_for route_rejected d (of_collector_error c.descriptor.collector_id 3)) e s
        | ok _ ↦
            let (a, w) = site.authorize d c.descriptor s.world in
            authorized a (record s { world = w })
      ]

    -- A dispatch that the log does not know as started or ended.
    unfoldable pub first_dispatch : RouterState L W → Answer L W EvidenceCollectionResult
    unfolding ask refuse
    first_dispatch s = elim (lookup d.payload.route.route_id site.collectors) [
      | none ↦ refuse (entry_for route_unavailable d (of_error 4)) not_configured s
      | some c ↦ ask c s
    ]

    unfoldable pub unanswered :
        Outcome RoutingError (List (EvidenceAuditEvent Details))
        → RouterState L W
        → Answer L W EvidenceCollectionResult
    unfolding first_dispatch terminal has
    unanswered (raised e) s = (raised e, s)
    unanswered (ok es) s =
        if terminal d.dispatch_id es
        then (raised already_terminal, s)
        else if has dispatch_started d.dispatch_id es
        then (raised attempt_unresolved, s)
        else first_dispatch s

    unfoldable pub dispatch : RouterState L W → Answer L W EvidenceCollectionResult
    unfolding unanswered
    dispatch s = elim (verify_dispatch hash d) [
      | raised e ↦ (raised e, s)
      | ok _ ↦ elim (lookup d.dispatch_id s.results) [
        | some r ↦ (ok r, s)
        | none ↦ unanswered (log.events s.log) s
      ]
    ]
