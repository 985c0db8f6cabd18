-- ===== src/Router/Schedule.antt =====
-- Any sequence of calls keeps the promise of Router.Once (minority_prophet/evidence_router.py).
use minority_prophet_gate.Base.{
  ℕ, Bool, ◌≡◌, refl, subst, inl, inr, false, List, [], ◌∷◌, arith, lookup, Outcome, ok, raised,
  Outcome-cases, Option-cases, Bool-cases, count,
}
use minority_prophet_gate.Request.Challenge.{Host, EvidenceRequest}
use minority_prophet_gate.Audit.Event.{RoutingError, has}
use minority_prophet_gate.Audit.Interface.{AuditLog, dispatch_started}
use minority_prophet_gate.Router.Types.{EvidenceDispatch, Digests, Details}
use minority_prophet_gate.Router.Checks.{verify_dispatch, verify_collector}
use minority_prophet_gate.Router.Site.{Collector, Site, RouterState, terminal}
use minority_prophet_gate.Router.Dispatch.{ask, first_dispatch, unanswered, dispatch}
use minority_prophet_gate.Router.Collect.{dispatch_all, dispatch_planned, collect}
use minority_prophet_gate.Router.Calls.{
  Records, lookup-Records, recording_all, recording_site, Call, dispatched, collected, planned,
  decided, restarted, after, after_all,
}
use minority_prophet_gate.Router.Once.{Once, IsOnce, refuse-IsOnce, authorized-IsOnce}
use minority_prophet_gate.Router.Unsent.{plan-Once, decision-Once}

module _ {L W : Type 0} (log : AuditLog Details L) (k : ℕ) (hash : Digests)
    (site : Site log W) where
  module _ (d : EvidenceDispatch) where
    ask-IsOnce :
        (c : Collector (W × List ℕ)) (s : RouterState L (W × List ℕ))
        → Records c
        → (d.dispatch_id ≡ k → count k s.world.1 ≡ 0)
        → IsOnce log k s
        → IsOnce log k (ask log hash (recording_site log site) d c s).1
    unfolding ask
    ask-IsOnce c s records unstarted h = elim (Outcome-cases (verify_collector d c.descriptor)) [
      | inr (e, eq) ↦ rw (eq, ask) (refuse-IsOnce log k _ _ s h)
      | inl (u, eq) ↦
          let (a, w) = site.authorize d c.descriptor s.world.0 in
          rw (eq, ask)
            (authorized-IsOnce log k hash (recording_site log site) d c a
              (record s { world = (w, s.world.1) }) records unstarted h)
    ]

    first_dispatch-IsOnce :
        (s : RouterState L (W × List ℕ))
        → (d.dispatch_id ≡ k → count k s.world.1 ≡ 0)
        → IsOnce log k s
        → IsOnce log k (first_dispatch log hash (recording_site log site) d s).1
    unfolding first_dispatch
    first_dispatch-IsOnce s unstarted h =
        elim (Option-cases (lookup d.payload.route.route_id (recording_all site.collectors))) [
          | inl eq ↦ rw (eq, first_dispatch) (refuse-IsOnce log k _ _ s h)
          | inr (c, eq) ↦
              rw (eq, first_dispatch)
                (ask-IsOnce c s (lookup-Records d.payload.route.route_id site.collectors c eq)
                  unstarted h)
        ]

    unanswered-IsOnce :
        (s : RouterState L (W × List ℕ))
        → IsOnce log k s
        → IsOnce log k (unanswered log hash (recording_site log site) d (log.events s.log) s).1
    unfolding unanswered
    unanswered-IsOnce s h = elim (Outcome-cases (log.events s.log)) [
      | inr (e, eq) ↦ rw (eq, unanswered) h
      | inl (es, eq) ↦ elim (Bool-cases (terminal d.dispatch_id es)) [
        | inl ended ↦ rw (eq, ended, unanswered) h
        | inr open_still ↦ elim (Bool-cases (has dispatch_started d.dispatch_id es)) [
          | inl begun ↦ rw (eq, open_still, begun, unanswered) h
          | inr fresh ↦
              rw (eq, open_still, fresh, unanswered)
                (first_dispatch-IsOnce s
                  (λ e. h.1 es eq (subst (λ x. has dispatch_started x es ≡ false) e fresh)) h)
        ]
      ]
    ]

    dispatch-IsOnce :
        (s : RouterState L (W × List ℕ))
        → IsOnce log k s
        → IsOnce log k (dispatch log hash (recording_site log site) d s).1
    unfolding dispatch
    dispatch-IsOnce s h = elim (Outcome-cases (verify_dispatch hash d)) [
      | inr (e, eq) ↦ rw (eq, dispatch) h
      | inl (u, eq) ↦ elim (Option-cases (lookup d.dispatch_id s.results)) [
        | inr (r, fq) ↦ rw (eq, fq, dispatch) h
        | inl fq ↦ rw (eq, fq, dispatch) (unanswered-IsOnce s h)
      ]
    ]

  dispatch_all-IsOnce :
      (ds : List EvidenceDispatch) (s : RouterState L (W × List ℕ))
      → IsOnce log k s
      → IsOnce log k (dispatch_all log hash (recording_site log site) ds s).1
  unfolding dispatch_all
  dispatch_all-IsOnce [] s h = h
  dispatch_all-IsOnce (d ∷ ds) s h =
      let here = dispatch-IsOnce d s h in
      let (r, s') = dispatch log hash (recording_site log site) d s in
      elim (Outcome-cases r) [
        | inr (e, eq) ↦ rw (eq, dispatch_all) here
        | inl (x, eq) ↦
            let there = dispatch_all-IsOnce ds s' here in
            elim (Outcome-cases (dispatch_all log hash (recording_site log site) ds s').0) [
              | inr (e, fq) ↦ rw (eq, fq, dispatch_all) there
              | inl (xs, fq) ↦ rw (eq, fq, dispatch_all) there
            ]
      ]

  dispatch_planned-IsOnce :
      (ds : Outcome RoutingError (List EvidenceDispatch)) (s : RouterState L (W × List ℕ))
      → IsOnce log k s
      → IsOnce log k (dispatch_planned log hash (recording_site log site) ds s).1
  unfolding dispatch_planned
  dispatch_planned-IsOnce (raised e) s h = h
  dispatch_planned-IsOnce (ok ds) s h = dispatch_all-IsOnce ds s h

module _ {L W : Type 0} (log : AuditLog Details L) (k : ℕ) (hash : Digests) (host : Host)
    (before : ℕ → ℕ → Bool) where
  pub collect-IsOnce :
      (site : Site log W) (domain : ℕ) (r : EvidenceRequest) (s : RouterState L (W × List ℕ))
      → IsOnce log k s
      → IsOnce log k (collect log hash host before (recording_site log site) domain r s).1
  unfolding collect
  collect-IsOnce site domain r s h =
      dispatch_planned-IsOnce log k hash site _ _
        (plan-Once log k s.world.1 hash host before domain r s.log h)

  after-IsOnce :
      (c : Call log W) (s : RouterState L (W × List ℕ))
      → IsOnce log k s
      → IsOnce log k (after log hash host before c s)
  unfolding after collect
  after-IsOnce (dispatched site d) s h = dispatch-IsOnce log k hash site d s h
  after-IsOnce (collected site domain r) s h = collect-IsOnce site domain r s h
  after-IsOnce (planned domain r) s h = plan-Once log k s.world.1 hash host before domain r s.log h
  after-IsOnce (decided r o) s h = decision-Once log k s.world.1 hash host before 0 r o s.log h
  after-IsOnce restarted s h = h

  after_all-IsOnce :
      (cs : List (Call log W)) (s : RouterState L (W × List ℕ))
      → IsOnce log k s
      → IsOnce log k (after_all log hash host before cs s)
  unfolding after_all
  after_all-IsOnce [] s h = h
  after_all-IsOnce (c ∷ cs) s h = after_all-IsOnce cs _ (after-IsOnce c s h)

-- Whatever the log held at first, over any sequence of dispatches, collections, plans, recorded
-- decisions and restarts, with any collectors, authorizers and stores, a collector is called at most
-- once for each dispatch id, and for none that the final log reads as not started.
pub after_all-Once :
    {L W : Type 0} (log : AuditLog Details L) (hash : Digests) (host : Host) (before : ℕ → ℕ → Bool)
    (cs : List (Call log W)) (l : L) (w : W) (k : ℕ)
    → Once log k
        (after_all log hash host before cs (record { log = l; results = []; world = (w, []) })).log
        (after_all log hash host before cs
          (record { log = l; results = []; world = (w, []) })).world.1
after_all-Once log hash host before cs l w k =
    after_all-IsOnce log k hash host before cs (record { log = l; results = []; world = (w, []) })
      (omega arith, λ es now fresh. refl)
