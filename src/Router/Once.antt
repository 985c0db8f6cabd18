-- ===== src/Router/Once.antt =====
-- A collector is called at most once for a dispatch, across any calls and restarts
-- (minority_prophet/evidence_router.py).
use minority_prophet_gate.Base.{
  ℕ, ◌≡◌, ◌≤◌, sym, ◌∙◌, subst, inl, inr, true, false, Option, none, some, List, ◌∷◌, ◌==◌, arith,
  Outcome, ok, raised, Outcome-cases, Option-cases, Bool-cases, count, length,
}
use minority_prophet_gate.Audit.Event.{RoutingError, EvidenceAuditEvent, Entry, has}
use minority_prophet_gate.Audit.Interface.{
  AuditLog, dispatch_authorized, dispatch_started, collection_returned,
}
use minority_prophet_gate.Router.Types.{
  EvidenceDispatch, CollectionAuthorization, Digests, digests, EvidenceCollectionResult, Details,
  of_collector, of_authorization, of_return,
}
use minority_prophet_gate.Router.Checks.{verify_authorization, verify_result}
use minority_prophet_gate.Router.Site.{Failure, routing, Collector, Site, RouterState, entry_for}
use minority_prophet_gate.Router.Dispatch.{
  refuse, failed, returned, stored, keep, collected, start, denied, authorized,
}
use minority_prophet_gate.Router.Calls.{Records}

module _ {L : Type 0} (log : AuditLog Details L) (k : ℕ) where
  -- The collector was called at most once for `k`, and not at all if the log reads as not started.
  abbrev pub Once : L → List ℕ → Type 0
  Once l calls =
      (count k calls ≤ 1)
      × ((es : List (EvidenceAuditEvent Details))
          → log.events l ≡ ok es
          → has dispatch_started k es ≡ false
          → count k calls ≡ 0)

  pub append-Once :
      (entry : Entry Details) (l m : L) (calls : List ℕ)
      → log.append entry l ≡ ok m
      → Once l calls
      → Once m calls
  unfolding has
  append-Once entry l m calls h (few, silent) =
      let (es, fs, at, after, adds) = log.append_adds entry l m h in
      (
        few,
        λ gs now fresh.
            let q : gs ≡ adds.event ∷ es = ground (arith, adds.grown) in
            let r : has dispatch_started k (adds.event ∷ es) ≡ false =
              subst (λ x. has dispatch_started k x ≡ false) q fresh in
            silent es at (ground arith),
      )

  -- The log says that the dispatch was started.
  abbrev pub Started : ℕ → L → Type 0
  Started id m =
      (es : List (EvidenceAuditEvent Details))
      → log.events m ≡ ok es
      → has dispatch_started id es ≡ true

  start-Started :
      (d : EvidenceDispatch) (details : Details) (l m : L)
      → log.append (entry_for dispatch_started d details) l ≡ ok m
      → Started d.dispatch_id m
  unfolding has
  start-Started d details l m h gs now =
      let (es, fs, at, after, adds) =
        log.append_adds (entry_for dispatch_started d details) l m h in
      let q : gs ≡ adds.event ∷ es = ground (arith, adds.grown) in
      let r : has dispatch_started d.dispatch_id (adds.event ∷ es) ≡ true =
        rw (adds.dispatch) (ground (arith, adds.kind)) in
      subst (λ x. has dispatch_started d.dispatch_id x ≡ true) (sym q) r

  -- A call of the collector for a started dispatch that had none.
  call-Once :
      (id : ℕ) (m : L) (calls : List ℕ)
      → Started id m
      → (id ≡ k → count k calls ≡ 0)
      → Once m calls
      → Once m (id ∷ calls)
  call-Once id m calls started none_yet (few, silent) = (
    elim (Bool-cases (k == id)) [
      | inl hit ↦ let zero_calls : count k calls ≡ 0 = none_yet (ground arith) in ground arith
      | inr miss ↦ ground arith
    ],
    λ es now fresh. elim (Bool-cases (k == id)) [
      | inl hit ↦
          let e : id ≡ k = ground arith in
          let t : has dispatch_started k es ≡ true =
            subst (λ x. has dispatch_started x es ≡ true) e (started es now) in
          absurd (cc)
      | inr miss ↦ let z : count k calls ≡ 0 = silent es now fresh in ground arith
    ],
  )

module _ {L W : Type 0} (log : AuditLog Details L) (k : ℕ) where
  abbrev pub IsOnce : RouterState L (W × List ℕ) → Type 0
  IsOnce s = Once log k s.log s.world.1

  pub refuse-IsOnce :
      (entry : Entry Details) (why : RoutingError) (s : RouterState L (W × List ℕ))
      → IsOnce s
      → IsOnce (refuse log {A = EvidenceCollectionResult} entry why s).1
  unfolding refuse
  refuse-IsOnce entry why s h = elim (Outcome-cases (log.append entry s.log)) [
    | inl (m, eq) ↦ rw (eq, refuse) (append-Once log k entry s.log m s.world.1 eq h)
    | inr (e, eq) ↦ rw (eq, refuse) h
  ]

  module _ (hash : Digests) (site : Site log (W × List ℕ)) (d : EvidenceDispatch) where
    module _ (c : Collector (W × List ℕ)) where
      returned-IsOnce :
          (r : EvidenceCollectionResult) (s : RouterState L (W × List ℕ))
          → IsOnce s
          → IsOnce (returned log hash site d c r s).1
      unfolding returned
      returned-IsOnce r s h = elim (Outcome-cases (digests hash r.items)) [
        | inr (e, eq) ↦ rw (eq, returned) h
        | inl (ds, eq) ↦
            let entry =
              entry_for collection_returned d
                (of_return c.descriptor.collector_id r.status ds (length r.items)) in
            elim (Outcome-cases (log.append entry s.log)) [
              | inr (e, fq) ↦ rw (eq, fq, returned) h
              | inl (m, fq) ↦ rw (eq, fq, returned) (append-Once log k entry s.log m s.world.1 fq h)
            ]
      ]

      failed-IsOnce :
          (e : Failure) (s : RouterState L (W × List ℕ))
          → IsOnce s
          → IsOnce (failed log hash site d c e s).1
      unfolding failed
      failed-IsOnce e s h = refuse-IsOnce _ _ s h

      keep-IsOnce :
          (r : EvidenceCollectionResult) (s : RouterState L (W × List ℕ))
          → IsOnce s
          → IsOnce (keep log hash site d c r s).1
      unfolding keep stored
      keep-IsOnce r s h = elim (Option-cases site.artifact_store) [
        | inl none_given ↦ rw (none_given, keep) (returned-IsOnce r s h)
        | inr (store, given) ↦ elim (Outcome-cases (store.persist d r s.log)) [
          | inr (e, eq) ↦ rw (given, eq, keep) (failed-IsOnce e s h)
          | inl (m, eq) ↦
              let q = store.keeps_events d r s.log m eq in
              rw (given, eq, keep)
                (returned-IsOnce r (record s { log = m })
                  (h.0, λ es now fresh. h.1 es (sym q ∙ now) fresh))
        ]
      ]

      collected-IsOnce :
          (r : Outcome Failure EvidenceCollectionResult) (s : RouterState L (W × List ℕ))
          → IsOnce s
          → IsOnce (collected log hash site d c r s).1
      unfolding collected
      collected-IsOnce (raised e) s h = failed-IsOnce e s h
      collected-IsOnce (ok r) s h = elim (Outcome-cases (verify_result hash d c.descriptor r)) [
        | inr (e, eq) ↦ rw (eq, collected) (failed-IsOnce (routing e) s h)
        | inl (u, eq) ↦ rw (eq, collected) (keep-IsOnce r s h)
      ]

      -- `unstarted`: no collector was called for the dispatch, if it is the one in question.
      start-IsOnce :
          (a : CollectionAuthorization) (s : RouterState L (W × List ℕ))
          → Records c
          → (d.dispatch_id ≡ k → count k s.world.1 ≡ 0)
          → IsOnce s
          → IsOnce (start log hash site d c a s).1
      unfolding start
      start-IsOnce a s records unstarted h =
          let id = c.descriptor.collector_id in
          let first =
            entry_for dispatch_authorized d
              (of_authorization a.authorization_id id a.allowed_actions) in
          elim (Outcome-cases (log.append first s.log)) [
            | inr (e, eq) ↦ rw (eq, start) h
            | inl (l, eq) ↦
                let second = entry_for dispatch_started d (of_collector id) in
                let hl = append-Once log k first s.log l s.world.1 eq h in
                elim (Outcome-cases (log.append second l)) [
                  | inr (e, fq) ↦ rw (eq, fq, start) hl
                  | inl (m, fq) ↦
                      let (r, w) = c.collect d s.world in
                      let called =
                        call-Once log k d.dispatch_id m s.world.1
                          (start-Started log k d (of_collector id) l m fq) unstarted
                          (append-Once log k second l m s.world.1 fq hl) in
                      rw (eq, fq, start)
                        (collected-IsOnce r (record s { log = m; world = w })
                          (subst (Once log k m) (sym (records d s.world.0 s.world.1)) called))
                ]
          ]

      pub authorized-IsOnce :
          (a : Outcome Failure (Option CollectionAuthorization)) (s : RouterState L (W × List ℕ))
          → Records c
          → (d.dispatch_id ≡ k → count k s.world.1 ≡ 0)
          → IsOnce s
          → IsOnce (authorized log hash site d c a s).1
      unfolding authorized denied
      authorized-IsOnce (raised e) s records unstarted h = refuse-IsOnce _ _ s h
      authorized-IsOnce (ok none) s records unstarted h = refuse-IsOnce _ _ s h
      authorized-IsOnce (ok (some a)) s records unstarted h =
          elim (Outcome-cases (verify_authorization d c.descriptor a)) [
            | inr (e, eq) ↦ rw (eq, authorized) (refuse-IsOnce _ _ s h)
            | inl (u, eq) ↦ rw (eq, authorized) (start-IsOnce a s records unstarted h)
          ]
