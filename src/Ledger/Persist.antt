-- ===== src/Ledger/Persist.antt =====
-- The ledger as the router's artifact store (minority_prophet/evidence_ledger.py).
use minority_prophet_gate.Base.{
  ℕ, ◌≡◌, ◌⊎◌, refl, sym, ◌∙◌, ap, subst, inl, inr, List, [], ◌∷◌, ◌++◌, arith, length, Dict,
  lookup, All, Outcome, ok, raised, Outcome-cases, Option-cases,
}
use minority_prophet_gate.Audit.Event.{RoutingError}
use minority_prophet_gate.Router.Types.{
  EvidenceDispatch, CollectedEvidence, EvidenceCollectionResult, Details, digest,
}
use minority_prophet_gate.Router.Site.{Failure, routing, ArtifactStore}
use minority_prophet_gate.Ledger.Tables.{ArtifactRecord, Artifact, Ledger, Keys}
use minority_prophet_gate.Ledger.Artifacts.{
  insert_new, verified_artifact, verify_artifacts, artifact_of, persist_item, persist_items,
  persist_collection_result,
}
use minority_prophet_gate.Ledger.Verify.{verify_rows, verify_tables, events}
use minority_prophet_gate.Ledger.Keeps.{Numbered}
use minority_prophet_gate.Ledger.Refines.{SoundLedger, ledger_log}
use minority_prophet_gate.Ledger.Store.{
  item-verifies, persist_item-inserts, persist_item_refused, verify_artifacts-append,
  persist_items-keeps, Holds, IsStored, Holds-IsStored,
}

module _ {D : Type 0} (key : Keys D) where
  verify_artifacts-raises :
      (table rest : Dict Artifact) (e : RoutingError)
      → verify_artifacts key table ≡ raised e
      → verify_artifacts key (table ++ rest) ≡ raised e
  unfolding verify_artifacts
  verify_artifacts-raises [] rest e = λ h. absurd (cc)
  verify_artifacts-raises (x ∷ xs) rest e = elim (Outcome-cases (verified_artifact key x.0 x.1)) [
    | inr (y, eq) ↦ rw (eq, verify_artifacts) (λ h. h)
    | inl (u, eq) ↦ rw (eq, verify_artifacts) (λ h. verify_artifacts-raises xs rest e h)
  ]

  verify_artifacts-insert_new :
      (table : Dict Artifact) (n : ℕ) (a : Artifact) (r : ArtifactRecord)
      → verified_artifact key n a ≡ ok r
      → verify_artifacts key (insert_new n a table) ≡ verify_artifacts key table
  verify_artifacts-insert_new table n a r good = elim (Option-cases (lookup n table)) [
    | inr (b, here) ↦ rw (here, insert_new) refl
    | inl absent ↦
        rw (absent, insert_new)
          (elim (Outcome-cases (verify_artifacts key table)) [
            | inl (tt, eq) ↦ verify_artifacts-append key table n a r eq good ∙ sym eq
            | inr (e, eq) ↦ verify_artifacts-raises table ((n, a) ∷ []) e eq ∙ sym eq
          ])
  ]

  artifacts-events :
      (l : Ledger D) (new : Dict Artifact)
      → verify_artifacts key new ≡ verify_artifacts key l.artifacts
      → events key (record l { artifacts = new }) ≡ events key l
  unfolding events verify_tables
  artifacts-events l new e = elim (Outcome-cases (verify_rows key l.rows)) [
    | inr (x, eq) ↦ rw (eq, events) refl
    | inl (sofar, eq) ↦ rw (eq, events, e) refl
  ]

  module _ (clock : ℕ → ℕ) (d : EvidenceDispatch) where
    persist_item-verify_artifacts :
        (i : CollectedEvidence) (old new : Dict Artifact)
        → persist_item key clock d i old ≡ ok new
        → verify_artifacts key new ≡ verify_artifacts key old
    persist_item-verify_artifacts i old new h = elim (Outcome-cases (digest key.digests i)) [
      | inr (e, eq) ↦ absurd (persist_item_refused key clock d i old new e eq h)
      | inl (n, eq) ↦
          let a = artifact_of key d i i.envelope n (clock (length old)) in
          let (r, good) = item-verifies key clock d i n (clock (length old)) eq in
          ap (verify_artifacts key) (sym (persist_item-inserts key clock d i old new n eq h))
          ∙ verify_artifacts-insert_new old n a r good
    ]

    persist_items-verify_artifacts :
        (is : List CollectedEvidence) (old new : Dict Artifact)
        → persist_items key clock d is old ≡ ok new
        → verify_artifacts key new ≡ verify_artifacts key old
    unfolding persist_items
    persist_items-verify_artifacts [] old new =
        λ h. let q : old ≡ new = ground arith in ap (verify_artifacts key) (sym q)
    persist_items-verify_artifacts (i ∷ is) old new =
        elim (Outcome-cases (persist_item key clock d i old)) [
          | inr (e, eq) ↦ rw (eq, persist_items) (λ h. absurd (cc))
          | inl (mid, eq) ↦
              rw (eq, persist_items)
                (λ h.
                  persist_items-verify_artifacts is mid new h
                  ∙ persist_item-verify_artifacts i old mid eq)
        ]

    -- What a transaction that commits wrote.
    pub persist-parts :
        (r : EvidenceCollectionResult) (l m : Ledger D)
        → persist_collection_result key clock d r l ≡ ok m
        → (new : Dict Artifact) × (persist_items key clock d r.items l.artifacts ≡ ok new)
          × (record l { artifacts = new } ≡ m)
    unfolding persist_collection_result
    persist-parts r l m = elim (Outcome-cases (persist_items key clock d r.items l.artifacts)) [
      | inr (e, eq) ↦ rw (eq, persist_collection_result) (λ h. absurd (cc))
      | inl (new, eq) ↦ rw (eq, persist_collection_result) (λ h. (new, refl, ground arith))
    ]

    pub persist-events :
        (r : EvidenceCollectionResult) (l m : Ledger D)
        → persist_collection_result key clock d r l ≡ ok m
        → events key m ≡ events key l
    persist-events r l m h =
        let (new, written, q) = persist-parts r l m h in
        let unchanged = persist_items-verify_artifacts r.items l.artifacts new written in
        subst (λ v. events key v ≡ events key l) q (artifacts-events l new unchanged)

    All-IsStored :
        (l : Ledger D) (new : Dict Artifact)
        → verify_artifacts key new ≡ ok tt
        → (is : List CollectedEvidence) → All (Holds key clock d new) is
        → All (IsStored key clock d (record l { artifacts = new })) is
    All-IsStored l new good [] h = tt
    All-IsStored l new good (i ∷ is) (h, hs) = (
      Holds-IsStored key clock d (record l { artifacts = new }) i good h,
      All-IsStored l new good is hs,
    )

    -- Where the artifacts stored so far verify, a result that is persisted leaves the verified events as
    -- they were, and each of its items is found under its digest in a row that verifies.
    pub persist-IsStored :
        (r : EvidenceCollectionResult) (l m : Ledger D)
        → verify_artifacts key l.artifacts ≡ ok tt
        → persist_collection_result key clock d r l ≡ ok m
        → (events key m ≡ events key l) × All (IsStored key clock d m) r.items
    persist-IsStored r l m v h =
        let (new, written, q) = persist-parts r l m h in
        let (good, found, _) = persist_items-keeps key clock d r.items l.artifacts new v written in
        (
          persist-events r l m h,
          subst (λ k. All (IsStored key clock d k) r.items) q
              (All-IsStored l new good r.items found),
        )

-- The ledger as the router's store, for the log that it is itself; what it raises is an
-- EvidenceRoutingError.
module _ (key : Keys Details) (clock stamps : ℕ → ℕ) where
  pub persist-Numbered :
      (d : EvidenceDispatch) (r : EvidenceCollectionResult) (l : SoundLedger Details)
      (m : Ledger Details)
      → persist_collection_result key stamps d r l.0 ≡ ok m
      → Numbered m.rows
  persist-Numbered d r l m h =
      let (new, written, q) = persist-parts key stamps d r l.0 m h in
      subst (λ k. Numbered k.rows) q l.1

  abbrev pub committed :
      (d : EvidenceDispatch) (r : EvidenceCollectionResult) (l : SoundLedger Details)
      → ((m : Ledger Details) × (persist_collection_result key stamps d r l.0 ≡ ok m))
        ⊎ ((e : RoutingError) × (persist_collection_result key stamps d r l.0 ≡ raised e))
      → Outcome Failure (SoundLedger Details)
  committed d r l (inl (m, eq)) = ok (m, persist-Numbered d r l m eq)
  committed d r l (inr (e, eq)) = raised (routing e)

  pub committed-events :
      (d : EvidenceDispatch) (r : EvidenceCollectionResult) (l m : SoundLedger Details)
      (o : ((m : Ledger Details) × (persist_collection_result key stamps d r l.0 ≡ ok m))
        ⊎ ((e : RoutingError) × (persist_collection_result key stamps d r l.0 ≡ raised e)))
      → committed d r l o ≡ ok m
      → events key m.0 ≡ events key l.0
  committed-events d r l m (inr (e, eq)) h = absurd (cc)
  committed-events d r l m (inl (k, eq)) h =
      let ledger_of : Outcome Failure (SoundLedger Details) → Ledger Details =
        λ x. elim x [ ok p ↦ p.0 | raised _ ↦ k ] in
      let q : k ≡ m.0 = ap ledger_of h in
      subst (λ v. events key v ≡ events key l.0) q (persist-events key stamps d r l.0 k eq)

  abbrev pub ledger_store : ArtifactStore (ledger_log key clock)
  ledger_store = record {
    persist =
        λ d r l. committed d r l (Outcome-cases (persist_collection_result key stamps d r l.0));
    keeps_events = λ d r l m.
        committed-events d r l m (Outcome-cases (persist_collection_result key stamps d r l.0));
  }
