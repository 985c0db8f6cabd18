-- ===== src/Ledger/Store.antt =====
-- Persisting a collection's result keeps the ledger's integrity and its events, and each returned item
-- is found again and verifies (minority_prophet/evidence_ledger.py).
use minority_prophet_gate.Base.{
  ℕ, ◌≡◌, refl, sym, ◌∙◌, subst, inl, inr, none, some, List, [], ◌∷◌, ◌++◌, ◌==◌, arith, length,
  Dict, lookup, lookup-append, All, ok, raised, Outcome-cases, Option-cases, Bool-cases,
  if◌then◌else◌,
}
use minority_prophet_gate.Audit.Event.{RoutingError}
use minority_prophet_gate.Router.Types.{
  EvidenceDispatch, CollectedEvidence, verify_integrity, envelope_copy, digest,
}
use minority_prophet_gate.Ledger.Tables.{ArtifactRecord, Artifact, Ledger, Keys}
use minority_prophet_gate.Ledger.Artifacts.{
  insert_new, verified_envelope, verified_artifact, verify_artifacts, artifact, artifact_of,
  persist_item, persist_items,
}

-- An entry that was there stays, and the key is there afterwards.
lookup-insert_new :
    {V : Type 0} (j k : ℕ) (v : V) (d : Dict V)
    → lookup j (insert_new k v d)
      ≡ (elim (lookup j d) [ some x ↦ some x | none ↦ if j == k then some v else none ])
lookup-insert_new j k v d = elim (Option-cases (lookup k d)) [
  | inr (x, old) ↦
      rw (old, insert_new)
        (elim (Option-cases (lookup j d)) [
          | inr (y, here) ↦ rw here refl
          | inl gone ↦ elim (Bool-cases (j == k)) [
            | inr differs ↦ rw (gone, differs) refl
            | inl hit ↦
                let e : j ≡ k = ground arith in
                let c : none ≡ some x = sym gone ∙ (subst (λ i. lookup i d ≡ some x) (sym e) old) in
                absurd (cc)
          ]
        ])
  | inl new ↦
      rw (new, insert_new)
        (elim (Option-cases (lookup j d)) [
          | inr (y, here) ↦ rw (lookup-append j d ((k, v) ∷ []), here) refl
          | inl gone ↦ rw (lookup-append j d ((k, v) ∷ []), gone) refl
        ])
]

module _ {D : Type 0} (key : Keys D) where
  pub verify_artifacts-append :
      (table : Dict Artifact) (k : ℕ) (a : Artifact) (r : ArtifactRecord)
      → verify_artifacts key table ≡ ok tt
      → verified_artifact key k a ≡ ok r
      → verify_artifacts key (table ++ (k, a) ∷ []) ≡ ok tt
  unfolding verify_artifacts
  verify_artifacts-append [] k a r = λ h v. rw v refl
  verify_artifacts-append (x ∷ xs) k a r = elim (Outcome-cases (verified_artifact key x.0 x.1)) [
    | inr (e, eq) ↦ rw (eq, verify_artifacts) (λ h v. absurd (cc))
    | inl (u, eq) ↦ rw (eq, verify_artifacts) (λ h v. verify_artifacts-append xs k a r h v)
  ]

  verify_artifacts-lookup :
      (table : Dict Artifact) (k : ℕ) (a : Artifact)
      → verify_artifacts key table ≡ ok tt
      → lookup k table ≡ some a
      → (r : ArtifactRecord) × (verified_artifact key k a ≡ ok r)
  unfolding verify_artifacts
  verify_artifacts-lookup [] k a = λ h at. absurd (cc)
  verify_artifacts-lookup (x ∷ xs) k a = elim (Outcome-cases (verified_artifact key x.0 x.1)) [
    | inr (e, eq) ↦ rw (eq, verify_artifacts) (λ h at. absurd (cc))
    | inl (u, eq) ↦
        rw (eq, verify_artifacts)
          (λ h. elim (Bool-cases (k == x.0)) [
            | inl hit ↦ rw hit (λ at.
                let e : x.1 ≡ a = ground arith in
                let f : x.0 ≡ k = ground arith in
                (
                  u,
                  subst (λ i. verified_artifact key i a ≡ ok u) f
                      (subst (λ b. verified_artifact key x.0 b ≡ ok u) e eq),
                ))
            | inr miss ↦ rw miss (λ at. verify_artifacts-lookup xs k a h at)
          ])
  ]

  module _ (clock : ℕ → ℕ) (d : EvidenceDispatch) where
    -- The row that an intact item gives verifies.
    pub item-verifies :
        (i : CollectedEvidence) (n stamp : ℕ)
        → digest key.digests i ≡ ok n
        → (r : ArtifactRecord) × (verified_artifact key n (artifact_of key d i i.envelope n stamp)
            ≡ ok r)
    unfolding digest verify_integrity verified_artifact verified_envelope
    item-verifies i n stamp h = (
      record {
        evidence_digest = n;
        challenge_id = d.payload.challenge_id;
        dispatch_id = d.dispatch_id;
        requirement_id = i.requirement_id;
        evidence_kind = i.evidence_kind;
        envelope = i.envelope;
        envelope_digest = i.envelope_digest;
      },
      ground arith,
    )

    -- Every item has a row under its digest.
    abbrev pub Holds : Dict Artifact → CollectedEvidence → Type 0
    Holds table i =
        (n : ℕ) × (a : Artifact) × (digest key.digests i ≡ ok n) × (lookup n table ≡ some a)

    Holds-insert_new :
        (table : Dict Artifact) (n : ℕ) (a : Artifact) (i : CollectedEvidence)
        → Holds table i
        → Holds (insert_new n a table) i
    Holds-insert_new table n a i (m, b, named, at) =
        (m, b, named, rw (lookup-insert_new m n a table, at) refl)

    pub persist_item-inserts :
        (i : CollectedEvidence) (old new : Dict Artifact) (n : ℕ)
        → digest key.digests i ≡ ok n
        → persist_item key clock d i old ≡ ok new
        → insert_new n (artifact_of key d i i.envelope n (clock (length old))) old ≡ new
    unfolding persist_item envelope_copy
    persist_item-inserts i old new n named = rw (named, persist_item) (λ h. ground arith)

    pub persist_item_refused :
        (i : CollectedEvidence) (old new : Dict Artifact) (e : RoutingError)
        → digest key.digests i ≡ raised e
        → ¬ (persist_item key clock d i old ≡ ok new)
    unfolding persist_item envelope_copy
    persist_item_refused i old new e failed = rw (failed, persist_item) (λ h. ground arith)

    inserted-verifies :
        (i : CollectedEvidence) (old : Dict Artifact) (n stamp : ℕ)
        → digest key.digests i ≡ ok n
        → verify_artifacts key old ≡ ok tt
        → (verify_artifacts key (insert_new n (artifact_of key d i i.envelope n stamp) old) ≡ ok tt)
          × Holds (insert_new n (artifact_of key d i i.envelope n stamp) old) i
    inserted-verifies i old n stamp named v =
        let a = artifact_of key d i i.envelope n stamp in
        let (r, good) = item-verifies i n stamp named in
        let reads = lookup-insert_new n n a old in
        elim (Option-cases (lookup n old)) [
          | inl absent ↦ (
            rw (absent, insert_new) (verify_artifacts-append old n a r v good),
            (n, a, named, rw (reads, absent) (ground arith)),
          )
          | inr (b, here) ↦ (rw (here, insert_new) v, (n, b, named, rw (reads, here) refl))
        ]

    -- What one item's turn keeps and adds.
    record Turn (i : CollectedEvidence) (old new : Dict Artifact) : Type 0 where
      verifies : verify_artifacts key new ≡ ok tt
      holds : Holds new i
      keeps : (j : CollectedEvidence) → Holds old j → Holds new j

    persist_item-Turn :
        (i : CollectedEvidence) (old new : Dict Artifact)
        → persist_item key clock d i old ≡ ok new
        → verify_artifacts key old ≡ ok tt
        → Turn i old new
    persist_item-Turn i old new h v = elim (Outcome-cases (digest key.digests i)) [
      | inr (e, eq) ↦ absurd (persist_item_refused i old new e eq h)
      | inl (n, eq) ↦
          let stamp = clock (length old) in
          let (good, found) = inserted-verifies i old n stamp eq v in
          subst (Turn i old) (persist_item-inserts i old new n eq h) (record {
            verifies = good;
            holds = found;
            keeps = λ j. Holds-insert_new old n (artifact_of key d i i.envelope n stamp) j;
          })
    ]

    pub persist_items-keeps :
        (is : List CollectedEvidence) (old new : Dict Artifact)
        → verify_artifacts key old ≡ ok tt
        → persist_items key clock d is old ≡ ok new
        → (verify_artifacts key new ≡ ok tt)
          × All (Holds new) is
          × ((j : CollectedEvidence) → Holds old j → Holds new j)
    unfolding persist_items
    persist_items-keeps [] old new v = λ h.
        let q : old ≡ new = ground arith in
        subst
          (λ t.
            (verify_artifacts key t ≡ ok tt)
            × Unit {0}
            × ((j : CollectedEvidence) → Holds old j → Holds t j))
          q (v, tt, λ j h. h)
    persist_items-keeps (i ∷ is) old new v = elim (Outcome-cases (persist_item key clock d i old)) [
      | inr (e, eq) ↦ rw (eq, persist_items) (λ h. absurd (cc))
      | inl (mid, eq) ↦
          rw (eq, persist_items)
            (λ h.
              let turn = persist_item-Turn i old mid eq v in
              let (good, found, kept) = persist_items-keeps is mid new turn.verifies h in
              (good, (kept i turn.holds, found), λ j o. kept j (turn.keeps j o)))
    ]

    -- The item's row is found under its digest, and verifies.
    pub record IsStored (l : Ledger D) (i : CollectedEvidence) : Type 0 where
      pub name : ℕ
      pub named : digest key.digests i ≡ ok name
      pub kept : ArtifactRecord
      pub found : artifact key name l ≡ ok kept

    pub Holds-IsStored :
        (l : Ledger D) (i : CollectedEvidence)
        → verify_artifacts key l.artifacts ≡ ok tt
        → Holds l.artifacts i
        → IsStored l i
    unfolding artifact
    Holds-IsStored l i v (n, a, named, at) =
        let (r, good) = verify_artifacts-lookup l.artifacts n a v at in
        record { name = n; named = named; kept = r; found = rw (at, good, artifact) refl }
