-- ===== src/Router/Accepted.antt =====
-- What a result has passed that a dispatch returns (minority_prophet/evidence_router.py).
use minority_prophet_gate.Base.{
  ℕ, ◌≡◌, ◌⊎◌, refl, inl, inr, Bool, true, false, not, ◌&&◌, if◌then◌else◌, Option, none, some,
  List, [], ◌∷◌, ◌==◌, arith, length, elem, elem-add_elem, add_elem, is_none, All, ok,
  Outcome-cases, Option-cases, same,
}
use minority_prophet_gate.Request.Policy.{OutputRole, EvidenceRequirement, requirement_ids}
use minority_prophet_gate.Router.Types.{
  CollectorDescriptor, EvidenceDispatch, Digests, CollectedEvidence, verify_integrity,
  EvidenceCollectionResult, exceeds,
}
use minority_prophet_gate.Router.Checks.{
  is_role, is_completed, requirement_of, has_items, verify_kinds, verify_item, verify_items, covers,
  verify_result,
}

-- The ids that items answer.
abbrev pub answered : List CollectedEvidence → List ℕ
answered [] = []
answered (i ∷ is) = i.requirement_id ∷ answered is

attested_lem : (o : Option ℕ) (n : ℕ) → same o (some n) ≡ true → o ≡ some n
attested_lem none n h = absurd (cc)
attested_lem (some m) n h = ground arith

admitted_lem : (n : ℕ) (b : Bool) → not (n == 0) && not b ≡ false → (n ≡ 0) ⊎ (b ≡ true)
admitted_lem n true h = inr refl
admitted_lem n false h = inl (ground arith)

no_items : (is : List CollectedEvidence) → has_items is ≡ false → is ≡ []
no_items [] h = refl
no_items (i ∷ is) h = absurd (cc)

module _ (hash : Digests) (d : EvidenceDispatch) where
  -- An item is unchanged since it was made, answers a requirement of the dispatch with a kind that
  -- the requirement admits and its envelope attests, and carries an assertion as its role wants.
  pub record IsFitting (i : CollectedEvidence) : Type 0 where
    pub intact : hash.envelope_digest_of i.envelope ≡ i.envelope_digest
    pub requirement : EvidenceRequirement
    pub routed : requirement_of i.requirement_id d.payload.requirements ≡ some requirement
    pub admitted :
        (length requirement.accepted_kinds ≡ 0)
        ⊎ (elem i.evidence_kind requirement.accepted_kinds ≡ true)
    pub attested : i.envelope.attested_kind ≡ some i.evidence_kind
    pub asserted :
        is_role OutputRole.candidate_evidence d.payload.route.output_role ≡ true
        → is_none i.envelope.body.assertion ≡ false
    pub unasserted :
        is_role OutputRole.verification_artifact d.payload.route.output_role ≡ true
        → is_none i.envelope.body.assertion ≡ true

  item-IsFitting :
      (i : CollectedEvidence) (r : EvidenceRequirement)
      → requirement_of i.requirement_id d.payload.requirements ≡ some r
      → verify_integrity hash i ≡ ok tt
      → verify_kinds hash d i (some r) ≡ ok tt
      → IsFitting i
  unfolding verify_integrity verify_kinds
  item-IsFitting i r found intact kinds = record {
    intact = ground arith;
    requirement = r;
    routed = found;
    admitted =
        admitted_lem (length r.accepted_kinds) (elem i.evidence_kind r.accepted_kinds)
          (ground arith);
    attested = attested_lem i.envelope.attested_kind i.evidence_kind (ground arith);
    asserted = λ role. ground arith;
    unasserted = λ role. ground arith;
  }

  verify_item-IsFitting : (i : CollectedEvidence) → verify_item hash d i ≡ ok tt → IsFitting i
  unfolding verify_item
  verify_item-IsFitting i = elim (Outcome-cases (verify_integrity hash i)) [
    | inr (e, eq) ↦ rw (eq, verify_item) (λ h. absurd (cc))
    | inl (u, eq) ↦ elim (Option-cases (requirement_of i.requirement_id d.payload.requirements)) [
      | inl unknown ↦ rw (eq, unknown, verify_item, verify_kinds) (λ h. absurd (cc))
      | inr (r, found) ↦ rw (eq, found, verify_item) (λ h. item-IsFitting i r found eq h)
    ]
  ]

  verify_items_sound :
      (is : List CollectedEvidence) (old new : List ℕ)
      → verify_items hash d is old ≡ ok new
      → All IsFitting is
        × ((x : ℕ) → elem x new ≡ (if elem x old then true else elem x (answered is)))
  unfolding verify_items
  verify_items_sound [] old new =
      λ h. let e : old ≡ new = ground arith in (tt, λ x. rw e (ground arith))
  verify_items_sound (i ∷ is) old new = elim (Outcome-cases (verify_item hash d i)) [
    | inr (e, eq) ↦ rw (eq, verify_items) (λ h. absurd (cc))
    | inl (u, eq) ↦
        rw (eq, verify_items)
          (λ h.
            let (fits, grows) = verify_items_sound is (add_elem i.requirement_id old) new h in
            (
              (verify_item-IsFitting i eq, fits),
              λ x. ground (arith, grows x, elem-add_elem i.requirement_id x old),
            ))
  ]

  covers_lem :
      (xs satisfied : List ℕ) (x : ℕ)
      → covers hash d xs satisfied ≡ true
      → elem x xs ≡ true
      → elem x satisfied ≡ true
  covers_lem [] satisfied x c h = absurd (cc)
  covers_lem (y ∷ ys) satisfied x c h = ground (arith, covers_lem ys satisfied x)

  -- A result is bound to the dispatch and the collector, grants nothing, keeps to the cap, has fitting
  -- items only, answers every requirement where it is complete, and no item where it is not, or where
  -- the route hands over to a human.
  pub record IsAccepted (c : CollectorDescriptor) (r : EvidenceCollectionResult) : Type 0 where
    pub unauthorizing : r.grants_protected_action_authority ≡ false
    pub same_dispatch : r.dispatch_id ≡ d.dispatch_id
    pub same_challenge : r.challenge_id ≡ d.payload.challenge_id
    pub same_collector : r.collector_id ≡ c.collector_id
    pub capped : exceeds (length r.items) d.payload.max_evidence_items ≡ false
    pub fitting : All IsFitting r.items
    pub complete :
        is_completed r.status ≡ true
        → (x : ℕ) → elem x (requirement_ids d.payload.requirements) ≡ true
        → elem x (answered r.items) ≡ true
    pub incomplete : is_completed r.status ≡ false → r.items ≡ []
    pub handed_over :
        is_role OutputRole.human_handoff d.payload.route.output_role ≡ true → r.items ≡ []

  pub verify_result-IsAccepted :
      (c : CollectorDescriptor) (r : EvidenceCollectionResult)
      → verify_result hash d c r ≡ ok tt
      → IsAccepted c r
  unfolding verify_result
  verify_result-IsAccepted c r = elim (Outcome-cases (verify_items hash d r.items [])) [
    | inr (e, eq) ↦ rw (eq, verify_result) (λ h. ground arith)
    | inl (satisfied, eq) ↦
        rw (eq, verify_result)
          (λ h.
            let (fits, grows) = verify_items_sound r.items [] satisfied eq in
            record {
              unauthorizing = ground arith;
              same_dispatch = ground arith;
              same_challenge = ground arith;
              same_collector = ground arith;
              capped = ground arith;
              fitting = fits;
              complete = λ done x wanted.
                  let all : covers hash d (requirement_ids d.payload.requirements) satisfied
                      ≡ true =
                    ground arith in
                  ground (
                    arith,
                    grows x,
                    covers_lem (requirement_ids d.payload.requirements) satisfied x all wanted,
                  );
              incomplete = λ open_still. no_items r.items (ground arith);
              handed_over = λ human. no_items r.items (ground arith);
            })
  ]
