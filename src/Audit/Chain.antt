-- ===== src/Audit/Chain.antt =====
-- What the chain of hashes gives: a log reloads as it was written, and two logs that end in the
-- same hash hold the same events (minority_prophet/evidence_audit.py).
use minority_prophet_gate.Base.{
  ℕ, ◌≡◌, ◌≢◌, refl, sym, ap, ◌∙◌, subst, inl, inr, some, List, [], ◌∷◌, length, same→eq, arith, ok,
  Outcome-cases,
}
use minority_prophet_gate.Audit.Event.{
  audit_schema, Unsigned, EvidenceAuditEvent, last_hash, verify_event,
}
use minority_prophet_gate.Audit.Log.{
  Line, blank, unreadable, holds, EvidenceAuditLog, load_line, load, new_log,
}

module _ {D : Type 0} (hash_json : Unsigned D → ℕ) where
  -- The event may follow the older ones.
  pub record Follows (e : EvidenceAuditEvent D) (es : List (EvidenceAuditEvent D)) : Type 0 where
    pub schema : e.payload.schema ≡ audit_schema
    pub sequence : e.payload.sequence ≡ length es
    pub previous : e.payload.previous_event_hash ≡ last_hash es
    pub hashed : e.event_hash ≡ hash_json e.payload

  -- Each event follows the older ones.
  abbrev pub Chained : List (EvidenceAuditEvent D) → Type 0
  Chained [] = Unit
  Chained (e ∷ es) = Follows e es × Chained es

  pub verify_event-Follows :
      (e : EvidenceAuditEvent D) (es : List (EvidenceAuditEvent D))
      → verify_event hash_json e (length es) (last_hash es) ≡ ok tt
      → Follows e es
  unfolding verify_event
  verify_event-Follows e es h = record {
    schema = ground arith;
    sequence = ground arith;
    previous = same→eq e.payload.previous_event_hash (last_hash es) (ground arith);
    hashed = ground arith;
  }

  load_line-Chained :
      (l : Line D) (es fs : List (EvidenceAuditEvent D))
      → Chained es
      → load_line hash_json l es ≡ ok fs
      → Chained fs
  unfolding load_line
  load_line-Chained blank es fs c = λ h. subst Chained (ground arith) c
  load_line-Chained unreadable es fs c = λ h. absurd (cc)
  load_line-Chained (holds e) es fs c =
      elim (Outcome-cases (verify_event hash_json e (length es) (last_hash es))) [
        | inl (u, eq) ↦
            rw (eq, load_line)
              (λ h.
                let q : (e ∷ es) ≡ fs = ground arith in
                subst Chained q (verify_event-Follows e es eq, c))
        | inr (x, eq) ↦ rw (eq, load_line) (λ h. absurd (cc))
      ]

  pub load-Chained :
      (ls : List (Line D)) (es fs : List (EvidenceAuditEvent D))
      → Chained es
      → load hash_json ls es ≡ ok fs
      → Chained fs
  unfolding load
  load-Chained [] es fs c = λ h. subst Chained (ground arith) c
  load-Chained (l ∷ ls) es fs c = elim (Outcome-cases (load_line hash_json l es)) [
    | inl (gs, eq) ↦ rw (eq, load) (λ h. load-Chained ls gs fs (load_line-Chained l es gs c eq) h)
    | inr (x, eq) ↦ rw (eq, load) (λ h. absurd (cc))
  ]

  -- Where hashes do not collide, the newest hash determines a chain.
  Chained-determined :
      (es fs : List (EvidenceAuditEvent D))
      → ((p q : Unsigned D) → hash_json p ≡ hash_json q → p ≡ q)
      → Chained es
      → Chained fs
      → last_hash es ≡ last_hash fs
      → es ≡ fs
  Chained-determined [] [] inj c d h = refl
  Chained-determined [] (f ∷ fs) inj c d h = absurd (cc)
  Chained-determined (e ∷ es) [] inj c d h = absurd (cc)
  Chained-determined (e ∷ es) (f ∷ fs) inj (c, cs) (d, ds) h =
      let hashes : e.event_hash ≡ f.event_hash = ground arith in
      let payloads : e.payload ≡ f.payload =
        inj e.payload f.payload (sym c.hashed ∙ hashes ∙ d.hashed) in
      let older : last_hash es ≡ last_hash fs =
        sym c.previous ∙ ap (λ p. p.previous_event_hash) payloads ∙ d.previous in
      let rest : es ≡ fs = Chained-determined es fs inj cs ds older in
      let newest : e ≡ f = λ i. record { payload = payloads i; event_hash = hashes i } in
      λ i. newest i ∷ rest i

  -- Two files that load as logs whose newest hashes agree, but whose events differ, show a
  -- collision of the hash: it is not injective on payloads.
  pub new_log-binding :
      (ls ms : List (Line D)) (l m : EvidenceAuditLog D)
      → new_log hash_json (some ls) ≡ ok l
      → new_log hash_json (some ms) ≡ ok m
      → last_hash l.events ≡ last_hash m.events
      → l.events ≢ m.events
      → ¬ ((p q : Unsigned D) → hash_json p ≡ hash_json q → p ≡ q)
  unfolding new_log
  new_log-binding ls ms l m = elim (Outcome-cases (load hash_json ls [])) [
    | inr (x, eq) ↦ rw (eq, new_log) (λ h k. absurd (cc))
    | inl (es, eq) ↦ elim (Outcome-cases (load hash_json ms [])) [
      | inr (x, fq) ↦ rw (eq, fq, new_log) (λ h k. absurd (cc))
      | inl (fs, fq) ↦
          rw (eq, fq, new_log)
            (λ h k same_end differ inj. differ (
              Chained-determined l.events m.events inj
                (subst Chained (ground arith) (load-Chained ls [] es tt eq))
                (subst Chained (ground arith) (load-Chained ms [] fs tt fq)) same_end))
    ]
  ]

  -- The file of a log loads as the log's events.
  abbrev Reloads : EvidenceAuditLog D → Type 0
  Reloads log = (ls : List (Line D)) × (log.file ≡ some ls) × (load hash_json ls [] ≡ ok log.events)
