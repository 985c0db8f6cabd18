-- ===== src/Receipts/Signed.antt =====
-- What a signed receipt is answered (minority_prophet/receipt_verifier.py).
use minority_prophet_gate.Base.{
  ℕ, ◌≡◌, refl, sym, subst, inl, inr, none, some, arith, lookup, insert, lookup-insert_self, ltb,
  Bool-cases,
}
use minority_prophet_gate.Adapter.Envelope.{root}
use minority_prophet_gate.Receipts.Verifier.{
  receipt_schema, no_parent, Receipt, Signature, hmac_sha256, Issuers, sign_receipt_envelope,
  Memory, Statement, text, trusted_domain, stated, new_root, answer, verify,
}

-- A receipt that names everything that the verifier asks for, in the name of a trusted issuer.
pub record IsComplete (t : Issuers) (r : Receipt) (s : Statement) (key : ℕ × ℕ) (issuer : ℕ)
    : Type 0 where
  pub claim : text r.claim_id ≡ some s.claim_id
  pub assertion : r.assertion ≡ some s.entry.assertion
  pub issued : text r.issuer ≡ some issuer
  pub rooted : text r.root_id ≡ some s.entry.root_id
  pub subject : text r.subject ≡ some s.entry.subject
  pub schema : r.schema ≡ some receipt_schema
  pub keyed : lookup issuer t.issuer_keys ≡ some key
  pub domain : lookup issuer t.issuer_domains ≡ some s.entry.domain
  pub controlled : r.control_domain ≡ some s.entry.domain
  pub parent : s.parent ≡ r.derived_from

module _ (t : Issuers) (r : Receipt) (s : Statement) (key : ℕ × ℕ) (issuer : ℕ) where
  signed-trusted :
      (sig : Signature)
      → IsComplete t r s key issuer
      → sign_receipt_envelope t.hmac key r ≡ some sig
      → trusted_domain t r sig issuer ≡ some s.entry.domain
  unfolding trusted_domain sign_receipt_envelope
  signed-trusted sig c = elim (Bool-cases (ltb key.1 32)) [
    | inl short ↦ rw short (λ h. absurd (cc))
    | inr long ↦ rw long (λ h.
        let q : hmac_sha256 (t.hmac key.0 r) ≡ sig = ground arith in
        subst (λ x. trusted_domain t r x issuer ≡ some s.entry.domain) q
          (rw (trusted_domain, c.keyed, c.domain, c.schema, c.controlled) (ground arith)))
  ]

  signed-stated :
      (sig : Signature)
      → IsComplete t r s key issuer
      → sign_receipt_envelope t.hmac key r ≡ some sig
      → stated t r sig ≡ some s
  unfolding stated
  signed-stated sig c h =
      rw
        (
          stated,
          c.claim,
          c.assertion,
          c.issued,
          c.rooted,
          c.subject,
          signed-trusted sig c h,
          sym c.parent,
        )
        refl

  -- A complete receipt that names no parent, signed with its issuer's key, is answered as a root by a
  -- verifier that knows neither its claim nor its root, and as a root again whenever it is presented
  -- right after.
  pub sign-verify :
      (sig : Signature) (m : Memory)
      → IsComplete t r s key issuer
      → sign_receipt_envelope t.hmac key r ≡ some sig
      → s.parent ≡ no_parent
      → lookup s.claim_id m.claims ≡ none
      → lookup s.entry.root_id m.roots ≡ none
      → ((verify t r sig m).0 ≡ root)
        × (verify t r sig (verify t r sig m).1 ≡ (root, (verify t r sig m).1))
  unfolding verify answer
  sign-verify sig m c h alone new rootless =
      let said = signed-stated sig c h in
      let after : verify t r sig m ≡ (
        root,
        record {
          claims = insert s.claim_id s.entry m.claims;
          roots = insert s.entry.root_id s.claim_id m.roots;
        },
      ) =
        rw (said, verify, new, answer, rootless, alone, new_root) refl in
      rw after (
        refl,
        rw (said, verify, lookup-insert_self s.claim_id s.entry m.claims, answer, alone)
            (ground arith),
      )

  -- A complete receipt that names no parent, signed with its issuer's key, for a claim that the verifier
  -- remembers with the same root, assertion, subject and domain, is answered as a root without any change
  -- of memory, also where the verifier took the claim as derived.
  pub sign-verify_promotes :
      (sig : Signature) (m : Memory)
      → IsComplete t r s key issuer
      → sign_receipt_envelope t.hmac key r ≡ some sig
      → s.parent ≡ no_parent
      → lookup s.claim_id m.claims ≡ some s.entry
      → verify t r sig m ≡ (root, m)
  unfolding verify answer
  sign-verify_promotes sig m c h alone old =
      rw (signed-stated sig c h, verify, old, answer, alone) (ground arith)
