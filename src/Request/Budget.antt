-- ===== src/Request/Budget.antt =====
-- A challenge that was issued is accepted on its return, and a policy's round budget is the exact
-- number of challenges it gives (minority_prophet/evidence_request.py).
use minority_prophet_gate.Base.{
  ℕ, zero, suc, ◌+◌, ◌≡◌, ◌≢◌, ◌≤◌, ◌<◌, refl, true, false, Option, none, some, List, [], ◌∷◌,
  arith, Outcome, ok, raised, ◌>>=◌,
}
use minority_prophet_gate.Request.Policy.{
  RequestError, EvidenceRequirement, EvidenceRequestPolicy, same_requirements, same_texts,
  exhausted,
}
use minority_prophet_gate.Request.Challenge.{
  Host, EvidenceRequest, challenge, validate_evidence_return, issue_evidence_request,
}

same_texts_refl : (xs : List ℕ) → same_texts xs xs ≡ true
same_texts_refl [] = refl
same_texts_refl (x ∷ xs) = ground (arith, same_texts_refl xs)

pub same_requirements_refl : (rs : List EvidenceRequirement) → same_requirements rs rs ≡ true
unfolding same_requirements
same_requirements_refl [] = refl
same_requirements_refl (r ∷ rs) = ground (
  arith,
  same_requirements_refl rs,
  same_texts_refl r.accepted_kinds,
  same_texts_refl r.collector_route.allowed_actions,
)

module _ (host : Host) (policy : EvidenceRequestPolicy) (action subject pid : ℕ) where
  -- Once a challenge was issued, returning it with the same action, subject and policy passes
  -- every check, also that of its round.
  pub validate-issue :
      (reason : ℕ) (previous : Option EvidenceRequest) (r : EvidenceRequest)
      → ((t : ℕ) → host.strip (host.strip t) ≡ host.strip t)
      → 1 ≤ policy.max_rounds
      → issue_evidence_request host policy action subject pid reason previous ≡ ok r
      → validate_evidence_return host r policy action subject pid ≡ ok tt
  unfolding issue_evidence_request validate_evidence_return
  validate-issue reason previous r stripped rounds h = ground (
    arith,
    stripped action,
    stripped subject,
    stripped pid,
    same_requirements_refl policy.requirements,
  )

  -- The challenge after `n` returns that were still unresolved.
  unfoldable pub issue_nth : ℕ → ℕ → Outcome RequestError EvidenceRequest
  issue_nth reason zero = issue_evidence_request host policy action subject pid reason none
  issue_nth reason (suc n) = issue_nth reason n >>= λ r.
      issue_evidence_request host policy action subject pid reason (some r)

  -- The texts are not blank, and stripping twice is stripping once.
  pub record AreTexts (reason : ℕ) : Type 0 where
    pub stripped : (t : ℕ) → host.strip (host.strip t) ≡ host.strip t
    pub action_text : host.strip action ≢ 0
    pub subject_text : host.strip subject ≢ 0
    pub policy_text : host.strip pid ≢ 0
    pub reason_text : host.strip reason ≢ 0

  issue-first :
      (reason : ℕ)
      → AreTexts reason
      → (r : EvidenceRequest) × (issue_evidence_request host policy action subject pid reason none
          ≡ ok r)
        × (r.payload.round ≡ 1)
  unfolding issue_evidence_request
  issue-first reason t =
      let p =
        challenge host policy (host.strip action) (host.strip subject) (host.strip pid)
          (host.strip reason) (1, none) in
      (
        record { challenge_id = host.payload_digest p; payload = p; grants_authority = false },
        ground (arith, t.action_text, t.subject_text, t.policy_text, t.reason_text),
        refl,
      )

  issue-next :
      (reason : ℕ) (previous : EvidenceRequest)
      → AreTexts reason
      → validate_evidence_return host previous policy action subject pid ≡ ok tt
      → previous.payload.round < policy.max_rounds
      → (r : EvidenceRequest) × (issue_evidence_request host policy action subject pid reason
            (some previous)
          ≡ ok r)
        × (r.payload.round ≡ previous.payload.round + 1)
  unfolding issue_evidence_request validate_evidence_return
  issue-next reason previous t valid below =
      let position : ℕ × Option ℕ = (previous.payload.round + 1, some previous.challenge_id) in
      let p =
        challenge host policy (host.strip action) (host.strip subject) (host.strip pid)
          (host.strip reason) position in
      (
        record { challenge_id = host.payload_digest p; payload = p; grants_authority = false },
        ground (
          arith,
          t.action_text,
          t.subject_text,
          t.policy_text,
          t.reason_text,
          t.stripped action,
          t.stripped subject,
          t.stripped pid,
        ),
        refl,
      )

  issue-exhausted :
      (reason : ℕ) (previous : EvidenceRequest)
      → AreTexts reason
      → validate_evidence_return host previous policy action subject pid ≡ ok tt
      → policy.max_rounds ≤ previous.payload.round
      → issue_evidence_request host policy action subject pid reason (some previous)
        ≡ raised exhausted
  unfolding issue_evidence_request validate_evidence_return
  issue-exhausted reason previous t valid above = ground (
    arith,
    t.action_text,
    t.subject_text,
    t.policy_text,
    t.reason_text,
    t.stripped action,
    t.stripped subject,
    t.stripped pid,
  )

  module _ (reason : ℕ) (t : AreTexts reason) (rounds : 1 ≤ policy.max_rounds) where
    issue_nth-lt :
        (n : ℕ)
        → n < policy.max_rounds
        → (r : EvidenceRequest) × (issue_nth reason n ≡ ok r)
          × (r.payload.round ≡ n + 1)
          × (validate_evidence_return host r policy action subject pid ≡ ok tt)
    unfolding issue_nth
    issue_nth-lt zero lt =
        let (r, e, one_) = issue-first reason t in
        (r, e, omega arith, validate-issue reason none r t.stripped rounds e)
    issue_nth-lt (suc n) lt =
        let (q, e, round, valid) = issue_nth-lt n (omega arith) in
        let (r, e', round') = issue-next reason q t valid (omega arith) in
        (r, rw e e', omega arith, validate-issue reason (some q) r t.stripped rounds e')

    -- For a request whose texts are not blank, a policy of `max_rounds` rounds gives that many
    -- challenges in a row, numbered from 1, and after them none: the next one is refused as exhausted.
    pub issue_nth-budget :
        ((n : ℕ)
          → n < policy.max_rounds
          → (r : EvidenceRequest) × (issue_nth reason n ≡ ok r) × (r.payload.round ≡ n + 1))
        × (issue_nth reason policy.max_rounds ≡ raised exhausted)
    issue_nth-budget = (
      λ n lt. let (r, e, round, _) = issue_nth-lt n lt in (r, e, round),
      at_end policy.max_rounds refl rounds,
    )
      where
        at_end : (k : ℕ) → k ≡ policy.max_rounds → 1 ≤ k → issue_nth reason k ≡ raised exhausted
        at_end zero e pos = absurd (omega arith)
        at_end (suc n) e pos =
            let (q, e', round, valid) = issue_nth-lt n (omega arith) in
            unfold issue_nth in rw e' (issue-exhausted reason q t valid (omega arith))
