-- ===== src/Continuity/Once.antt =====
-- A continuity receipt authorizes at most one effect, whatever store keeps the promise of
-- NonceStore, and only under every test at once (minority_prophet/authority_continuity.py).
use minority_prophet_gate.Base.{
  ℕ, ◌≡◌, ◌≢◌, ◌≤◌, ◌<◌, ◌↔◌, refl, subst, inl, inr, Bool, true, false, List, [], ◌∷◌,
  if◌then◌else◌, arith, ok, Outcome-cases, count,
}
use minority_prophet_gate.Base.Json.{Fields}
use minority_prophet_gate.GateTypes.{GateAction, GateDecision}
use minority_prophet_gate.Continuity.Receipt.{
  Stamp, aware, NonceField, no_text, nonce_text, ContinuityReceipt, Presented, complete, incomplete,
  supported_schema, verified_text,
}
use minority_prophet_gate.Continuity.Nonces.{NonceStore}
use minority_prophet_gate.Continuity.Authorize.{
  Trust, answered, pre_check, authorize_continuous_effect,
}

abbrev pub is_proceed : GateDecision → Bool
is_proceed d = elim d.action [ GateAction.proceed ↦ true | _ ↦ false ]

-- Issued by now and not yet expired, all three instants with their timezone.
abbrev pub InWindow : Stamp → Stamp → Stamp → Type 0
InWindow (aware issued) (aware t) (aware expires) = (issued ≤ t) × (t < expires)
InWindow _ _ _ = ⊥

abbrev pub IsLongNonce : NonceField → ℕ → Type 0
IsLongNonce (nonce_text n size) m = (n ≡ m) × (16 ≤ size)
IsLongNonce no_text m = ⊥

-- The tests that a receipt passes, apart from the nonce being fresh.
pub record IsContinuous (trust : Trust) (r : ContinuityReceipt) (eff : Fields) (now : Stamp)
    (nonce : ℕ) : Type 0 where
  pub schema : r.schema ≡ supported_schema
  pub signed : trust.verify_border_receipt r ≡ answered true
  pub verified : r.verification ≡ verified_text
  pub named : trust.expected_audience ≢ 0
  pub audience : r.audience ≡ trust.expected_audience
  pub current : trust.mandate_is_current r.mandate_id ≡ answered true
  pub effect : r.final_effect_digest ≡ trust.effect_digest eff
  pub window : InWindow r.issued_at now r.expires_at
  pub long_nonce : IsLongNonce r.nonce nonce

module _ (trust : Trust) (r : ContinuityReceipt) (eff : Fields) (now : Stamp) (nonce : ℕ) where
  pre_check_sound :
      pre_check trust (complete r) eff now ≡ ok nonce → IsContinuous trust r eff now nonce
  unfolding pre_check
  pre_check_sound h = record {
    schema = ground arith;
    signed = ground arith;
    verified = ground arith;
    named = ground arith;
    audience = ground arith;
    current = ground arith;
    effect = ground arith;
    window = ground arith;
    long_nonce = ground arith;
  }

  pre_check_complete :
      IsContinuous trust r eff now nonce → pre_check trust (complete r) eff now ≡ ok nonce
  unfolding pre_check
  pre_check_complete c = ground arith

module _ {S : Type 0} (store : NonceStore S) where
  proceed-parts :
      (trust : Trust) (p : Presented) (eff : Fields) (now : Stamp) (s : S)
      → is_proceed (authorize_continuous_effect store trust p eff now s).0 ≡ true
      → (n : ℕ) × (pre_check trust p eff now ≡ ok n)
        × ((store.consume n (trust.effect_digest eff) s).0 ≡ ok true)
        × ((authorize_continuous_effect store trust p eff now s).1
            ≡ (store.consume n (trust.effect_digest eff) s).1)
  unfolding authorize_continuous_effect
  proceed-parts trust p eff now s h = elim (Outcome-cases (pre_check trust p eff now)) [
    | inl (n, e) ↦ (n, e, ground arith, ground arith)
    | inr (why, e) ↦ ground arith
  ]

  -- The Gate says proceed exactly when every test passes and the store answers that this is the
  -- first consumption of the receipt's nonce.
  pub authorize-proceed_iff :
      (trust : Trust) (r : ContinuityReceipt) (eff : Fields) (now : Stamp) (nonce size : ℕ) (s : S)
      → r.nonce ≡ nonce_text nonce size
      → (is_proceed (authorize_continuous_effect store trust (complete r) eff now s).0 ≡ true) ↔ (
          IsContinuous trust r eff now nonce
          × ((store.consume nonce (trust.effect_digest eff) s).0 ≡ ok true))
  unfolding authorize_continuous_effect
  authorize-proceed_iff trust r eff now nonce size s named = (
    λ h.
        let (n, checked_ok, first, _) = proceed-parts trust (complete r) eff now s h in
        let c = pre_check_sound trust r eff now n checked_ok in
        let e : n ≡ nonce = ground (arith, c.long_nonce) in
        (
          subst (IsContinuous trust r eff now) e c,
          subst (λ k. (store.consume k (trust.effect_digest eff) s).0 ≡ ok true) e first,
        ),
    λ (c, first). ground (arith, pre_check_complete trust r eff now nonce c),
  )

  -- A receipt that fails a test other than freshness does not use up its nonce.
  pub authorize-keeps_nonce :
      (trust : Trust) (r : ContinuityReceipt) (eff : Fields) (now : Stamp) (s : S)
      → ((nonce : ℕ) → ¬ IsContinuous trust r eff now nonce)
      → (is_proceed (authorize_continuous_effect store trust (complete r) eff now s).0 ≡ false)
        × ((authorize_continuous_effect store trust (complete r) eff now s).1 ≡ s)
  unfolding authorize_continuous_effect
  authorize-keeps_nonce trust r eff now s fails =
      elim (Outcome-cases (pre_check trust (complete r) eff now)) [
        | inl (n, e) ↦ absurd (fails n (pre_check_sound trust r eff now n e))
        | inr (why, e) ↦ ground arith
      ]

-- One call of the Gate.
pub record Presentation : Type 0 where
  pub trust : Trust
  pub receipt : Presented
  pub effect : Fields
  pub now : Stamp

abbrev pub nonce_of : Presented → ℕ
nonce_of incomplete = 0
nonce_of (complete r) = elim r.nonce [ no_text ↦ 0 | nonce_text n size ↦ n ]

module _ {S : Type 0} (store : NonceStore S) where
  -- The nonces of the receipts that were let through, in order.
  unfoldable pub let_through : List Presentation → S → List ℕ
  let_through [] s = []
  let_through (p ∷ ps) s =
      let (d, s') = authorize_continuous_effect store p.trust p.receipt p.effect p.now s in
      let rest = let_through ps s' in if is_proceed d then nonce_of p.receipt ∷ rest else rest

  proceed-first :
      (trust : Trust) (p : Presented) (eff : Fields) (now : Stamp) (s : S)
      → is_proceed (authorize_continuous_effect store trust p eff now s).0 ≡ true
      → (store.used (nonce_of p) s ≡ false)
        × (store.used (nonce_of p) (authorize_continuous_effect store trust p eff now s).1 ≡ true)
  unfolding authorize_continuous_effect
  proceed-first trust incomplete eff now s h = cc
  proceed-first trust (complete r) eff now s h =
      let (n, checked_ok, first, after) = proceed-parts store trust (complete r) eff now s h in
      let c = pre_check_sound trust r eff now n checked_ok in
      ground (arith, c.long_nonce, store.consume_first n (trust.effect_digest eff) s)

  authorize-keeps_used :
      (trust : Trust) (p : Presented) (eff : Fields) (now : Stamp) (m : ℕ) (s : S)
      → store.used m s ≡ true
      → store.used m (authorize_continuous_effect store trust p eff now s).1 ≡ true
  unfolding authorize_continuous_effect
  authorize-keeps_used trust p eff now m s h = elim (Outcome-cases (pre_check trust p eff now)) [
    | inl (n, e) ↦ ground (arith, store.consume_keeps n (trust.effect_digest eff) m s)
    | inr (why, e) ↦ ground arith
  ]

  let_through-used :
      (ps : List Presentation) (n : ℕ) (s : S)
      → store.used n s ≡ true
      → count n (let_through ps s) ≡ 0
  unfolding let_through
  let_through-used [] n s u = refl
  let_through-used (p ∷ ps) n s u =
      let (_, s') = authorize_continuous_effect store p.trust p.receipt p.effect p.now s in
      ground (
        arith,
        authorize-keeps_used p.trust p.receipt p.effect p.now n s u,
        let_through-used ps n s',
        proceed-first p.trust p.receipt p.effect p.now s,
      )

  -- Whatever is presented, in whatever order, at whatever times and under whatever trust, at most
  -- one presentation of a nonce gets a proceed.
  pub let_through-once : (ps : List Presentation) (n : ℕ) (s : S) → count n (let_through ps s) ≤ 1
  unfolding let_through
  let_through-once [] n s = omega arith
  let_through-once (p ∷ ps) n s =
      let (_, s') = authorize_continuous_effect store p.trust p.receipt p.effect p.now s in
      ground (
        arith,
        let_through-once ps n s',
        let_through-used ps n s',
        proceed-first p.trust p.receipt p.effect p.now s,
      )
