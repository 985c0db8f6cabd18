-- ===== src/Continuity/Authorize.antt =====
-- authority_continuity.py: `authorize_continuous_effect`. Whatever fails, a block comes out.
use minority_prophet_gate.Base.{
  ℕ, Bool, true, false, not, ◌||◌, none, some, ◌==◌, leb, ltb, if◌then◌else◌, Outcome, ok, raised,
  ◌>>=◌, ◌>>◌, raise_if,
}
use minority_prophet_gate.Base.Json.{Fields}
use minority_prophet_gate.GateTypes.{
  GateAction, GateDecision, Reason, no_diagnostics, receipt_incomplete, unsupported_schema,
  verification_unavailable, signature_failed, audience_mismatch, clock_without_timezone, stale,
  currency_unavailable, mandate_revoked, effect_mismatch, invalid_nonce, nonce_store_unavailable,
  replayed,
}
use minority_prophet_gate.Continuity.Receipt.{
  Stamp, aware, time_of, NonceField, no_text, nonce_text, ContinuityReceipt, Presented, complete,
  incomplete, supported_schema, verified_text,
}
use minority_prophet_gate.Continuity.Nonces.{NonceStore}

-- The answer of an injected check: its truth value, or an exception.
pub data Check : Type 0 where
  answered : Bool → Check
  unavailable : Check

abbrev pub checked : Check → Reason → Reason → Outcome Reason (Unit {0})
checked (answered true) down refused = ok tt
checked (answered false) down refused = raised refused
checked unavailable down refused = raised down

unfoldable pub clock_time : Stamp → Outcome Reason ℕ
clock_time (aware t) = ok t
clock_time _ = raised clock_without_timezone

-- `not issued <= current < expires` reads `expires_at` only if the receipt was issued by now.
unfoldable pub check_window : ContinuityReceipt → ℕ → Outcome Reason (Unit {0})
unfolding time_of
check_window r now = do
  issued ← time_of r.issued_at
  raise_if (not (leb issued now)) stale
  expires ← time_of r.expires_at
  raise_if (not (ltb now expires)) stale

-- A nonce of at least sixteen characters.
unfoldable pub checked_nonce : NonceField → Outcome Reason ℕ
checked_nonce no_text = raised invalid_nonce
checked_nonce (nonce_text n size) = do raise_if (ltb size 16) invalid_nonce; ok n

-- What the deployment injects: Border's verifier, the currency of mandates, the digest of an effect
-- (a SHA-256 of its canonical JSON), the audience of this Gate.
pub record Trust : Type 0 where
  pub verify_border_receipt : ContinuityReceipt → Check
  pub mandate_is_current : ℕ → Check
  pub effect_digest : Fields → ℕ
  pub expected_audience : ℕ

-- The tests before the nonce is consumed; the result is the nonce.
unfoldable pub pre_check : Trust → Presented → Fields → Stamp → Outcome Reason ℕ
unfolding clock_time check_window checked_nonce
pre_check trust incomplete effect now = raised receipt_incomplete
pre_check trust (complete r) effect now = do
  raise_if (not (r.schema == supported_schema)) unsupported_schema
  raise_if (elim (trust.verify_border_receipt r) [ unavailable ↦ true | answered _ ↦ false ])
      verification_unavailable
  raise_if (not (r.verification == verified_text)) signature_failed
  checked (trust.verify_border_receipt r) verification_unavailable signature_failed
  raise_if (trust.expected_audience == 0 || not (r.audience == trust.expected_audience))
      audience_mismatch
  current ← clock_time now
  check_window r current
  checked (trust.mandate_is_current r.mandate_id) currency_unavailable mandate_revoked
  raise_if (not (r.final_effect_digest == trust.effect_digest effect)) effect_mismatch
  checked_nonce r.nonce

unfoldable pub blocked : Reason → GateDecision
blocked why = record {
  action = GateAction.block;
  decision = some 0;
  flip_budget = 0;
  confidence = record { num = 1; den = 1 };
  roots_for = 0;
  roots_against = 1;
  diagnostics = record no_diagnostics { reason = some why; authority_continuity = some false };
  conversions_to_reverse = none;
}

unfoldable pub continued : Presented → GateDecision
unfolding blocked
continued incomplete = blocked receipt_incomplete
continued (complete r) = record {
  action = GateAction.proceed;
  decision = none;
  flip_budget = 0;
  confidence = record { num = 0; den = 1 };
  roots_for = 0;
  roots_against = 0;
  diagnostics = record no_diagnostics {
    authority_continuity = some true;
    mandate_id = some r.mandate_id;
    chain_digest = some r.chain_digest;
    effect_digest = some r.final_effect_digest;
  };
  conversions_to_reverse = none;
}

module _ {S : Type 0} (store : NonceStore S) (trust : Trust) where
  -- The nonce is consumed for the effect's digest, after every other test.
  unfoldable pub consume_nonce : Presented → Fields → ℕ → S → GateDecision × S
  unfolding blocked continued
  consume_nonce receipt effect nonce s =
      let (r, s') = store.consume nonce (trust.effect_digest effect) s in
      elim r [
        | raised _ ↦ (blocked nonce_store_unavailable, s')
        | ok first_use ↦ if first_use then (continued receipt, s') else (blocked replayed, s')
      ]

  unfoldable pub authorize_continuous_effect : Presented → Fields → Stamp → S → GateDecision × S
  unfolding pre_check consume_nonce
  authorize_continuous_effect receipt effect now s = elim (pre_check trust receipt effect now) [
    | raised why ↦ (blocked why, s)
    | ok nonce ↦ consume_nonce receipt effect nonce s
  ]
