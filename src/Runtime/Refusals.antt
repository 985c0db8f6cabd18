-- ===== src/Runtime/Refusals.antt =====
-- Only a proceed reaches `execute_once`.
use minority_prophet_gate.Base.{
  ℕ, ◌≡◌, ◌≢◌, refl, List, arith, lookup, inl, inr, Option-cases, Outcome, ok, raised,
}
use minority_prophet_gate.GateTypes.{GateAction, GateDecision}
use minority_prophet_gate.Runtime.Action.{RuntimeAction, RuntimeReceipt, Fault, Status, prevented}
use minority_prophet_gate.Runtime.Adapter.{RuntimeAdapter}
use minority_prophet_gate.Runtime.Controller.{Ledger, settle, first_attempt, apply}
use minority_prophet_gate.Runtime.ExactlyOnce.{recording}

pub settle-world :
    {W : Type 0} (a : RuntimeAction) (st : Status) (n : ℕ) (r : Outcome Fault RuntimeReceipt)
    (led : Ledger) (w : W)
    → (settle a st n r led w).2 ≡ w
unfolding settle
settle-world a st n (raised e) led w = refl
settle-world a st n (ok r) led w = ground arith

module _ {W P : Type 0} (ad : RuntimeAdapter W P) (a : RuntimeAction) (led : Ledger)
    (s : W × List ℕ) where
  first_attempt-log :
      (d : GateAction) → d ≢ GateAction.proceed → (first_attempt (recording ad) d a led s).2.1 ≡ s.1
  unfolding first_attempt
  first_attempt-log GateAction.proceed ne = absurd (ne refl)
  first_attempt-log GateAction.block ne =
      let (r, w) = ad.prevent a GateAction.block s.0 in
      ground (arith, settle-world {W = W × List ℕ} a prevented 0 r led (w, s.1))
  first_attempt-log GateAction.escalate ne =
      let (r, w) = ad.prevent a GateAction.escalate s.0 in
      ground (arith, settle-world {W = W × List ℕ} a prevented 0 r led (w, s.1))
  first_attempt-log _ ne = refl

  -- A decision other than proceed executes nothing, whatever the ledger holds.
  pub apply-log :
      (d : GateDecision)
      → d.action ≢ GateAction.proceed
      → (apply (recording ad) d a led s).2.1 ≡ s.1
  unfolding apply
  apply-log d ne = elim (Option-cases (lookup a.idempotency_key led)) [
    | inl fresh ↦ rw (fresh, apply) (first_attempt-log d.action ne)
    | inr (e, held) ↦ rw (held, apply)
  ]
