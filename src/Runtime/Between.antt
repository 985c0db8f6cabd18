-- ===== src/Runtime/Between.antt =====
-- Calls for other keys leave what a ledger holds, over any calls (minority_prophet/runtime_adapter.py,
-- RuntimeController).
use minority_prophet_gate.Base.{
  ℕ, ◌≡◌, refl, ◌∙◌, false, List, [], ◌∷◌, ◌==◌, inl, inr, Option-cases, Outcome-cases, subst,
  ne→==, none, some, arith, lookup, insert, lookup-insert, Outcome, ok, raised,
}
use minority_prophet_gate.GateTypes.{GateAction, GateDecision}
use minority_prophet_gate.Runtime.Action.{
  RuntimeAction, RuntimeReceipt, Fault, Status, succeeded, prevented,
}
use minority_prophet_gate.Runtime.Adapter.{RuntimeAdapter}
use minority_prophet_gate.Runtime.ExactlyOnce.{Call}
use minority_prophet_gate.Runtime.Controller.{
  Ledger, Entry, entry, pending, settled, settle, execute, prevent, first_attempt, apply,
  validate_receipt,
}

insert-lookup :
    (b : RuntimeAction) (k : ℕ) (e : Entry) (led : Ledger)
    → (k == b.idempotency_key) ≡ false
    → lookup k (insert b.idempotency_key e led) ≡ lookup k led
insert-lookup b k e led other = lookup-insert b.idempotency_key k e led ∙ rw other refl

-- A call for one key leaves what the ledger holds under the others.
module _ {W : Type 0} (b : RuntimeAction) (k : ℕ) (other : (k == b.idempotency_key) ≡ false) where
  settle-lookup :
      (st : Status) (n : ℕ) (r : Outcome Fault RuntimeReceipt) (led : Ledger) (w : W)
      → lookup k (settle b st n r led w).1 ≡ lookup k led
  unfolding settle
  settle-lookup st n (raised e) led w = refl
  settle-lookup st n (ok r) led w = elim (Outcome-cases (validate_receipt b r st n)) [
    | inr (e, eq) ↦ rw (eq, settle) refl
    | inl (u, eq) ↦ rw (eq, settle) (insert-lookup b k (entry b (settled r)) led other)
  ]

  module _ {P : Type 0} (ad : RuntimeAdapter W P) where
    execute-lookup :
        (p : Outcome Fault P) (led : Ledger) (w : W)
        → lookup k (execute ad b p led w).1 ≡ lookup k led
    unfolding execute
    execute-lookup (raised e) led w = refl
    execute-lookup (ok p) led w =
        settle-lookup succeeded 1 (ad.execute_once p w).0
          (insert b.idempotency_key (entry b pending) led) (ad.execute_once p w).1
        ∙ insert-lookup b k (entry b pending) led other

    first_attempt-lookup :
        (d : GateAction) (led : Ledger) (w : W)
        → lookup k (first_attempt ad d b led w).1 ≡ lookup k led
    unfolding first_attempt prevent
    first_attempt-lookup GateAction.proceed led w =
        let (p, v) = ad.prepare b w in execute-lookup p led v
    first_attempt-lookup GateAction.block led w =
        let (r, v) = ad.prevent b GateAction.block w in settle-lookup prevented 0 r led v
    first_attempt-lookup GateAction.escalate led w =
        let (r, v) = ad.prevent b GateAction.escalate w in settle-lookup prevented 0 r led v
    first_attempt-lookup GateAction.request_evidence led w = refl
    first_attempt-lookup (GateAction.other t) led w = refl

-- A key that a ledger holds is not one that it does not hold.
not_equal :
    (j k : ℕ) (e : Entry) (led : Ledger)
    → lookup j led ≡ none
    → lookup k led ≡ some e
    → (k == j) ≡ false
not_equal j k e led fresh held = ne→== k j (λ q.
    let both : lookup j led ≡ some e = subst (λ i. lookup i led ≡ some e) q held in
    absurd (ground (arith, fresh, both)))

apply-lookup :
    {W P : Type 0} (ad : RuntimeAdapter W P) (b : RuntimeAction) (k : ℕ) (d : GateDecision)
    (led : Ledger) (w : W) (e : Entry)
    → lookup k led ≡ some e
    → lookup k (apply ad d b led w).1 ≡ some e
unfolding apply
apply-lookup ad b k d led w e h = elim (Option-cases (lookup b.idempotency_key led)) [
  | inr (f, held) ↦ rw (held, apply) h
  | inl fresh ↦
      rw (fresh, apply)
        (first_attempt-lookup b k (not_equal b.idempotency_key k e led fresh h) ad d.action led w
          ∙ h)
]

module _ {W P : Type 0} where
  -- A caller that makes any calls in turn, whatever is returned or raised.
  unfoldable pub call_all : List (Call W P) → Ledger → W → Ledger × W
  unfolding apply
  call_all [] led w = (led, w)
  call_all (c ∷ cs) led w =
      let (_, led', w') = apply c.adapter c.decision c.action led w in call_all cs led' w'

  pub call_all-lookup :
      (cs : List (Call W P)) (k : ℕ) (led : Ledger) (w : W) (e : Entry)
      → lookup k led ≡ some e
      → lookup k (call_all cs led w).0 ≡ some e
  unfolding call_all
  call_all-lookup [] k led w e h = h
  call_all-lookup (c ∷ cs) k led w e h =
      let (_, led', w') = apply c.adapter c.decision c.action led w in
      call_all-lookup cs k led' w' e (apply-lookup c.adapter c.action k c.decision led w e h)
