-- ===== src/Runtime/Replay.antt =====
-- What a second call for one key gets, what a failed call leaves, and what a refusal may not do.
use minority_prophet_gate.Base.{
  ℕ, ◌≡◌, ◌≢◌, refl, ◌∙◌, true, List, none, some, arith, lookup, insert, lookup-insert,
  lookup-insert_self, Outcome, ok, raised,
}
use minority_prophet_gate.GateTypes.{GateAction, GateDecision}
use minority_prophet_gate.Runtime.Action.{
  RuntimeAction, RuntimeReceipt, Fault, Status, succeeded, prevented, fingerprint, same_fingerprint,
  unresolved_attempt, key_substituted,
}
use minority_prophet_gate.Runtime.Adapter.{RuntimeAdapter}
use minority_prophet_gate.Runtime.ExactlyOnce.{Call}
use minority_prophet_gate.Runtime.Controller.{
  Ledger, Entry, entry, Slot, pending, settled, settle, execute, first_attempt, apply,
}
use minority_prophet_gate.Runtime.Between.{call_all, call_all-lookup}

same_fingerprint_refl :
    (a : RuntimeAction) → same_fingerprint (fingerprint a) (fingerprint a) ≡ true
same_fingerprint_refl a = ground arith

-- The ledger's entry for an action.
abbrev pub Holds : RuntimeAction → Slot → Ledger → Type 0
Holds a s led = lookup a.idempotency_key led ≡ some (entry a s)

settle-ok :
    {W : Type 0} (a : RuntimeAction) (st : Status) (n : ℕ) (r : Outcome Fault RuntimeReceipt)
    (led : Ledger) (w : W) {x : RuntimeReceipt}
    → (settle a st n r led w).0 ≡ ok x
    → Holds a (settled x) (settle a st n r led w).1
unfolding settle
settle-ok a st n (raised e) led w h = cc
settle-ok a st n (ok r) led w h =
    let e : Entry = record { fingerprint = fingerprint a; slot = settled r } in
    ground (arith, lookup-insert a.idempotency_key a.idempotency_key e led)

settle-raised :
    {W : Type 0} (a : RuntimeAction) (st : Status) (n : ℕ) (r : Outcome Fault RuntimeReceipt)
    (led : Ledger) (w : W) {e : Fault}
    → (settle a st n r led w).0 ≡ raised e
    → lookup a.idempotency_key (settle a st n r led w).1 ≡ lookup a.idempotency_key led
unfolding settle
settle-raised a st n (raised e) led w h = refl
settle-raised a st n (ok r) led w h = ground arith

module _ {W P : Type 0} (ad : RuntimeAdapter W P) (a : RuntimeAction) where
  execute-ok :
      (p : Outcome Fault P) (led : Ledger) (w : W) {x : RuntimeReceipt}
      → (execute ad a p led w).0 ≡ ok x
      → Holds a (settled x) (execute ad a p led w).1
  unfolding execute
  execute-ok (raised e) led w h = cc
  execute-ok (ok p) led w h =
      settle-ok a succeeded 1 (ad.execute_once p w).0
        (insert a.idempotency_key (record { fingerprint = fingerprint a; slot = pending }) led)
        (ad.execute_once p w).1 h

  first_attempt-ok :
      (d : GateAction) (led : Ledger) (w : W) {x : RuntimeReceipt}
      → (first_attempt ad d a led w).0 ≡ ok x
      → Holds a (settled x) (first_attempt ad d a led w).1
  unfolding first_attempt
  first_attempt-ok GateAction.proceed led w h = let (p, v) = ad.prepare a w in execute-ok p led v h
  first_attempt-ok GateAction.block led w h =
      let (r, v) = ad.prevent a GateAction.block w in settle-ok a prevented 0 r led v h
  first_attempt-ok GateAction.escalate led w h =
      let (r, v) = ad.prevent a GateAction.escalate w in settle-ok a prevented 0 r led v h
  first_attempt-ok GateAction.request_evidence led w h = cc
  first_attempt-ok (GateAction.other t) led w h = cc

  -- A key that the ledger holds is answered from the ledger, and nothing is called.
  apply-settled :
      (d : GateDecision) (led : Ledger) (w : W) (x : RuntimeReceipt)
      → Holds a (settled x) led
      → apply ad d a led w ≡ (ok x, led, w)
  unfolding apply
  apply-settled d led w x h = rw (h, apply) (ground (arith, same_fingerprint_refl a))

  apply-pending :
      (d : GateDecision) (led : Ledger) (w : W)
      → Holds a pending led
      → apply ad d a led w ≡ (raised unresolved_attempt, led, w)
  unfolding apply
  apply-pending d led w h = rw (h, apply) (ground (arith, same_fingerprint_refl a))

  apply-ok :
      (d : GateDecision) (led : Ledger) (w : W) {x : RuntimeReceipt}
      → lookup a.idempotency_key led ≡ none
      → (apply ad d a led w).0 ≡ ok x
      → Holds a (settled x) (apply ad d a led w).1
  unfolding apply
  apply-ok d led w fresh = rw (fresh, apply) (λ h. first_attempt-ok d.action led w h)

  -- A key that stands for another action is refused, whatever the decision: nothing is called, and
  -- the ledger and the runtime stay as they were.
  pub apply-substituted :
      (d : GateDecision) (led : Ledger) (w : W) (e : Entry)
      → lookup a.idempotency_key led ≡ some e
      → e.fingerprint ≢ fingerprint a
      → apply ad d a led w ≡ (raised key_substituted, led, w)
  unfolding apply
  apply-substituted d led w e h ne = rw (h, apply) (ground arith)

  -- An execution that was prepared and then failed, in the runtime or by its receipt, leaves the
  -- key pending.
  execute-raised :
      (p : P) (led : Ledger) (w : W) {e : Fault}
      → (execute ad a (ok p) led w).0 ≡ raised e
      → Holds a pending (execute ad a (ok p) led w).1
  unfolding execute
  execute-raised p led w h =
      let mark : Entry = record { fingerprint = fingerprint a; slot = pending } in
      settle-raised a succeeded 1 (ad.execute_once p w).0 (insert a.idempotency_key mark led)
        (ad.execute_once p w).1 h
      ∙ lookup-insert_self a.idempotency_key mark led

  first_attempt-raised :
      (led : Ledger) (w : W) (p : P) {e : Fault}
      → (ad.prepare a w).0 ≡ ok p
      → (first_attempt ad GateAction.proceed a led w).0 ≡ raised e
      → Holds a pending (first_attempt ad GateAction.proceed a led w).1
  unfolding first_attempt
  first_attempt-raised led w p prepared =
      rw prepared (λ h. execute-raised p led (ad.prepare a w).1 h)

module _ {W P V Q : Type 0} (ad : RuntimeAdapter W P) (ad' : RuntimeAdapter V Q)
    (a : RuntimeAction) where
  -- A receipt that was returned for a fresh key is what every later call for the same action returns,
  -- whatever calls for whatever actions come in between, and whatever its decision and its adapter; that
  -- call changes neither the ledger nor the runtime.
  pub apply-apply :
      (d e : GateDecision) (led : Ledger) (w : W) (between : List (Call V Q)) (v : V)
      (x : RuntimeReceipt)
      → lookup a.idempotency_key led ≡ none
      → (apply ad d a led w).0 ≡ ok x
      → let (led', v') = call_all between (apply ad d a led w).1 v in
        apply ad' e a led' v' ≡ (ok x, led', v')
  apply-apply d e led w between v x fresh h =
      let (led', v') = call_all between (apply ad d a led w).1 v in
      apply-settled ad' a e led' v' x (
        call_all-lookup between a.idempotency_key (apply ad d a led w).1 v (entry a (settled x))
          (apply-ok ad a d led w fresh h))

  -- If the runtime prepared an action that the Gate lets proceed, and the call then raised, every later
  -- call for that action is refused as unresolved and calls nothing, whatever calls for whatever actions
  -- come in between.
  pub apply-unresolved :
      (d e : GateDecision) (led : Ledger) (w : W) (between : List (Call V Q)) (v : V) (p : P)
      (f : Fault)
      → lookup a.idempotency_key led ≡ none
      → d.action ≡ GateAction.proceed
      → (ad.prepare a w).0 ≡ ok p
      → (apply ad d a led w).0 ≡ raised f
      → let (led', v') = call_all between (apply ad d a led w).1 v in
        apply ad' e a led' v' ≡ (raised unresolved_attempt, led', v')
  apply-unresolved d e led w between v p f fresh act prepared h =
      let (led', v') = call_all between (apply ad d a led w).1 v in
      apply-pending ad' a e led' v' (
        call_all-lookup between a.idempotency_key (apply ad d a led w).1 v (entry a pending)
          (marked h))
    where
      marked : (apply ad d a led w).0 ≡ raised f → Holds a pending (apply ad d a led w).1
      marked =
          unfold apply in rw (fresh, apply, act) (λ h. first_attempt-raised ad a led w p prepared h)
