-- ===== src/Runtime/ExactlyOnce.antt =====
-- No schedule of calls executes one idempotency key twice, whatever the adapters answer.
use minority_prophet_gate.Base.{
  ℕ, ◌≡◌, ◌≤◌, refl, count, false, List, [], ◌∷◌, none, arith, inl, inr, lookup, insert, has_key,
  lookup-insert, Outcome, ok, raised, Option-cases,
}
use minority_prophet_gate.GateTypes.{GateAction, GateDecision}
use minority_prophet_gate.Runtime.Action.{
  RuntimeAction, RuntimeReceipt, Fault, Status, succeeded, prevented, fingerprint,
}
use minority_prophet_gate.Runtime.Adapter.{RuntimeAdapter}
use minority_prophet_gate.Runtime.Controller.{
  Ledger, Entry, pending, settled, settle, execute, first_attempt, apply,
}

abbrev pub tag_key : {P : Type 0} → ℕ → Outcome Fault P → Outcome Fault (P × ℕ)
tag_key k (ok p) = ok (p, k)
tag_key k (raised e) = raised e

tag_key-tags : {P : Type 0} (k : ℕ) (r : Outcome Fault P) (q : P × ℕ) → tag_key k r ≡ ok q → q.1 ≡ k
tag_key-tags k (ok p) q h = ground arith
tag_key-tags k (raised e) q h = cc

-- The adapter with a log: every call of `execute_once` writes the key of the action that was
-- prepared for it, also when the call then raises.
abbrev pub recording : {W P : Type 0} → RuntimeAdapter W P → RuntimeAdapter (W × List ℕ) (P × ℕ)
recording ad = record {
  prepare = λ a s. let (r, w) = ad.prepare a s.0 in (tag_key a.idempotency_key r, (w, s.1));
  execute_once = λ p s. let (r, w) = ad.execute_once p.0 s.0 in (r, (w, p.1 ∷ s.1));
  prevent = λ a why s. let (r, w) = ad.prevent a why s.0 in (r, (w, s.1));
}

-- One call of the controller: a decision, an action and the adapter it is to run on.
pub record Call (W P : Type 0) : Type 0 where
  pub decision : GateDecision
  pub action : RuntimeAction
  pub adapter : RuntimeAdapter W P

module _ {W P : Type 0} where
  -- A caller that keeps calling, whatever was returned or raised.
  unfoldable pub run : List (Call W P) → Ledger → W × List ℕ → Ledger × (W × List ℕ)
  run [] led s = (led, s)
  run (c ∷ cs) led s =
      let (_, led', s') = apply (recording c.adapter) c.decision c.action led s in run cs led' s'

-- The key was executed at most once, and not at all if the ledger does not hold it.
abbrev pub OnceAt : ℕ → Ledger → List ℕ → Type 0
OnceAt k led log = (count k log ≤ 1) × (has_key k led ≡ false → count k log ≡ 0)

-- Recording an answer forgets no key and touches no runtime.
pub settle_keeps :
    {W : Type 0} (k : ℕ) (a : RuntimeAction) (st : Status) (n : ℕ)
    (r : Outcome Fault RuntimeReceipt) (led : Ledger) (w : W)
    → ((settle a st n r led w).2 ≡ w)
      × (has_key k (settle a st n r led w).1 ≡ false → has_key k led ≡ false)
unfolding settle
settle_keeps k a st n (raised e) led w = (refl, λ h. h)
settle_keeps k a st n (ok r) led w = (
  ground arith,
  ground (
    arith,
    lookup-insert a.idempotency_key k (record { fingerprint = fingerprint a; slot = settled r })
        led,
  ),
)

module _ {W P : Type 0} (k : ℕ) (ad : RuntimeAdapter W P) (a : RuntimeAction) where
  execute_step :
      (p : Outcome Fault (P × ℕ)) (led : Ledger) (s : W × List ℕ)
      → lookup a.idempotency_key led ≡ none
      → ((q : P × ℕ) → p ≡ ok q → q.1 ≡ a.idempotency_key)
      → OnceAt k led s.1
      → OnceAt k (execute (recording ad) a p led s).1 (execute (recording ad) a p led s).2.1
  unfolding execute
  execute_step (raised e) led s fresh tagged h = h
  execute_step (ok q) led s fresh tagged h =
      let mark : Entry = record { fingerprint = fingerprint a; slot = pending } in
      let (answer, w) = ad.execute_once q.0 s.0 in
      ground (
        arith,
        tagged q refl,
        settle_keeps {W = W × List ℕ} k a succeeded 1 answer (insert a.idempotency_key mark led)
            (w, q.1 ∷ s.1),
        lookup-insert a.idempotency_key k mark led,
      )

  first_attempt_step :
      (d : GateAction) (led : Ledger) (s : W × List ℕ)
      → lookup a.idempotency_key led ≡ none
      → OnceAt k led s.1
      → OnceAt k
          (first_attempt (recording ad) d a led s).1
          (first_attempt (recording ad) d a led s).2.1
  unfolding first_attempt
  first_attempt_step GateAction.proceed led s fresh h =
      let (r, w) = ad.prepare a s.0 in
      execute_step (tag_key a.idempotency_key r) led (w, s.1) fresh
        (tag_key-tags a.idempotency_key r) h
  first_attempt_step GateAction.block led s fresh h =
      let (r, w) = ad.prevent a GateAction.block s.0 in
      ground (arith, settle_keeps {W = W × List ℕ} k a prevented 0 r led (w, s.1))
  first_attempt_step GateAction.escalate led s fresh h =
      let (r, w) = ad.prevent a GateAction.escalate s.0 in
      ground (arith, settle_keeps {W = W × List ℕ} k a prevented 0 r led (w, s.1))
  first_attempt_step _ led s fresh h = h

  apply_step :
      (d : GateDecision) (led : Ledger) (s : W × List ℕ)
      → OnceAt k led s.1
      → OnceAt k (apply (recording ad) d a led s).1 (apply (recording ad) d a led s).2.1
  unfolding apply
  apply_step d led s h = elim (Option-cases (lookup a.idempotency_key led)) [
    | inl fresh ↦ rw (fresh, apply) (first_attempt_step d.action led s fresh h)
    | inr (e, held) ↦ rw (held, apply) h
  ]

module _ {W P : Type 0} (k : ℕ) where
  run_step :
      (calls : List (Call W P)) (led : Ledger) (s : W × List ℕ)
      → OnceAt k led s.1
      → OnceAt k (run calls led s).0 (run calls led s).1.1
  unfolding run
  run_step [] led s h = h
  run_step (c ∷ cs) led s h =
      let (_, led', s') = apply (recording c.adapter) c.decision c.action led s in
      run_step cs led' s' (apply_step k c.adapter c.action c.decision led s h)

-- From an empty ledger, whatever decisions, actions and adapters the calls bring, and whatever the
-- adapters return or raise, `execute_once` is called at most once for each idempotency key, and
-- for no key that the final ledger does not hold.
pub run-executes_once :
    {W P : Type 0} (calls : List (Call W P)) (w : W) (k : ℕ)
    → (count k (run calls [] (w, [])).1.1 ≤ 1)
      × (has_key k (run calls [] (w, [])).0 ≡ false → count k (run calls [] (w, [])).1.1 ≡ 0)
run-executes_once calls w k = run_step k calls [] (w, []) (omega arith, λ _. refl)
