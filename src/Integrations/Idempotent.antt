-- ===== src/Integrations/Idempotent.antt =====
-- The target's own record of receipts keeps a tool from running twice for one key, also when the
-- controller has lost its ledger.
use minority_prophet_gate.Base.{
  ℕ, ◌≡◌, ◌≤◌, ◌<◌, ◌⊎◌, none, some, arith, Option, lookup, insert, lookup-insert_self, ok, raised,
}
use minority_prophet_gate.Base.Json.{Fields}
use minority_prophet_gate.GateTypes.{GateAction, GateDecision}
use minority_prophet_gate.Runtime.Action.{RuntimeAction, RuntimeReceipt, http_rejected}
use minority_prophet_gate.Runtime.Controller.{entry, Ledger, pending, settled, apply}
use minority_prophet_gate.Integrations.Tool.{Handler, ToolState, success, tool_runtime}
use minority_prophet_gate.Integrations.Http.{Transport, HttpState, http_runtime}

module _ {E : Type 0} (digest : Fields → ℕ) (digest_of : ℕ → ℕ)
    (handlers : ℕ → ℕ → Option (Handler E)) where
  -- A tool that holds a receipt for a key is not run again for it, whatever the decision and
  -- whatever the controller's ledger still knows: its receipts and its state stay as they are.
  pub tool-runs_once :
      (d : GateDecision) (a : RuntimeAction) (led : Ledger) (s : ToolState E) (r : RuntimeReceipt)
      → lookup a.idempotency_key s.receipts ≡ some r
      → (apply (tool_runtime digest digest_of handlers) d a led s).2 ≡ s
  unfolding apply tool_runtime
  tool-runs_once d a led s r held = ground arith

  -- A first proceed for an allowlisted action whose payload has the stated digest runs the handler
  -- once and records the same receipt at the controller and at the target.
  pub tool-succeeds :
      (d : GateDecision) (a : RuntimeAction) (led : Ledger) (s : ToolState E) (h : Handler E)
      (result : ℕ)
      → d.action ≡ GateAction.proceed
      → lookup a.idempotency_key led ≡ none
      → lookup a.idempotency_key s.receipts ≡ none
      → handlers a.action_type a.target ≡ some h
      → digest a.payload ≡ a.payload_digest
      → (h a.payload a.idempotency_key s.env).0 ≡ ok result
      → let r = success a (digest_of result) in
        let (out, led', s') = apply (tool_runtime digest digest_of handlers) d a led s in
        (out ≡ ok r)
        × (lookup a.idempotency_key led' ≡ some (entry a (settled r)))
        × (lookup a.idempotency_key s'.receipts ≡ some r)
        × (s'.env ≡ (h a.payload a.idempotency_key s.env).1)
  unfolding apply tool_runtime
  tool-succeeds d a led s h result act fresh unknown route same ran =
      let r = success a (digest_of result) in
      ground (
        arith,
        lookup-insert_self a.idempotency_key r s.receipts,
        lookup-insert_self a.idempotency_key (entry a (settled r))
            (insert a.idempotency_key (entry a pending) led),
      )

module _ {E : Type 0} (digest : Fields → ℕ) (digest_of : ℕ → ℕ) (endpoints : ℕ → ℕ → Option ℕ)
    (transport : Transport E) where
  -- An HTTP runtime that holds a receipt for a key does not call the endpoint again for it,
  -- whatever the decision and whatever the controller's ledger still knows.
  pub http-posts_once :
      (d : GateDecision) (a : RuntimeAction) (led : Ledger) (s : HttpState E) (r : RuntimeReceipt)
      → lookup a.idempotency_key s.receipts ≡ some r
      → (apply (http_runtime digest digest_of endpoints transport) d a led s).2 ≡ s
  unfolding apply http_runtime
  http-posts_once d a led s r held = ground arith

  -- A first proceed that the endpoint answers with a status outside 200 to 299 raises, keeps no
  -- receipt at the target, and leaves the key pending at the controller.
  pub http-rejected :
      (d : GateDecision) (a : RuntimeAction) (led : Ledger) (s : HttpState E)
      (url status response : ℕ)
      → d.action ≡ GateAction.proceed
      → lookup a.idempotency_key led ≡ none
      → lookup a.idempotency_key s.receipts ≡ none
      → endpoints a.action_type a.target ≡ some url
      → digest a.payload ≡ a.payload_digest
      → (transport url a.idempotency_key a.payload_digest a.payload s.env).0 ≡ ok (status, response)
      → (status < 200) ⊎ (300 ≤ status)
      → let (out, led', s') = apply (http_runtime digest digest_of endpoints transport) d a led s in
        (out ≡ raised (http_rejected status))
        × (lookup a.idempotency_key led' ≡ some (entry a pending))
        × (s'.receipts ≡ s.receipts)
  unfolding apply http_runtime
  http-rejected d a led s url status response act fresh unknown route same answered range =
      ground (arith, lookup-insert_self a.idempotency_key (entry a pending) led)
