-- ===== src/Integrations/Tool.antt =====
-- runtime_integrations.py: InProcessToolRuntime. A handler is a parameter: it takes the payload and
-- the idempotency key, changes the state `E` of the tool, and returns a result or raises.
use minority_prophet_gate.Base.{ℕ, Option, none, some, Dict, lookup, insert, Outcome, ok, raised}
use minority_prophet_gate.Base.Json.{Fields}
use minority_prophet_gate.Runtime.Action.{
  RuntimeAction, RuntimeReceipt, Fault, not_allowlisted, key_error, unprepared_action, succeeded,
  no_note,
}
use minority_prophet_gate.Runtime.Adapter.{RuntimeAdapter}
use minority_prophet_gate.Integrations.Prepared.{Handed, prepared, foreign, freeze, prevent_receipt}

abbrev pub Handler : Type 0 → Type 0
Handler E = Fields → ℕ → E → Outcome Fault ℕ × E

-- `_receipts`, and the state of the tool
pub record ToolState (E : Type 0) : Type 0 where
  pub receipts : Dict RuntimeReceipt
  pub env : E

unfoldable pub success : RuntimeAction → ℕ → RuntimeReceipt
success a digest_of_result = record {
  action_id = a.action_id;
  idempotency_key = a.idempotency_key;
  status = succeeded;
  attempt_count = 1;
  result_digest = some digest_of_result;
  diagnostics = no_note;
}

-- `handlers` is keyed by action type and target. `digest` hashes a payload, `digest_of` a result.
module _ {E : Type 0} (digest : Fields → ℕ) (digest_of : ℕ → ℕ)
    (handlers : ℕ → ℕ → Option (Handler E)) where
  unfoldable pub tool_prepare : RuntimeAction → ToolState E → Outcome Fault Handed × ToolState E
  unfolding freeze
  tool_prepare a s = elim (handlers a.action_type a.target) [
    | none ↦ (raised not_allowlisted, s)
    | some _ ↦ (freeze digest a, s)
  ]

  -- The handler runs, and its receipt is kept, only if it returns.
  unfoldable pub invoke :
      Handler E → RuntimeAction → ToolState E → Outcome Fault RuntimeReceipt × ToolState E
  unfolding success
  invoke handler a s =
      let (r, env) = handler a.payload a.idempotency_key s.env in
      elim r [
        | ok result ↦ (
          ok (success a (digest_of result)),
          record {
            receipts = insert a.idempotency_key (success a (digest_of result)) s.receipts;
            env = env;
          },
        )
        | raised e ↦ (raised e, record s { env = env })
      ]

  unfoldable pub tool_execute : Handed → ToolState E → Outcome Fault RuntimeReceipt × ToolState E
  unfolding invoke
  tool_execute foreign s = (raised unprepared_action, s)
  tool_execute (prepared a) s = elim (lookup a.idempotency_key s.receipts) [
    | some existing ↦ (ok existing, s)
    | none ↦ elim (handlers a.action_type a.target) [
      | none ↦ (raised key_error, s)
      | some handler ↦ invoke handler a s
    ]
  ]

  unfoldable pub tool_runtime : RuntimeAdapter (ToolState E) Handed
  unfolding tool_prepare tool_execute prevent_receipt
  tool_runtime = record {
    prepare = tool_prepare;
    execute_once = tool_execute;
    prevent = λ a why s. (ok (prevent_receipt a why), s);
  }
