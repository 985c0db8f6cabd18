-- ===== src/Integrations/Http.antt =====
-- runtime_integrations.py: IdempotentHttpRuntime. The transport is a parameter: it takes the
-- endpoint, the idempotency key, the action's digest and the payload, and answers with a status and
-- the bytes of a response, or raises.
use minority_prophet_gate.Base.{
  ℕ, ◌&&◌, Option, none, some, leb, ltb, if◌then◌else◌, Dict, lookup, insert, Outcome, ok, raised,
}
use minority_prophet_gate.Base.Json.{Fields}
use minority_prophet_gate.Runtime.Action.{
  RuntimeAction, RuntimeReceipt, Fault, not_allowlisted, key_error, unprepared_action,
  http_rejected, succeeded, http_status,
}
use minority_prophet_gate.Runtime.Adapter.{RuntimeAdapter}
use minority_prophet_gate.Integrations.Prepared.{Handed, prepared, foreign, freeze, prevent_receipt}

abbrev pub Transport : Type 0 → Type 0
Transport E = ℕ → ℕ → ℕ → Fields → E → Outcome Fault (ℕ × ℕ) × E

pub record HttpState (E : Type 0) : Type 0 where
  pub receipts : Dict RuntimeReceipt
  pub env : E

unfoldable pub http_success : RuntimeAction → ℕ → ℕ → RuntimeReceipt
http_success a status digest_of_response = record {
  action_id = a.action_id;
  idempotency_key = a.idempotency_key;
  status = succeeded;
  attempt_count = 1;
  result_digest = some digest_of_response;
  diagnostics = http_status status;
}

-- `digest` hashes a payload, `digest_of` a response.
module _ {E : Type 0} (digest : Fields → ℕ) (digest_of : ℕ → ℕ) (endpoints : ℕ → ℕ → Option ℕ)
    (transport : Transport E) where
  unfoldable pub http_prepare : RuntimeAction → HttpState E → Outcome Fault Handed × HttpState E
  unfolding freeze
  http_prepare a s = elim (endpoints a.action_type a.target) [
    | none ↦ (raised not_allowlisted, s)
    | some _ ↦ (freeze digest a, s)
  ]

  -- Any status outside 200 to 299 raises, and no receipt is kept.
  unfoldable pub post : ℕ → RuntimeAction → HttpState E → Outcome Fault RuntimeReceipt × HttpState E
  unfolding http_success
  post url a s =
      let (r, env) = transport url a.idempotency_key a.payload_digest a.payload s.env in
      elim r [
        | ok (status, response) ↦
            if leb 200 status && ltb status 300
            then (
              ok (http_success a status (digest_of response)),
              record {
                receipts =
                    insert a.idempotency_key (http_success a status (digest_of response))
                      s.receipts;
                env = env;
              },
            )
            else (raised (http_rejected status), record s { env = env })
        | raised e ↦ (raised e, record s { env = env })
      ]

  unfoldable pub http_execute : Handed → HttpState E → Outcome Fault RuntimeReceipt × HttpState E
  unfolding post
  http_execute foreign s = (raised unprepared_action, s)
  http_execute (prepared a) s = elim (lookup a.idempotency_key s.receipts) [
    | some existing ↦ (ok existing, s)
    | none ↦ elim (endpoints a.action_type a.target) [
      | none ↦ (raised key_error, s)
      | some url ↦ post url a s
    ]
  ]

  unfoldable pub http_runtime : RuntimeAdapter (HttpState E) Handed
  unfolding http_prepare http_execute prevent_receipt
  http_runtime = record {
    prepare = http_prepare;
    execute_once = http_execute;
    prevent = λ a why s. (ok (prevent_receipt a why), s);
  }
