-- ===== src/Witnesses/Effects.antt =====
-- Runs of the runtime boundary and of its integrations.
use minority_prophet_gate.Base.{
  ℕ, ◌+◌, ◌≡◌, ◌≤◌, refl, false, Option, none, some, List, [], ◌∷◌, ◌==◌, if◌then◌else◌, count,
  has_key, ok, raised,
}
use minority_prophet_gate.Base.Json.{Fields}
use minority_prophet_gate.GateTypes.{GateAction}
use minority_prophet_gate.Runtime.Action.{RuntimeAction, Fault, unresolved_attempt}
use minority_prophet_gate.Runtime.Controller.{Ledger, apply}
use minority_prophet_gate.Runtime.ExactlyOnce.{Call, run, run-executes_once}
use minority_prophet_gate.Runtime.Between.{call_all}
use minority_prophet_gate.Runtime.Replay.{apply-apply, apply-unresolved}
use minority_prophet_gate.Integrations.Tool.{Handler, ToolState}
use minority_prophet_gate.Integrations.ToolOnce.{Event, called, restarted, after_events}
use minority_prophet_gate.Witnesses.Samples.{charge, decision_to, receipt_of, counting, failing}

abbrev go : Call ℕ RuntimeAction
go = record { decision = decision_to GateAction.proceed; action = charge; adapter = counting }

abbrev go_and_fail : Call ℕ RuntimeAction
go_and_fail = record go { adapter = failing }

abbrev calls : List (Call ℕ RuntimeAction)
calls = go ∷ go_and_fail ∷ go ∷ []

run-executes_once_example :
    (count 15 (run calls [] (0, [])).1.1 ≤ 1)
    × (has_key 15 (run calls [] (0, [])).0 ≡ false → count 15 (run calls [] (0, [])).1.1 ≡ 0)
run-executes_once_example = run-executes_once calls 0 15

abbrev elsewhere : RuntimeAction
elsewhere = record charge { action_id = 18; idempotency_key = 19 }

-- Calls that come between: for another key, which succeeds, and for the key itself, which does not.
abbrev between : List (Call ℕ RuntimeAction)
between = record go { action = elsewhere } ∷ go_and_fail ∷ []

abbrev settled_once : Ledger
settled_once = (apply counting (decision_to GateAction.proceed) charge [] 0).1

apply-apply_example :
    apply failing
      (decision_to GateAction.block)
      charge
      (call_all between settled_once 7).0
      (call_all between settled_once 7).1
    ≡ (
      ok (receipt_of charge),
      (call_all between settled_once 7).0,
      (call_all between settled_once 7).1,
    )
unfolding apply
apply-apply_example =
    apply-apply counting failing charge (decision_to GateAction.proceed)
      (decision_to GateAction.block) [] 0 between 7 (receipt_of charge) refl refl

abbrev left_pending : Ledger
left_pending = (apply failing (decision_to GateAction.proceed) charge [] 0).1

apply-unresolved_example :
    apply counting
      (decision_to GateAction.proceed)
      charge
      (call_all between left_pending 7).0
      (call_all between left_pending 7).1
    ≡ (
      raised unresolved_attempt,
      (call_all between left_pending 7).0,
      (call_all between left_pending 7).1,
    )
unfolding apply
apply-unresolved_example =
    apply-unresolved failing counting charge (decision_to GateAction.proceed)
      (decision_to GateAction.proceed) [] 0 between 7 charge (Fault.external 3) refl refl refl refl

abbrev digest : Fields → ℕ
digest f = 14

abbrev double : ℕ → ℕ
double n = n + n

-- One tool, which counts its calls.
abbrev tool : Handler ℕ
tool = λ f key n. (ok 8, n + 1)

abbrev handlers : ℕ → ℕ → Option (Handler ℕ)
handlers action_type target = if target == 13 then some tool else none

-- A call, a new controller, and the same call again.
abbrev events : List Event
events =
    called (decision_to GateAction.proceed) charge
    ∷ restarted
    ∷ called (decision_to GateAction.proceed) charge
    ∷ []

abbrev tool_after : ToolState (ℕ × List ℕ)
tool_after =
    (after_events digest double handlers events [] (record { receipts = []; env = (0, []) })).1

tool_after-returns : tool_after.env.1 ≡ 15 ∷ []
unfolding after_events
tool_after-returns = refl
