-- ===== src/Runtime/Adapter.antt =====
-- runtime_adapter.py: the RuntimeAdapter protocol, over the state `W` of the runtime behind it.
use minority_prophet_gate.Base.{Outcome}
use minority_prophet_gate.GateTypes.{GateAction}
use minority_prophet_gate.Runtime.Action.{RuntimeAction, RuntimeReceipt, Fault}

-- `P` is what `prepare` hands to `execute_once`, which the controller never looks into.
pub record RuntimeAdapter (W P : Type 0) : Type 0 where
  pub prepare : RuntimeAction → W → Outcome Fault P × W
  pub execute_once : P → W → Outcome Fault RuntimeReceipt × W
  pub prevent : RuntimeAction → GateAction → W → Outcome Fault RuntimeReceipt × W
