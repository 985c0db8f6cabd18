-- ===== src/Integrations/ToolOnce.antt =====
-- Over any calls, and over restarts in which the controller loses its ledger, the handler of a tool
-- returns at most once for a key (minority_prophet/runtime_integrations.py, InProcessToolRuntime).
use minority_prophet_gate.Base.{
  ℕ, ◌≡◌, if◌then◌else◌, Option, none, some, List, [], ◌∷◌, count, has_key, Outcome, ok, raised,
}
use minority_prophet_gate.Base.Json.{Fields}
use minority_prophet_gate.GateTypes.{GateDecision}
use minority_prophet_gate.Runtime.Action.{RuntimeAction, Fault}
use minority_prophet_gate.Runtime.Controller.{Ledger, apply}
use minority_prophet_gate.Integrations.Tool.{Handler, ToolState, tool_runtime}

-- The log of a tool: the keys for which its handler returned.
abbrev pub noted : Outcome Fault ℕ → ℕ → List ℕ → List ℕ
noted (ok _) key log = key ∷ log
noted (raised _) key log = log

abbrev pub returning : {E : Type 0} → Handler E → Handler (E × List ℕ)
returning h = λ payload key s. let (r, e) = h payload key s.0 in (r, (e, noted r key s.1))

abbrev pub all_returning :
    {E : Type 0} → (ℕ → ℕ → Option (Handler E)) → ℕ → ℕ → Option (Handler (E × List ℕ))
all_returning handlers action_type target = elim (handlers action_type target) [
  | none ↦ none
  | some h ↦ some (returning h)
]

-- A call of the controller, or a new controller with an empty ledger over the same tool.
pub data Event : Type 0 where
  called : GateDecision → RuntimeAction → Event
  restarted : Event

module _ {E : Type 0} (digest : Fields → ℕ) (digest_of : ℕ → ℕ)
    (handlers : ℕ → ℕ → Option (Handler E)) where
  -- What is left after some events, whatever the calls return or raise.
  unfoldable pub after_events :
      List Event → Ledger → ToolState (E × List ℕ) → Ledger × ToolState (E × List ℕ)
  unfolding apply tool_runtime
  after_events [] led s = (led, s)
  after_events (called d a ∷ es) led s =
      let (_, led', s') =
        apply (tool_runtime digest digest_of (all_returning handlers)) d a led s in
      after_events es led' s'
  after_events (restarted ∷ es) led s = after_events es [] s

-- The handler returned once for the key if the tool holds a receipt for it, and else never.
abbrev pub IsReceipted : {E : Type 0} → ℕ → ToolState (E × List ℕ) → Type 0
IsReceipted k s = count k s.env.1 ≡ (if has_key k s.receipts then 1 else 0)
