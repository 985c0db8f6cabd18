-- ===== src/Witnesses/Authority.antt =====
-- Runs of the autonomy mandate and of the continuity receipts.
use minority_prophet_gate.Base.{
  ℕ, ◌≡◌, ◌≤◌, ◌↔◌, ◌⊎◌, refl, true, false, Bool, Option, none, some, List, [], ◌∷◌, ◌==◌, count,
  arith, ok,
}
use minority_prophet_gate.Base.Json.{end, get_field}
use minority_prophet_gate.GateTypes.{GateAction, GateDecision, no_diagnostics}
use minority_prophet_gate.Runtime.Action.{Fingerprint}
use minority_prophet_gate.Runtime.ExactlyOnce.{recording}
use minority_prophet_gate.Autonomy.Level.{act, emergency_act, rank}
use minority_prophet_gate.Autonomy.Mandate.{AutonomyMandate, aware}
use minority_prophet_gate.Autonomy.Release.{GateRelease, grant, resolve_gate_release}
use minority_prophet_gate.Autonomy.Controller.{State, apply}
use minority_prophet_gate.Autonomy.Covers.{Covers, resolve-authorized_iff}
use minority_prophet_gate.Autonomy.Effects.{apply-executes_only}
use minority_prophet_gate.Continuity.Receipt as Receipt
use minority_prophet_gate.Continuity.Receipt.{ContinuityReceipt, complete, nonce_text, no_text}
use minority_prophet_gate.Continuity.Nonces.{memory_store, sqlite_store, memory_consume}
use minority_prophet_gate.Continuity.Authorize.{Trust, answered, authorize_continuous_effect}
use minority_prophet_gate.Continuity.Once.{
  IsContinuous, is_proceed, Presentation, let_through, authorize-proceed_iff, authorize-keeps_nonce,
  let_through-once,
}
use minority_prophet_gate.Continuity.Execution.{
  Statement, SignedReceipt, statement, issue_execution_receipt, verify_execution_receipt,
}
use minority_prophet_gate.Continuity.ExecutionLaws.{verify-issue}
use minority_prophet_gate.Witnesses.Samples.{charge, decision_to, receipt_of, counting}

abbrev bind : Fingerprint → ℕ
bind f = f.action_id

abbrev mandate : AutonomyMandate
mandate = record {
  mandate_id = 30;
  decision_subject = 40;
  max_level = act;
  allowed_action_types = 12 ∷ [];
  allowed_targets = 13 ∷ [];
  expires_at = aware 200;
  min_flip_budget = 1;
  min_roots_for = 1;
  allowed_action_digests = [];
  emergency_allowed = false;
  require_reversible = true;
}

abbrev go : GateDecision
go = decision_to GateAction.proceed

abbrev granted : GateRelease
unfolding grant
granted = grant bind go charge mandate act

resolve-authorized_iff_example :
    (granted.authorized ≡ true)
    ↔ ((go.action ≡ GateAction.proceed) × Covers bind go charge mandate act 100 200)
unfolding resolve_gate_release grant get_field
resolve-authorized_iff_example =
    resolve-authorized_iff bind go charge mandate act 100 granted 200 refl refl

abbrev idle : State (ℕ × List ℕ)
idle = record { prepared = []; ledger = []; world = (0, []) }

apply-executes_only_example :
    ((apply (recording counting) bind 100 granted go charge mandate none idle).1.world.1 ≡ [])
    ⊎ ((go.action ≡ GateAction.proceed)
        × (granted.authorized ≡ true)
        × (3 ≤ rank granted.released_level)
        × Covers bind go charge mandate granted.requested_level 100 200)
apply-executes_only_example =
    apply-executes_only counting granted go charge idle bind 100 200 mandate none refl

abbrev emergency : GateRelease
emergency = record granted { released_level = emergency_act; requested_level = emergency_act }

abbrev still : State ℕ
still = record { prepared = []; ledger = []; world = 0 }

abbrev trust : Trust
trust = record {
  verify_border_receipt = λ r. answered true;
  mandate_is_current = λ m. answered true;
  effect_digest = λ f. 14;
  expected_audience = 50;
}

abbrev border : ContinuityReceipt
border = record {
  schema = 1;
  verification = 2;
  mandate_id = 30;
  mandate_digest = 31;
  chain_digest = 32;
  owner_id = 33;
  task_id = 34;
  final_actor_id = 35;
  final_actor_key_thumbprint = 36;
  final_machine_id = 37;
  audience = 50;
  final_effect_digest = 14;
  issued_at = Receipt.aware 10;
  expires_at = Receipt.aware 20;
  nonce = nonce_text 60 16;
}

authorize-proceed_iff_example :
    (is_proceed
        (authorize_continuous_effect memory_store trust
          (complete border)
          end
          (Receipt.aware 15)
          []).0
      ≡ true)
    ↔ (IsContinuous trust border end (Receipt.aware 15) 60
        × ((memory_consume 60 14 []).0 ≡ ok true))
authorize-proceed_iff_example =
    authorize-proceed_iff memory_store trust border end (Receipt.aware 15) 60 16 [] refl

abbrev elsewhere : ContinuityReceipt
elsewhere = record border { audience = 51 }

authorize-keeps_nonce_example :
    (is_proceed
        (authorize_continuous_effect memory_store trust
          (complete elsewhere)
          end
          (Receipt.aware 15)
          []).0
      ≡ false)
    × ((authorize_continuous_effect memory_store trust
          (complete elsewhere)
          end
          (Receipt.aware 15)
          []).1
        ≡ [])
authorize-keeps_nonce_example =
    authorize-keeps_nonce memory_store trust elsewhere end (Receipt.aware 15) []
      (λ n c. let h = c.audience in ground arith)

abbrev shown : Presentation
shown = record { trust = trust; receipt = complete border; effect = end; now = Receipt.aware 15 }

let_through-once_example :
    count 60 (let_through (sqlite_store (λ rows. false)) (shown ∷ shown ∷ []) []) ≤ 1
let_through-once_example =
    let_through-once (sqlite_store (λ rows. false)) (shown ∷ shown ∷ []) 60 []

abbrev backed : GateDecision
backed = record go {
  diagnostics = record no_diagnostics {
    authority_continuity = some true;
    chain_digest = some 32;
    effect_digest = some 14;
  };
}

abbrev signer : Statement → Option ℕ
signer st = some 70

abbrev verifier : Statement → ℕ → ℕ → Bool
verifier st sig key = sig == 70

abbrev issued : SignedReceipt
unfolding statement
issued = record {
  statement = statement bind charge (receipt_of charge) 32 80 81 82;
  signature = 70;
  exact_keys = true;
}

verify-issue_example : verify_execution_receipt bind issued charge verifier ≡ true
unfolding statement issue_execution_receipt
verify-issue_example =
    verify-issue bind charge issued (receipt_of charge) backed 80 81 82 signer verifier
      (λ st sig h. ground arith) refl
