-- ===== src/Autonomy/Release.antt =====
-- autonomy.py: GateRelease and `resolve_gate_release`. The digest that binds an action, a SHA-256
-- of its fingerprint, is the function `bind`.
use minority_prophet_gate.Base.{
  ℕ, Bool, true, false, not, ◌&&◌, Option, none, some, elem, ltb, leb, same, if◌then◌else◌, Outcome,
  ok, raised,
}
use minority_prophet_gate.Base.Json.{Json, get_field}
use minority_prophet_gate.GateTypes.{GateAction, GateDecision}
use minority_prophet_gate.Runtime.Action.{RuntimeAction, Fingerprint, fingerprint}
use minority_prophet_gate.Autonomy.Level.{
  AutonomyLevel, observe, act, emergency_act, rank, min_level, same_level,
}
use minority_prophet_gate.Autonomy.Mandate.{AutonomyMandate, MandateError, parse_time, is_empty}

pub data ReleaseReason : Type 0 where
  gate_returned : GateAction → ReleaseReason
  mandate_expired subject_unbound type_outside target_outside digest_outside : ReleaseReason
  price_below_threshold roots_below_threshold emergency_unauthorized : ReleaseReason
  not_reversible released_within : ReleaseReason

pub record GateRelease : Type 0 where
  pub gate_action : GateAction
  pub requested_level : AutonomyLevel
  pub released_level : AutonomyLevel
  pub authorized : Bool
  pub mandate_id : ℕ
  pub reason : ReleaseReason
  pub decision_subject : ℕ
  pub action_binding_digest : ℕ
  pub mandate_max_level : AutonomyLevel
  pub capped : Option Bool

-- `action.payload.get("reversible") is True`
abbrev pub is_true : Option Json → Bool
is_true (some (Json.bool b)) = b
is_true _ = false

abbrev pub is_proceed : GateAction → Bool
is_proceed GateAction.proceed = true
is_proceed _ = false

module _ (bind : Fingerprint → ℕ) where
  -- The inner function `observe`.
  unfoldable pub observe_only :
      GateDecision → RuntimeAction → AutonomyMandate → AutonomyLevel → ReleaseReason → GateRelease
  observe_only d a m requested why = record {
    gate_action = d.action;
    requested_level = requested;
    released_level = observe;
    authorized = false;
    mandate_id = m.mandate_id;
    reason = why;
    decision_subject = m.decision_subject;
    action_binding_digest = bind (fingerprint a);
    mandate_max_level = m.max_level;
    capped = none;
  }

  unfoldable pub grant :
      GateDecision → RuntimeAction → AutonomyMandate → AutonomyLevel → GateRelease
  grant d a m requested = record {
    gate_action = d.action;
    requested_level = requested;
    released_level = min_level requested m.max_level;
    authorized = true;
    mandate_id = m.mandate_id;
    reason = released_within;
    decision_subject = m.decision_subject;
    action_binding_digest = bind (fingerprint a);
    mandate_max_level = m.max_level;
    capped = some (ltb (rank m.max_level) (rank requested));
  }

  -- The tests after the expiry was read, in their order.
  unfoldable pub resolve_at :
      GateDecision → RuntimeAction → AutonomyMandate → AutonomyLevel → ℕ → ℕ → GateRelease
  unfolding observe_only grant
  resolve_at d a m requested now expires =
      if leb expires now
      then observe_only d a m requested mandate_expired
      else if not (same d.diagnostics.subject (some m.decision_subject))
      then observe_only d a m requested subject_unbound
      else if not (elem a.action_type m.allowed_action_types)
      then observe_only d a m requested type_outside
      else if not (elem a.target m.allowed_targets)
      then observe_only d a m requested target_outside
      else if not (is_empty m.allowed_action_digests)
          && not (elem (bind (fingerprint a)) m.allowed_action_digests)
      then observe_only d a m requested digest_outside
      else if ltb d.flip_budget m.min_flip_budget
      then observe_only d a m requested price_below_threshold
      else if ltb d.roots_for m.min_roots_for
      then observe_only d a m requested roots_below_threshold
      else if same_level requested emergency_act && not m.emergency_allowed
      then observe_only d a m requested emergency_unauthorized
      else if leb (rank act) (rank (min_level requested m.max_level))
          && m.require_reversible
          && not (is_true (get_field "reversible" a.payload))
      then observe_only d a m requested not_reversible
      else grant d a m requested

  unfoldable pub resolve_gate_release :
      GateDecision
      → RuntimeAction
      → AutonomyMandate
      → AutonomyLevel
      → ℕ
      → Outcome MandateError GateRelease
  unfolding resolve_at parse_time
  resolve_gate_release d a m requested now =
      if not (is_proceed d.action)
      then ok (observe_only d a m requested (gate_returned d.action))
      else elim (parse_time m.expires_at) [
        | ok expires ↦ ok (resolve_at d a m requested now expires)
        | raised e ↦ raised e
      ]
