-- ===== src/Autonomy/Mandate.antt =====
-- autonomy.py: AutonomyMandate and `_parse_time`. Reading an RFC 3339 text is the standard
-- library's: a timestamp is what `datetime.fromisoformat` makes of it.
use minority_prophet_gate.Base.{
  ℕ, Bool, true, false, not, ◌||◌, ◌&&◌, List, [], ◌∷◌, ltb, ◌==◌, if◌then◌else◌, Outcome, ok,
  raised, ◌>>=◌,
}
use minority_prophet_gate.Autonomy.Level.{
  AutonomyLevel, emergency_act, same_level, LevelArgument, parse,
}

pub data Timestamp : Type 0 where
  empty_text unreadable : Timestamp
  naive aware : ℕ → Timestamp

pub data MandateError : Type 0 where
  bad_level identity_required scope_required thresholds_invalid emergency_not_allowed : MandateError
  not_rfc3339 no_timezone : MandateError

unfoldable pub parse_time : Timestamp → Outcome MandateError ℕ
parse_time empty_text = raised not_rfc3339
parse_time unreadable = raised not_rfc3339
parse_time (naive t) = raised no_timezone
parse_time (aware t) = ok t

pub record AutonomyMandate : Type 0 where
  pub mandate_id : ℕ
  pub decision_subject : ℕ
  pub max_level : AutonomyLevel
  pub allowed_action_types : List ℕ
  pub allowed_targets : List ℕ
  pub expires_at : Timestamp
  pub min_flip_budget : ℕ
  pub min_roots_for : ℕ
  pub allowed_action_digests : List ℕ
  pub emergency_allowed : Bool
  pub require_reversible : Bool

abbrev pub is_empty {ℓ} : {A : Type ℓ} → List A → Bool
is_empty [] = true
is_empty (_ ∷ _) = false

abbrev is_empty_text : Timestamp → Bool
is_empty_text empty_text = true
is_empty_text _ = false

-- The checks of `__post_init__`, after the level was parsed; the flip budget is no less than 0 by
-- its type.
unfoldable pub check_mandate : AutonomyMandate → Outcome MandateError AutonomyMandate
unfolding parse_time
check_mandate m =
    if m.mandate_id == 0 || m.decision_subject == 0 || is_empty_text m.expires_at
    then raised identity_required
    else if is_empty m.allowed_action_types || is_empty m.allowed_targets
    then raised scope_required
    else if ltb m.min_roots_for 1
    then raised thresholds_invalid
    else if same_level m.max_level emergency_act && not m.emergency_allowed
    then raised emergency_not_allowed
    else (parse_time m.expires_at >>= λ _. ok m)

unfoldable pub new_mandate : LevelArgument → AutonomyMandate → Outcome MandateError AutonomyMandate
unfolding check_mandate parse
new_mandate argument m = elim (parse argument) [
  | ok l ↦ check_mandate (record m { max_level = l })
  | raised _ ↦ raised bad_level
]
