-- ===== src/Continuity/Receipt.antt =====
-- authority_continuity.py: the continuity receipt as the code reads it, and `_time`.
use minority_prophet_gate.Base.{ℕ, Outcome, ok, raised}
use minority_prophet_gate.GateTypes.{Reason, bad_timestamp}

-- A value under `issued_at` or `expires_at`: no text, a text that is no RFC 3339 time, one without
-- a timezone, or an instant.
pub data Stamp : Type 0 where
  not_text unreadable : Stamp
  naive aware : ℕ → Stamp

unfoldable pub time_of : Stamp → Outcome Reason ℕ
time_of not_text = raised bad_timestamp
time_of unreadable = raised bad_timestamp
time_of (naive t) = raised bad_timestamp
time_of (aware t) = ok t

-- A value under `nonce`: no text, or a text with its length.
pub data NonceField : Type 0 where
  no_text : NonceField
  nonce_text : ℕ → ℕ → NonceField

pub record ContinuityReceipt : Type 0 where
  pub schema : ℕ
  pub verification : ℕ
  pub mandate_id : ℕ
  pub mandate_digest : ℕ
  pub chain_digest : ℕ
  pub owner_id : ℕ
  pub task_id : ℕ
  pub final_actor_id : ℕ
  pub final_actor_key_thumbprint : ℕ
  pub final_machine_id : ℕ
  pub audience : ℕ
  pub final_effect_digest : ℕ
  pub issued_at : Stamp
  pub expires_at : Stamp
  pub nonce : NonceField

-- What a caller presents: a dict with exactly the required keys, or anything else.
pub data Presented : Type 0 where
  complete : ContinuityReceipt → Presented
  incomplete : Presented

-- The texts "border-intent-continuity/v0.1" and "verified".
abbrev pub supported_schema : ℕ
supported_schema = 1

abbrev pub verified_text : ℕ
verified_text = 2
