-- ===== src/Autonomy/Effects.antt =====
-- When the autonomy controller may execute (minority_prophet/autonomy.py, AutonomyController.apply):
-- the runtime's log of executions moves only under an authorized release at the level of acting.
use minority_prophet_gate.Base.{
  ℕ, ◌≡◌, ◌≢◌, ◌≤◌, ◌⊎◌, refl, inl, inr, Bool, true, Option, none, some, List, arith, raises,
  Bool-cases, Outcome-cases,
}
use minority_prophet_gate.GateTypes.{GateAction, GateDecision}
use minority_prophet_gate.Runtime.Action.{RuntimeAction, Fingerprint}
use minority_prophet_gate.Runtime.Adapter.{RuntimeAdapter}
use minority_prophet_gate.Runtime.ExactlyOnce.{recording}
use minority_prophet_gate.Runtime.Refusals.{apply-log}
use minority_prophet_gate.Autonomy.Level.{
  AutonomyLevel, observe, recommend, prepare, act, emergency_act, rank,
}
use minority_prophet_gate.Autonomy.Mandate.{AutonomyMandate, aware}
use minority_prophet_gate.Autonomy.Release.{GateRelease, observe_only, resolve_gate_release}
use minority_prophet_gate.Autonomy.Covers.{Covers, resolve-authorized_iff}
use minority_prophet_gate.Autonomy.Controller.{
  State, Notifier, withhold_at, prepare_once, perform_emergency, act_at, apply, matches, denied,
}

abbrev log_of : {W : Type 0} → State (W × List ℕ) → List ℕ
log_of s = s.world.1

module _ {W P : Type 0} (ad : RuntimeAdapter W P) (release : GateRelease) (d : GateDecision)
    (a : RuntimeAction) (s : State (W × List ℕ)) where
  -- A release that is not authorized executes nothing, also when the Gate said proceed.
  withhold-log :
      (g : GateAction)
      → d.action ≡ g
      → log_of (withhold_at (recording ad) g release d a s).1 ≡ log_of s
  unfolding withhold_at
  withhold-log GateAction.block e = apply-log ad a s.ledger s.world d (rw e (λ x. cc))
  withhold-log GateAction.escalate e = apply-log ad a s.ledger s.world d (rw e (λ x. cc))
  withhold-log GateAction.proceed e = apply-log ad a s.ledger s.world (denied d) (λ x. cc)
  withhold-log _ e = refl

  prepare_once-log : log_of (prepare_once (recording ad) release a s).1 ≡ log_of s
  unfolding prepare_once
  prepare_once-log = ground arith

  act_at-log :
      (l : AutonomyLevel) (notifier : Option (Notifier (W × List ℕ)))
      → (log_of (act_at (recording ad) l notifier release d a s).1 ≡ log_of s) ⊎ (3 ≤ rank l)
  unfolding act_at
  act_at-log observe notifier = inl refl
  act_at-log recommend notifier = inl refl
  act_at-log prepare notifier = inl prepare_once-log
  act_at-log act notifier = inr (omega arith)
  act_at-log emergency_act notifier = inr (omega arith)

  -- The controller executes only if the Gate said proceed, the release it was given is authorized
  -- and at the level of acting, and the mandate still covers the action at the time of the call. In every
  -- other case the log of executions stays as it was.
  pub apply-executes_only :
      (bind : Fingerprint → ℕ) (now expires : ℕ) (m : AutonomyMandate)
      (notifier : Option (Notifier (W × List ℕ)))
      → m.expires_at ≡ aware expires
      → (log_of (apply (recording ad) bind now release d a m notifier s).1 ≡ log_of s)
        ⊎ ((d.action ≡ GateAction.proceed)
            × (release.authorized ≡ true)
            × (3 ≤ rank release.released_level)
            × Covers bind d a m release.requested_level now expires)
  unfolding apply
  apply-executes_only bind now expires m notifier readable =
      let l = release.requested_level in
      elim (Bool-cases release.authorized) [
        | inr withheld ↦ inl (ground (arith, withhold-log d.action refl))
        | inl granted ↦ elim (act_at-log release.released_level notifier) [
          | inl still ↦ inl (ground arith)
          | inr high ↦ elim (Outcome-cases (resolve_gate_release bind d a m l now)) [
            | inr (f, e) ↦ inl (ground arith)
            | inl (expected, e) ↦ elim (Bool-cases (matches expected release)) [
              | inr differs ↦ inl (ground arith)
              | inl agrees ↦
                  let (p, c) =
                    (resolve-authorized_iff bind d a m l now expected expires readable e).0
                      (ground arith) in
                  inr (p, granted, high, c)
            ]
          ]
        ]
      ]

  -- A decision other than proceed executes nothing, whatever release comes with it.
  pub apply-still :
      (bind : Fingerprint → ℕ) (now : ℕ) (m : AutonomyMandate)
      (notifier : Option (Notifier (W × List ℕ)))
      → d.action ≢ GateAction.proceed
      → log_of (apply (recording ad) bind now release d a m notifier s).1 ≡ log_of s
  unfolding apply resolve_gate_release observe_only
  apply-still bind now m notifier ne = elim (Bool-cases release.authorized) [
    | inr withheld ↦ ground (arith, withhold-log d.action refl)
    | inl granted ↦ ground arith
  ]

module _ {W P : Type 0} (ad : RuntimeAdapter W P) (release : GateRelease) (d : GateDecision)
    (a : RuntimeAction) (s : State W) where
  -- No notifier was given, or it raised.
  abbrev pub untold : Option (Notifier W) → Bool
  untold none = true
  untold (some notify) = raises (notify release a s.world).0

  emergency-untold :
      (notifier : Option (Notifier W))
      → untold notifier ≡ true
      → ((perform_emergency ad notifier release d a s).1.ledger ≡ s.ledger)
        × (raises (perform_emergency ad notifier release d a s).0 ≡ true)
  unfolding perform_emergency
  emergency-untold none u = (refl, refl)
  emergency-untold (some notify) u = ground arith

  -- An emergency release without a notifier, or whose notifier raises, raises and leaves the ledger
  -- of executions as it was, whatever the mandate and the Gate allow.
  pub apply-untold :
      (bind : Fingerprint → ℕ) (now : ℕ) (m : AutonomyMandate) (notifier : Option (Notifier W))
      → release.released_level ≡ emergency_act
      → release.authorized ≡ true
      → untold notifier ≡ true
      → ((apply ad bind now release d a m notifier s).1.ledger ≡ s.ledger)
        × (raises (apply ad bind now release d a m notifier s).0 ≡ true)
  unfolding apply act_at
  apply-untold bind now m notifier level granted u = ground (arith, emergency-untold notifier u)
