-- ===== src/Autonomy/Controller.antt =====
-- autonomy.py: AutonomyController. A release is acted on only if resolving it again, at the time of
-- the call, gives the same authority.
use minority_prophet_gate.Base.{
  ℕ, ◌+◌, Bool, true, false, not, ◌&&◌, Option, none, some, if◌then◌else◌, ◌==◌, Dict, lookup,
  insert, Outcome, ok, raised,
}
use minority_prophet_gate.GateTypes.{GateAction, GateDecision}
use minority_prophet_gate.Runtime.Action.{
  RuntimeAction, RuntimeReceipt, Fingerprint, fingerprint, same_fingerprint, Fault,
  release_substituted, release_mismatch, prepared_substituted, notifier_required,
  mandate_unreadable,
}
use minority_prophet_gate.Runtime.Adapter.{RuntimeAdapter}
use minority_prophet_gate.Runtime.Controller as RuntimeController
use minority_prophet_gate.Autonomy.Level.{
  AutonomyLevel, observe, recommend, prepare, act, emergency_act, same_level,
}
use minority_prophet_gate.Autonomy.Mandate.{AutonomyMandate}
use minority_prophet_gate.Autonomy.Release.{GateRelease, ReleaseReason, resolve_gate_release}

pub data AutonomyStatus : Type 0 where
  prevented_status observed recommended prepared_status executed : AutonomyStatus

pub record AutonomyOutcome : Type 0 where
  pub release : GateRelease
  pub status : AutonomyStatus
  pub receipt : Option RuntimeReceipt
  pub prepared : Bool

-- `_prepared`, the ledger of the runtime controller, and the state of the runtime.
pub record State (W : Type 0) : Type 0 where
  pub prepared : Dict Fingerprint
  pub ledger : RuntimeController.Ledger
  pub world : W

-- EmergencyNotifier: it tells the owner, or raises.
abbrev pub Notifier : Type 0 → Type 0
Notifier W = GateRelease → RuntimeAction → W → Outcome Fault (Unit {0}) × W

-- The texts are compared through these codes, which no two share.
abbrev pub action_code : GateAction → ℕ
action_code GateAction.proceed = 0
action_code GateAction.block = 1
action_code GateAction.escalate = 2
action_code GateAction.request_evidence = 3
action_code (GateAction.other t) = 4 + t

abbrev pub reason_code : ReleaseReason → ℕ
reason_code ReleaseReason.mandate_expired = 0
reason_code ReleaseReason.subject_unbound = 1
reason_code ReleaseReason.type_outside = 2
reason_code ReleaseReason.target_outside = 3
reason_code ReleaseReason.digest_outside = 4
reason_code ReleaseReason.price_below_threshold = 5
reason_code ReleaseReason.roots_below_threshold = 6
reason_code ReleaseReason.emergency_unauthorized = 7
reason_code ReleaseReason.not_reversible = 8
reason_code ReleaseReason.released_within = 9
reason_code (ReleaseReason.gate_returned g) = 10 + action_code g

abbrev pub same_bool : Bool → Bool → Bool
same_bool true b = b
same_bool false b = not b

-- `release` grants what `expected` grants.
abbrev pub matches : GateRelease → GateRelease → Bool
matches expected release =
    same_bool expected.authorized release.authorized
    && same_level expected.released_level release.released_level
    && expected.mandate_id == release.mandate_id
    && reason_code expected.reason == reason_code release.reason

-- A proceed that the mandate does not cover goes to the runtime as an escalation.
abbrev pub denied : GateDecision → GateDecision
denied d = record d { action = GateAction.escalate }

abbrev pub outcome : GateRelease → AutonomyStatus → Option RuntimeReceipt → Bool → AutonomyOutcome
outcome r s x p = record { release = r; status = s; receipt = x; prepared = p }

module _ {W : Type 0} where
  -- The outcome of a call of the runtime controller.
  abbrev pub through :
      GateRelease
      → AutonomyStatus
      → State W
      → RuntimeController.Effect W
      → Outcome Fault AutonomyOutcome × State W
  through release status s e = (
    elim e.0 [ ok x ↦ ok (outcome release status (some x) false) | raised f ↦ raised f ],
    record s { ledger = e.1; world = e.2 },
  )

module _ {W P : Type 0} (ad : RuntimeAdapter W P) where
  -- The branch for a release that is not authorized, by the Gate's action.
  unfoldable pub withhold_at :
      GateAction
      → GateRelease
      → GateDecision
      → RuntimeAction
      → State W
      → Outcome Fault AutonomyOutcome × State W
  withhold_at GateAction.block release d a s =
      through release prevented_status s (RuntimeController.apply ad d a s.ledger s.world)
  withhold_at GateAction.escalate release d a s =
      through release prevented_status s (RuntimeController.apply ad d a s.ledger s.world)
  withhold_at GateAction.proceed release d a s =
      through release prevented_status s (RuntimeController.apply ad (denied d) a s.ledger s.world)
  withhold_at _ release d a s = (ok (outcome release observed none false), s)

  unfoldable pub prepare_once :
      GateRelease → RuntimeAction → State W → Outcome Fault AutonomyOutcome × State W
  prepare_once release a s = elim (lookup a.idempotency_key s.prepared) [
    | some f ↦
        if same_fingerprint f (fingerprint a)
        then (ok (outcome release prepared_status none true), s)
        else (raised prepared_substituted, s)
    | none ↦
        let (r, w) = ad.prepare a s.world in
        elim r [
          | ok _ ↦ (
            ok (outcome release prepared_status none true),
            record s { prepared = insert a.idempotency_key (fingerprint a) s.prepared; world = w },
          )
          | raised f ↦ (raised f, record s { world = w })
        ]
  ]

  unfoldable pub perform :
      GateRelease → GateDecision → RuntimeAction → State W → Outcome Fault AutonomyOutcome × State W
  perform release d a s =
      through release executed s (RuntimeController.apply ad d a s.ledger s.world)

  -- The owner is told before the effect; without a notifier, or if it raises, there is none.
  unfoldable pub perform_emergency :
      Option (Notifier W)
      → GateRelease
      → GateDecision
      → RuntimeAction
      → State W
      → Outcome Fault AutonomyOutcome × State W
  unfolding perform
  perform_emergency none release d a s = (raised notifier_required, s)
  perform_emergency (some notify) release d a s =
      let (told, w) = notify release a s.world in
      elim told [
        | ok _ ↦ perform release d a (record s { world = w })
        | raised f ↦ (raised f, record s { world = w })
      ]

  unfoldable pub act_at :
      AutonomyLevel
      → Option (Notifier W)
      → GateRelease
      → GateDecision
      → RuntimeAction
      → State W
      → Outcome Fault AutonomyOutcome × State W
  unfolding prepare_once perform perform_emergency
  act_at observe notifier release d a s = (ok (outcome release observed none false), s)
  act_at recommend notifier release d a s = (ok (outcome release recommended none false), s)
  act_at prepare notifier release d a s = prepare_once release a s
  act_at act notifier release d a s = perform release d a s
  act_at emergency_act notifier release d a s = perform_emergency notifier release d a s

  -- The tests of `apply`, and the branch that the release takes.
  unfoldable pub apply :
      (Fingerprint → ℕ)
      → ℕ
      → GateRelease
      → GateDecision
      → RuntimeAction
      → AutonomyMandate
      → Option (Notifier W)
      → State W
      → Outcome Fault AutonomyOutcome × State W
  unfolding withhold_at act_at
  apply bind now release d a m notifier s =
      if not (action_code release.gate_action == action_code d.action)
      then (raised release_substituted, s)
      else elim (resolve_gate_release bind d a m release.requested_level now) [
        | raised _ ↦ (raised mandate_unreadable, s)
        | ok expected ↦
            if not (matches expected release)
            then (raised release_mismatch, s)
            else if not release.authorized
            then withhold_at d.action release d a s
            else act_at release.released_level notifier release d a s
      ]
