-- ===== src/Autonomy/Covers.antt =====
-- What a mandate covers, described apart from the code, and that `resolve_gate_release` grants
-- exactly that (minority_prophet/autonomy.py).
use minority_prophet_gate.Base.{
  ℕ, ◌≡◌, ◌≤◌, ◌<◌, ◌↔◌, ◌⊎◌, sym, subst, inl, inr, true, false, some, [], elem, arith, ok,
}
use minority_prophet_gate.Base.Json.{get_field}
use minority_prophet_gate.GateTypes.{GateAction, GateDecision}
use minority_prophet_gate.Runtime.Action.{RuntimeAction, Fingerprint, fingerprint}
use minority_prophet_gate.Autonomy.Level.{AutonomyLevel, observe, emergency_act, rank, min_level}
use minority_prophet_gate.Autonomy.Mandate.{AutonomyMandate, aware}
use minority_prophet_gate.Autonomy.Release.{
  GateRelease, is_true, resolve_at, resolve_gate_release, grant,
}

-- The conditions under which an owner lets a decision go ahead at a level.
pub record Covers (bind : Fingerprint → ℕ) (d : GateDecision) (a : RuntimeAction)
    (m : AutonomyMandate) (requested : AutonomyLevel) (now expires : ℕ) : Type 0 where
  pub current : now < expires
  pub bound : d.diagnostics.subject ≡ some m.decision_subject
  pub of_type : elem a.action_type m.allowed_action_types ≡ true
  pub on_target : elem a.target m.allowed_targets ≡ true
  pub exact :
      (m.allowed_action_digests ≡ [])
      ⊎ (elem (bind (fingerprint a)) m.allowed_action_digests ≡ true)
  pub priced : m.min_flip_budget ≤ d.flip_budget
  pub rooted : m.min_roots_for ≤ d.roots_for
  pub emergency : requested ≡ emergency_act → m.emergency_allowed ≡ true
  pub reversible :
      3 ≤ rank (min_level requested m.max_level)
      → m.require_reversible ≡ true
      → is_true (get_field "reversible" a.payload) ≡ true

module _ (bind : Fingerprint → ℕ) (d : GateDecision) (a : RuntimeAction) (m : AutonomyMandate)
    (requested : AutonomyLevel) (now expires : ℕ) where
  resolve_at_sound :
      (resolve_at bind d a m requested now expires).authorized ≡ true
      → Covers bind d a m requested now expires
  unfolding resolve_at
  resolve_at_sound h = record {
    current = ground arith;
    bound = ground arith;
    of_type = ground arith;
    on_target = ground arith;
    exact = ground arith;
    priced = ground arith;
    rooted = ground arith;
    emergency = ground arith;
    reversible = ground arith;
  }

  resolve_at_complete :
      Covers bind d a m requested now expires
      → resolve_at bind d a m requested now expires ≡ grant bind d a m requested
  unfolding resolve_at
  resolve_at_complete c = ground arith

module _ (bind : Fingerprint → ℕ) (d : GateDecision) (a : RuntimeAction) (m : AutonomyMandate)
    (requested : AutonomyLevel) (now : ℕ) (r : GateRelease) where
  -- Under a mandate that expires at a readable time, a release is authorized exactly when the Gate
  -- said proceed and the mandate covers the decision, the action and the level at that moment.
  pub resolve-authorized_iff :
      (expires : ℕ)
      → m.expires_at ≡ aware expires
      → resolve_gate_release bind d a m requested now ≡ ok r
      → (r.authorized ≡ true)
        ↔ ((d.action ≡ GateAction.proceed) × Covers bind d a m requested now expires)
  unfolding resolve_gate_release
  resolve-authorized_iff expires readable h = (
    λ yes_it_is. (ground arith, resolve_at_sound bind d a m requested now expires (ground arith)),
    λ (p, c). ground (arith, resolve_at_complete bind d a m requested now expires c),
  )

  abbrev Within : GateRelease → Type 0
  Within g =
      (rank g.released_level ≤ rank requested)
      × (rank g.released_level ≤ rank m.max_level)
      × (g.authorized ≡ false → g.released_level ≡ observe)

  grant-Within : Within (grant bind d a m requested)
  unfolding grant
  grant-Within = ground arith

  observe-Within : (g : GateRelease) → g.released_level ≡ observe → Within g
  observe-Within g h = (rw h (omega arith), rw h (omega arith), λ _. h)

  resolve-cases :
      resolve_gate_release bind d a m requested now ≡ ok r
      → (r ≡ grant bind d a m requested) ⊎ (r.released_level ≡ observe)
  unfolding resolve_gate_release
  resolve-cases h = ground arith

  -- A release never passes the level asked for nor the mandate's ceiling, and one that is not
  -- authorized only observes.
  pub resolve-ceiling :
      resolve_gate_release bind d a m requested now ≡ ok r
      → (rank r.released_level ≤ rank requested)
        × (rank r.released_level ≤ rank m.max_level)
        × (r.authorized ≡ false → r.released_level ≡ observe)
  resolve-ceiling h = elim (resolve-cases h) [
    | inl granted ↦ subst Within (sym granted) grant-Within
    | inr low ↦ observe-Within r low
  ]
