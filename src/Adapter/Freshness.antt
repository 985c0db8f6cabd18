-- ===== src/Adapter/Freshness.antt =====
-- adapter_acp.py: `_age_seconds`, `_freshness_policy` and `_root_weight`. Times are whole units of
-- one clock. `decay age half_life` is `pow(0.5, age / half_life)` in millionths, a parameter, since
-- there are no reals here.
use minority_prophet_gate.Base.{
  ℕ, ◌-◌, Bool, true, false, Option, none, some, List, [], ◌∷◌, ◌==◌, ltb, if◌then◌else◌, is_none,
  ◌&&◌, Outcome, ok, raised,
}
use Prim.Native.String.{String}
use minority_prophet_gate.Base.Text.{codes, same_codes}
use minority_prophet_gate.GateTypes.{one}
use minority_prophet_gate.Adapter.Envelope.{Attest, at_number, unreadable_text, at_instant}
use minority_prophet_gate.Adapter.Depth.{Depth, AdapterError, half_life_not_positive}

-- The key of `exclusions` that one step counts up; the dict is the list of these steps.
pub data Exclusion : Type 0 where
  expired_missing_observed_at expired side_contradiction lineage_cycle subject_mismatch : Exclusion
  unbound_root : Exclusion
  depth_discount : Option Depth → Exclusion

pub record Policy : Type 0 where
  pub ttl_s : Option ℕ
  pub half_life_s : Option ℕ

-- None, a policy, or policies by origin class.
pub data Freshness : Type 0 where
  no_freshness : Freshness
  direct : Policy → Freshness
  by_class : List (String × Policy) → Freshness

abbrev pub default_freshness : Freshness
default_freshness = by_class (
    ("probe", record { ttl_s = none; half_life_s = some 300 })
    ∷ ("start-event", record { ttl_s = some 86400; half_life_s = none })
    ∷ [])

unfoldable pub age_seconds : ℕ → Attest → Option ℕ
age_seconds now at = elim at.observed_at_age_s [
  | some age ↦ some age
  | none ↦ elim at.observed_at [
    | none ↦ none
    | some seen ↦ elim seen [
      | at_number t ↦ some (now - t)
      | unreadable_text _ ↦ none
      | at_instant t ↦ some (now - t)
    ]
  ]
]

abbrev pub starts_with : List ℕ → List ℕ → Bool
starts_with [] t = true
starts_with (c ∷ cs) [] = false
starts_with (c ∷ cs) (d ∷ ds) = if c == d then starts_with cs ds else false

-- `origin.split("-", 1)[0]`
abbrev pub before_dash : List ℕ → List ℕ
before_dash [] = []
before_dash (c ∷ cs) = if c == b'-' then [] else c ∷ before_dash cs

abbrev pub text_or_empty : Option String → List ℕ
text_or_empty none = []
text_or_empty (some s) = codes s

unfoldable pub origin_class : Attest → List ℕ
origin_class at = elim at.origin_class [
  | some c ↦ codes c
  | none ↦
      let origin = text_or_empty at.origin in
      if starts_with (codes "start-event-") origin
      then codes "start-event"
      else if starts_with (codes "probe-") origin
      then codes "probe"
      else before_dash origin
]

abbrev pub no_policy : Policy
no_policy = record { ttl_s = none; half_life_s = none }

abbrev pub policy_for : List ℕ → List (String × Policy) → Option Policy
policy_for c [] = none
policy_for c ((k, p) ∷ ps) = if same_codes c (codes k) then some p else policy_for c ps

unfoldable pub freshness_policy : Attest → Freshness → Policy
unfolding origin_class
freshness_policy at no_freshness = no_policy
freshness_policy at (direct p) = p
freshness_policy at (by_class ps) = elim (policy_for (origin_class at) ps) [
  | some p ↦ p
  | none ↦ elim (policy_for (codes "default") ps) [ some p ↦ p | none ↦ no_policy ]
]

-- The weight of a root and the steps that it excludes, under a policy.
module _ (decay : ℕ → ℕ → ℕ) where
  abbrev decayed : Policy → ℕ → Outcome AdapterError (ℕ × List Exclusion)
  decayed p age = elim p.half_life_s [
    | none ↦ ok (one, [])
    | some h ↦ if h == 0 then raised half_life_not_positive else ok (decay age h, [])
  ]

  unfoldable pub root_weight : ℕ → Attest → Freshness → Outcome AdapterError (ℕ × List Exclusion)
  unfolding age_seconds freshness_policy
  root_weight now at freshness =
      let p = freshness_policy at freshness in
      if is_none p.ttl_s && is_none p.half_life_s then ok (one, []) else elim (age_seconds now at) [
        | none ↦ ok (0, expired_missing_observed_at ∷ [])
        | some age ↦ elim p.ttl_s [
          | none ↦ decayed p age
          | some ttl ↦ if ltb ttl age then ok (0, expired ∷ []) else decayed p age
        ]
      ]
