-- ===== src/Aggregator/Attack.antt =====
-- aggregator.py: `_convert`, `_conversion_attack` and the whole of `aggregate`.
use minority_prophet_gate.Base.{
  ℕ, ◌+◌, Bool, true, false, not, ◌&&◌, ◌||◌, Option, none, some, List, [], ◌∷◌, ◌==◌, leb, ltb,
  if◌then◌else◌, Dict, values, elem, same, is_none, Outcome, ok, ◌>>=◌,
}
use minority_prophet_gate.GateTypes.{one}
use minority_prophet_gate.Aggregator.Graph.{
  Claim, GraphError, EvidenceGraph, build, root_of, weight_of,
}
use minority_prophet_gate.Aggregator.Tally.{Verdict, roots_at, top_of, verdict, tally}

-- The claims with the subtrees of the given roots moved to a value.
unfoldable pub convert : (ℕ → ℕ) → List ℕ → ℕ → List Claim → List Claim
convert root_at ids to_value [] = []
convert root_at ids to_value (c ∷ cs) =
    (if elem (root_at c.id) ids then record c { assertion = to_value } else c)
    ∷ convert root_at ids to_value cs

-- The first ranked value other than the winner, or `_OTHER_SIDE`, which is none of the values.
unfoldable pub rival_of : ℕ → Dict ℕ → ℕ → ℕ
rival_of top [] other_side = other_side
rival_of top (e ∷ es) other_side = if e.0 == top then rival_of top es other_side else e.0

-- A number above every value: the sum of them all, and one.
unfoldable pub fresh_value : Dict ℕ → ℕ
fresh_value [] = 1
fresh_value (e ∷ es) = e.0 + fresh_value es

-- The order of attack: the heaviest roots first, then by `repr`.
unfoldable pub attack_insert : (ℕ → ℕ) → ℕ → List ℕ → List ℕ
attack_insert weight_at r [] = r ∷ []
attack_insert weight_at r (q ∷ qs) =
    if ltb (weight_at q) (weight_at r) || (weight_at q == weight_at r && leb r q)
    then r ∷ q ∷ qs
    else q ∷ attack_insert weight_at r qs

unfoldable pub attack_order : (ℕ → ℕ) → List ℕ → List ℕ
unfolding attack_insert
attack_order weight_at [] = []
attack_order weight_at (r ∷ rs) = attack_insert weight_at r (attack_order weight_at rs)

pub record AttackPrice : Type 0 where
  pub conversions_to_reverse : Option ℕ
  pub conversions_to_abstention : Option ℕ

-- The loop over the winner's roots: `k` have been converted, `abstention` is the price found so far.
-- It stops at the first reversal.
module _ (retally : List ℕ → Outcome GraphError Verdict) (top : ℕ) where
  unfoldable pub attack_loop : List ℕ → ℕ → List ℕ → Option ℕ → Outcome GraphError AttackPrice
  attack_loop [] k converted abstention =
      ok (record { conversions_to_reverse = none; conversions_to_abstention = abstention })
  attack_loop (r ∷ rs) k converted abstention = retally (r ∷ converted) >>= λ v.
      let reached = if is_none v.decision && is_none abstention then some (k + 1) else abstention in
      elim (not (is_none v.decision) && not (same v.decision (some top))) [
        | true ↦
            ok (record {
              conversions_to_reverse = some (k + 1);
              conversions_to_abstention = reached;
            })
        | false ↦ attack_loop rs (k + 1) (r ∷ converted) reached
      ]

unfoldable pub conversion_attack :
    ℕ → Bool → EvidenceGraph → Verdict → Outcome GraphError AttackPrice
unfolding convert rival_of fresh_value attack_order attack_loop
conversion_attack abstain use_weights g v =
    let top = (top_of v.ranked_margins).0 in
    let rival = rival_of top v.ranked_margins (fresh_value v.root_mass) in
    let price_of = λ (r : ℕ). if use_weights then weight_of g r else one in
    attack_loop (λ ids. tally abstain use_weights (convert (root_of g) ids rival (values g.claims)))
      top (attack_order price_of (roots_at top v.roots)) 0 []
      (if is_none v.decision then some 0 else none)

pub record Aggregate : Type 0 where
  pub verdict : Verdict
  pub price : AttackPrice

-- `aggregate(claims, abstain_margin=..., use_weights=...)`
unfoldable pub aggregate : ℕ → Bool → List Claim → Outcome GraphError Aggregate
unfolding build verdict conversion_attack
aggregate abstain use_weights cs = build cs >>= λ g.
    let v = verdict abstain use_weights g in
    conversion_attack abstain use_weights g v >>= λ p. ok (record { verdict = v; price = p })

-- `abstention_reachable_by_conversion`
abbrev pub abstention_reachable : AttackPrice → Bool
abstention_reachable p = not (is_none p.conversions_to_abstention)
