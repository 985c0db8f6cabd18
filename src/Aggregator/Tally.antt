-- ===== src/Aggregator/Tally.antt =====
-- aggregator.py: `side_roots`, and `aggregate` up to the attack analysis. Masses are counts of
-- millionths of a root; `use_weights` chooses between the weights and one per root.
use minority_prophet_gate.Base.{
  ℕ, ◌+◌, ◌-◌, ◌*◌, Bool, false, not, ◌&&◌, ◌||◌, Option, none, some, List, [], ◌∷◌, ◌==◌, leb, ltb,
  if◌then◌else◌, Dict, lookup, insert, values, add_elem, length, Outcome, ok, ◌>>=◌,
}
use minority_prophet_gate.GateTypes.{one, Ratio}
use minority_prophet_gate.Aggregator.Graph.{
  Claim, GraphError, EvidenceGraph, build, root_of, weight_of, violations,
}

-- asserted value -> set of root ids
abbrev pub Sides : Type 0
Sides = Dict (List ℕ)

abbrev pub roots_at : ℕ → Sides → List ℕ
roots_at v s = elim (lookup v s) [ none ↦ [] | some rs ↦ rs ]

-- `sides.setdefault(c.assertion, set()).add(root)` for each claim
unfoldable pub side_roots : (ℕ → ℕ) → List Claim → Sides → Sides
side_roots root_at [] sides = sides
side_roots root_at (c ∷ cs) sides =
    side_roots root_at cs
      (insert c.assertion (add_elem (root_at c.id) (roots_at c.assertion sides)) sides)

-- The mass of one side: the weights of its roots, or one for each.
unfoldable pub side_mass : Bool → (ℕ → ℕ) → List ℕ → ℕ
side_mass use_weights weight_at [] = 0
side_mass use_weights weight_at (r ∷ rs) =
    (if use_weights then weight_at r else one) + side_mass use_weights weight_at rs

unfoldable pub masses : Bool → (ℕ → ℕ) → Sides → Dict ℕ
unfolding side_mass
masses use_weights weight_at [] = []
masses use_weights weight_at ((v, rs) ∷ sides) =
    (v, side_mass use_weights weight_at rs) ∷ masses use_weights weight_at sides

-- The key of the sort: heavier first, then by `repr`.
abbrev pub ranks_before : ℕ × ℕ → ℕ × ℕ → Bool
ranks_before (a, m) (b, n) = ltb n m || (m == n && leb a b)

unfoldable pub rank_insert : ℕ × ℕ → Dict ℕ → Dict ℕ
rank_insert e [] = e ∷ []
rank_insert e (f ∷ fs) = if ranks_before e f then e ∷ f ∷ fs else f ∷ rank_insert e fs

unfoldable pub ranking : Dict ℕ → Dict ℕ
unfolding rank_insert
ranking [] = []
ranking (e ∷ es) = rank_insert e (ranking es)

unfoldable pub total_mass : Dict ℕ → ℕ
total_mass [] = 0
total_mass (e ∷ es) = e.1 + total_mass es

abbrev pub top_of : Dict ℕ → ℕ × ℕ
top_of [] = (0, 0)
top_of (e ∷ _) = e

abbrev pub runner_up : Dict ℕ → ℕ
runner_up [] = 0
runner_up (_ ∷ []) = 0
runner_up (_ ∷ e ∷ _) = e.1

-- What the ranked masses decide: `abstain` is the abstention margin, in millionths.
pub record Standing : Type 0 where
  pub decision : Option ℕ
  pub confidence : Ratio
  pub margin : ℕ

unfoldable pub standing : ℕ → Dict ℕ → ℕ → Standing
standing abstain ranked total =
    let top = top_of ranked in
    let margin = top.1 - runner_up ranked in
    if total == 0 || leb (margin * one) (abstain * total)
    then record { decision = none; confidence = record { num = 1; den = 2 }; margin = margin }
    else record {
      decision = some top.0;
      confidence = record { num = top.1; den = total };
      margin = margin;
    }

-- Some root that counts has a weight other than 1.0.
unfoldable pub any_fraction : (ℕ → ℕ) → List ℕ → Bool
any_fraction weight_at [] = false
any_fraction weight_at (r ∷ rs) = not (weight_at r == one) || any_fraction weight_at rs

unfoldable pub any_fraction_side : (ℕ → ℕ) → Sides → Bool
unfolding any_fraction
any_fraction_side weight_at [] = false
any_fraction_side weight_at ((_, rs) ∷ sides) =
    any_fraction weight_at rs || any_fraction_side weight_at sides

unfoldable pub distinct : List ℕ → List ℕ
distinct [] = []
distinct (x ∷ xs) = add_elem x (distinct xs)

pub record Verdict : Type 0 where
  pub decision : Option ℕ
  pub confidence : Ratio
  pub roots : Sides
  pub margin : ℕ
  pub root_mass : Dict ℕ
  pub ranked_margins : Dict ℕ
  pub n_claims : ℕ
  pub n_roots : ℕ
  pub n_values : ℕ
  pub value_consistency_violations : ℕ
  pub immunity_applicable : Bool
  pub flip_budget : ℕ
  pub flip_budget_is_root_count : Bool

-- The verdict on a graph that was built.
unfoldable pub verdict : ℕ → Bool → EvidenceGraph → Verdict
unfolding side_roots masses ranking total_mass standing any_fraction_side distinct violations
verdict abstain use_weights g =
    let claims = values g.claims in
    let sides = side_roots (root_of g) claims [] in
    let mass = masses use_weights (weight_of g) sides in
    let ranked = ranking mass in
    let st = standing abstain ranked (total_mass mass) in
    let wrong = violations g.claims claims in
    record {
      decision = st.decision;
      confidence = st.confidence;
      roots = sides;
      margin = st.margin;
      root_mass = mass;
      ranked_margins = ranked;
      n_claims = length claims;
      n_roots = length (distinct (values g.roots));
      n_values = length mass;
      value_consistency_violations = wrong;
      immunity_applicable = wrong == 0;
      flip_budget = st.margin;
      flip_budget_is_root_count = not (use_weights && any_fraction_side (weight_of g) sides);
    }

-- `aggregate(..., _attack_analysis=False)`
unfoldable pub tally : ℕ → Bool → List Claim → Outcome GraphError Verdict
unfolding build verdict
tally abstain use_weights cs = build cs >>= λ g. ok (verdict abstain use_weights g)
