-- ===== src/Aggregator/Winner.antt =====
-- What a verdict decides (minority_prophet/aggregator.py, aggregate): the value whose roots weigh the
-- most, or none.
use minority_prophet_gate.Base.{
  ℕ, ◌+◌, ◌*◌, ◌-◌, ◌≡◌, ◌≢◌, ◌≤◌, ◌<◌, ◌⊎◌, refl, subst, inl, inr, Bool, ◌||◌, Option, none, some,
  List, [], ◌∷◌, ◌==◌, leb, arith, All, Dict, Outcome, ok, raised, Outcome-cases, Bool-cases,
}
use minority_prophet_gate.GateTypes.{one}
use minority_prophet_gate.Aggregator.Graph.{Claim, GraphError, build}
use minority_prophet_gate.Aggregator.Tally.{
  ranks_before, rank_insert, ranking, total_mass, top_of, runner_up, standing, Verdict, verdict,
  tally,
}

-- The masses hold a value with its mass.
abbrev pub Has : ℕ × ℕ → Dict ℕ → Type 0
Has e [] = ⊥
Has e (f ∷ fs) = (f ≡ e) ⊎ Has e fs

-- A value weighs as much as every other and a margin.
abbrev pub Leads : ℕ → ℕ → Dict ℕ → Type 0
Leads v margin m = (w : ℕ) × Has (v, w) m × All (λ e. e.0 ≢ v → e.1 + margin ≤ w) m

rank_insert-All :
    (P : ℕ × ℕ → Type 0) (e : ℕ × ℕ) (fs : Dict ℕ) → All P (rank_insert e fs) → P e × All P fs
unfolding rank_insert
rank_insert-All P e [] = λ h. h
rank_insert-All P e (f ∷ fs) = elim (Bool-cases (ranks_before e f)) [
  | inl before ↦ rw (before, rank_insert) (λ h. h)
  | inr after ↦
      rw (after, rank_insert) (λ (p, ps). let (q, qs) = rank_insert-All P e fs ps in (q, (p, qs)))
]

All-rank_insert :
    (P : ℕ × ℕ → Type 0) (e : ℕ × ℕ) (fs : Dict ℕ) → P e → All P fs → All P (rank_insert e fs)
unfolding rank_insert
All-rank_insert P e [] p ps = (p, tt)
All-rank_insert P e (f ∷ fs) p (q, ps) = elim (Bool-cases (ranks_before e f)) [
  | inl before ↦ rw (before, rank_insert) (p, (q, ps))
  | inr after ↦ rw (after, rank_insert) (q, All-rank_insert P e fs p ps)
]

ranking-All : (P : ℕ × ℕ → Type 0) (m : Dict ℕ) → All P (ranking m) → All P m
unfolding ranking
ranking-All P [] h = tt
ranking-All P (e ∷ m) h = let (p, ps) = rank_insert-All P e (ranking m) h in (p, ranking-All P m ps)

rank_insert-Has : (x e : ℕ × ℕ) (fs : Dict ℕ) → Has x (rank_insert e fs) → (e ≡ x) ⊎ Has x fs
unfolding rank_insert
rank_insert-Has x e [] = λ h. h
rank_insert-Has x e (f ∷ fs) = elim (Bool-cases (ranks_before e f)) [
  | inl before ↦ rw (before, rank_insert) (λ h. h)
  | inr after ↦
      rw (after, rank_insert)
        (λ h. elim h [
          | inl here ↦ inr (inl here)
          | inr there ↦ elim (rank_insert-Has x e fs there) [
            | inl new ↦ inl new
            | inr old ↦ inr (inr old)
          ]
        ])
]

ranking-Has : (x : ℕ × ℕ) (m : Dict ℕ) → Has x (ranking m) → Has x m
unfolding ranking
ranking-Has x [] h = h
ranking-Has x (e ∷ m) h = elim (rank_insert-Has x e (ranking m) h) [
  | inl new ↦ inl new
  | inr old ↦ inr (ranking-Has x m old)
]

-- Heavier values come first.
abbrev pub Descending : Dict ℕ → Type 0
Descending [] = Unit
Descending (e ∷ es) = All (λ f. f.1 ≤ e.1) es × Descending es

All-map : (P Q : ℕ × ℕ → Type 0) (m : Dict ℕ) → ((e : ℕ × ℕ) → P e → Q e) → All P m → All Q m
All-map P Q [] f h = tt
All-map P Q (e ∷ m) f (p, ps) = (f e p, All-map P Q m f ps)

rank_insert-Descending : (e : ℕ × ℕ) (fs : Dict ℕ) → Descending fs → Descending (rank_insert e fs)
unfolding rank_insert
rank_insert-Descending e [] d = (tt, tt)
rank_insert-Descending e (f ∷ fs) (all, d) = elim (Bool-cases (ranks_before e f)) [
  | inl before ↦
      let below : f.1 ≤ e.1 = ground arith in
      rw (before, rank_insert)
        ((below, All-map (λ g. g.1 ≤ f.1) (λ g. g.1 ≤ e.1) fs (λ g h. omega arith) all), (all, d))
  | inr after ↦
      let below : e.1 ≤ f.1 = ground arith in
      rw (after, rank_insert)
        (All-rank_insert (λ g. g.1 ≤ f.1) e fs below all, rank_insert-Descending e fs d)
]

ranking-Descending : (m : Dict ℕ) → Descending (ranking m)
unfolding ranking
ranking-Descending [] = tt
ranking-Descending (e ∷ m) = rank_insert-Descending e (ranking m) (ranking-Descending m)

-- All but the first weigh no more than the second.
tail-below : (e : ℕ × ℕ) (es : Dict ℕ) → Descending es → All (λ f. f.1 ≤ runner_up (e ∷ es)) es
tail-below e [] d = tt
tail-below e (f ∷ fs) (all, d) = (omega arith, all)

runner_up-below : (e : ℕ × ℕ) (es : Dict ℕ) → Descending (e ∷ es) → runner_up (e ∷ es) ≤ e.1
runner_up-below e [] d = omega arith
runner_up-below e (f ∷ fs) ((below, _), d) = below

top-Leads :
    (r : Dict ℕ)
    → Descending r
    → 0 < (top_of r).1
    → Leads (top_of r).0 ((top_of r).1 - runner_up r) r
top-Leads [] d positive = absurd (omega arith)
top-Leads (e ∷ es) d positive =
    let low = runner_up-below e es d in
    (
      e.1,
      inl refl,
      (
        (λ other. absurd (other refl)),
        All-map (λ f. f.1 ≤ runner_up (e ∷ es))
            (λ f. f.0 ≢ e.0 → f.1 + (e.1 - runner_up (e ∷ es)) ≤ e.1) es (λ f h other. omega arith)
            (tail-below e es d.1),
      ),
    )

ranking-Leads :
    (m : Dict ℕ)
    → let r = ranking m in 0 < (top_of r).1 → Leads (top_of r).0 ((top_of r).1 - runner_up r) m
ranking-Leads m positive =
    let r = ranking m in
    let (w, has, all) = top-Leads r (ranking-Descending m) positive in
    (
      w,
      ranking-Has ((top_of r).0, w) m has,
      ranking-All (λ e. e.0 ≢ (top_of r).0 → e.1 + ((top_of r).1 - runner_up r) ≤ w) m all,
    )

-- What a standing says of the masses it was made from.
abbrev pub Decides : ℕ → ℕ → Dict ℕ → Option ℕ → Type 0
Decides abstain margin m none = (total_mass m ≡ 0) ⊎ (margin * one ≤ abstain * total_mass m)
Decides abstain margin m (some v) = Leads v margin m × (abstain * total_mass m < margin * one)

standing-Decides :
    (abstain : ℕ) (m : Dict ℕ)
    → let st = standing abstain (ranking m) (total_mass m) in
      Decides abstain st.margin m st.decision
unfolding standing
standing-Decides abstain m =
    let top = top_of (ranking m) in
    let margin = top.1 - runner_up (ranking m) in
    elim (Bool-cases (total_mass m == 0 || leb (margin * one) (abstain * total_mass m))) [
      | inl low ↦ rw (low, standing) (ground arith)
      | inr high ↦ rw (high, standing) (ranking-Leads m (ground arith), ground arith)
    ]

-- A tally that returned decides rightly.
abbrev Sound : ℕ → Outcome GraphError Verdict → Type 0
Sound abstain (ok v) = Decides abstain v.flip_budget v.root_mass v.decision
Sound abstain (raised _) = Unit

-- A tally decides for a value of its claims only if the roots behind it weigh as much as those of every
-- other value and the flip budget on top, which exceeds the abstention margin's share of all weight;
-- it decides nothing only if no root weighs anything or the flip budget is within that share.
pub tally-Decides :
    (abstain : ℕ) (use_weights : Bool) (cs : List Claim) (v : Verdict)
    → tally abstain use_weights cs ≡ ok v
    → Decides abstain v.flip_budget v.root_mass v.decision
unfolding tally verdict
tally-Decides abstain use_weights cs v = elim (Outcome-cases (build cs)) [
  | inr (e, raises) ↦ rw (raises, tally) (λ h. cc)
  | inl (g, built) ↦
      rw (built, tally)
        (λ h.
          subst (Sound abstain) h
            (standing-Decides abstain (verdict abstain use_weights g).root_mass))
]
