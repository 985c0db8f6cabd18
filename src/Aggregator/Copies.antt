-- ===== src/Aggregator/Copies.antt =====
-- Copies count for nothing (minority_prophet/aggregator.py): a claim derived from another one, which
-- asserts the same, leaves the verdict as it was.
use minority_prophet_gate.Base.{
  ℕ, ◌≡◌, refl, sym, subst, ap, ◌∙◌, inl, inr, Bool, true, false, none, some, List, [], ◌∷◌, ◌++◌,
  ◌==◌, arith, All, elem, length, length-append, Dict, lookup, insert, has_key, keys, values,
  lookup-insert, insert_fresh, Outcome, ok, raised, Option-cases, Outcome-cases,
}
use minority_prophet_gate.Aggregator.Graph.{
  Claim, Claims, GraphError, EvidenceGraph, index_from, check_parents, resolve_all, resolve, build,
  root_of, weight_of,
}
use minority_prophet_gate.Aggregator.Tally.{
  Sides, roots_at, side_roots, ranking, total_mass, standing, Verdict, verdict, tally,
}
use minority_prophet_gate.Aggregator.Roots.{IsMemo, FindsAll, resolve_all-FindsAll, All-keys}
use minority_prophet_gate.Aggregator.Extension.{
  index_from-append, values-append, extended, lookup-extended_other, resolve-extended,
}
use minority_prophet_gate.Aggregator.Sides.{
  AllRoots, side_roots-append, side_roots-cong, side_roots-has, insert-known, side_roots-AllRoots,
  masses-cong,
}
use minority_prophet_gate.Aggregator.Filed.{
  Ids, index_from-Ids, All-values, lookup-Ids, keys-values, fresh-keys, All-imp, RootOf-claim,
  RootOf-known,
}

-- A verdict that answers the same.
abbrev pub Same : Verdict → Verdict → Type 0
Same v w =
    (v.decision ≡ w.decision)
    × (v.confidence ≡ w.confidence)
    × (v.flip_budget ≡ w.flip_budget)
    × (v.roots ≡ w.roots)
    × (v.root_mass ≡ w.root_mass)

module _ (g : Claims) (memo : Dict ℕ) (copy : Claim) (p r : ℕ) (q : Claim) where
  abbrev before : EvidenceGraph
  before = record { claims = g; roots = memo }

  abbrev after : EvidenceGraph
  after = record { claims = extended g copy; roots = insert copy.id r memo }

  root_of-after : (k : ℕ) → (k == copy.id) ≡ false → root_of after k ≡ root_of before k
  root_of-after k h = ground (arith, lookup-insert copy.id k r memo)

  root_of-copy : root_of after copy.id ≡ r
  root_of-copy = ground (arith, lookup-insert copy.id copy.id r memo)

  weight_of-after : (k : ℕ) → (k == copy.id) ≡ false → weight_of after k ≡ weight_of before k
  weight_of-after k h = ground (arith, lookup-extended_other g copy k h)

  module _ (fresh : lookup copy.id g ≡ none) (ids : Ids g) (sound : IsMemo g memo)
      (covered : All (λ k. has_key k memo ≡ true) (keys g)) (held : lookup p memo ≡ some r)
      (parent : lookup p g ≡ some q) (agrees : copy.assertion ≡ q.assertion) where
    abbrev sides_before : Sides
    sides_before = side_roots (root_of before) (values g) []

    others : All (λ c. (c.id == copy.id) ≡ false) (values g)
    others = keys-values (λ k. (k == copy.id) ≡ false) g ids (fresh-keys g copy.id fresh)

    parent_counts : elem r (roots_at copy.assertion sides_before) ≡ true
    parent_counts =
        let counts =
          All-values (λ c. elem (root_of before c.id) (roots_at c.assertion sides_before) ≡ true) g
            p q (side_roots-has (root_of before) (values g) []) parent in
        let same_id : q.id ≡ p = lookup-Ids g p q ids parent in
        let at : root_of before q.id ≡ r = ground arith in rw (sym at, agrees) counts

    sides-after : side_roots (root_of after) (values (extended g copy)) [] ≡ sides_before
    sides-after =
        let unchanged = side_roots-cong (root_of after) (root_of before) (values g) [] (
          All-imp (λ c. (c.id == copy.id) ≡ false) (λ c. root_of after c.id ≡ root_of before c.id)
            (values g) (λ c. root_of-after c.id) others) in
        rw
          (
            values-append g copy.id copy,
            side_roots-append (root_of after) (values g) copy [],
            unchanged,
            root_of-copy,
          )
          (insert-known r copy.assertion sides_before parent_counts)

    weights : AllRoots (λ k. weight_of after k ≡ weight_of before k) sides_before
    weights =
        side_roots-AllRoots (λ k. weight_of after k ≡ weight_of before k) (root_of before)
          (values g) []
          (keys-values
            (λ k. weight_of after (root_of before k) ≡ weight_of before (root_of before k)) g ids
            (All-imp (λ k. has_key k memo ≡ true)
              (λ k. weight_of after (root_of before k) ≡ weight_of before (root_of before k))
              (keys g) keeps_weight covered))
          tt
      where
        keeps_weight :
            (k : ℕ)
            → has_key k memo ≡ true
            → weight_of after (root_of before k) ≡ weight_of before (root_of before k)
        keeps_weight k has = elim (Option-cases (lookup k memo)) [
          | inl missing ↦ absurd (ground arith)
          | inr (top, found) ↦
              let is_claim = RootOf-claim g k top (sound k top found) in
              let other : (top == copy.id) ≡ false = ground arith in
              let at : root_of before k ≡ top = ground arith in
              subst (λ x. weight_of after x ≡ weight_of before x) (sym at)
                (weight_of-after top other)
        ]

    module _ (abstain : ℕ) (use_weights : Bool) where
      masses-after :
          (verdict abstain use_weights after).root_mass
          ≡ (verdict abstain use_weights before).root_mass
      unfolding verdict
      masses-after =
          rw sides-after
            (masses-cong use_weights (weight_of after) (weight_of before) sides_before weights)

      verdict-Same : Same (verdict abstain use_weights after) (verdict abstain use_weights before)
      unfolding verdict
      verdict-Same =
          let standing_on = λ (m : Dict ℕ). standing abstain (ranking m) (total_mass m) in
          (
            ap (λ m. (standing_on m).decision) masses-after,
            ap (λ m. (standing_on m).confidence) masses-after,
            ap (λ m. (standing_on m).margin) masses-after,
            sides-after,
            masses-after,
          )

unfiled :
    (g : Claims) (memo : Dict ℕ) (k : ℕ) → IsMemo g memo → lookup k g ≡ none → lookup k memo ≡ none
unfiled g memo k sound fresh = elim (Option-cases (lookup k memo)) [
  | inl missing ↦ missing
  | inr (r, held) ↦ let known = RootOf-known g k r (sound k r held) in absurd (ground arith)
]

tally-verdict :
    (abstain : ℕ) (use_weights : Bool) (cs : List Claim) (gr : EvidenceGraph) (v : Verdict)
    → build cs ≡ ok gr
    → tally abstain use_weights cs ≡ ok v
    → verdict abstain use_weights gr ≡ v
unfolding tally
tally-verdict abstain use_weights cs gr v built = rw (built, tally) (λ h. ground arith)

-- What a tally of more claims answers, next to the tally of fewer.
abbrev pub Agrees : Outcome GraphError Verdict → Verdict → Type 0
Agrees (ok w) v = Same w v
Agrees (raised _) v = ⊥

-- What a graph that was built was built from.
abbrev pub Parts : Claims → EvidenceGraph → Type 0
Parts g gr =
    (check_parents g (values g) ≡ ok tt)
    × (resolve_all g (keys g) [] ≡ ok gr.roots)
    × (gr ≡ record { claims = g; roots = gr.roots })

resolve-Parts : (g : Claims) (gr : EvidenceGraph) → resolve g ≡ ok gr → Parts g gr
unfolding resolve
resolve-Parts g gr h = elim (Outcome-cases (check_parents g (values g))) [
  | inr (e, raises) ↦ absurd (ground arith)
  | inl (_, checked) ↦ elim (Outcome-cases (resolve_all g (keys g) [])) [
    | inr (e, raises) ↦ absurd (ground arith)
    | inl (memo, found) ↦
        let q : record { claims = g; roots = memo } ≡ gr = ground arith in
        subst (Parts g) q (checked, found, refl)
  ]
]

pub build-Parts :
    (cs : List Claim) (gr : EvidenceGraph) → build cs ≡ ok gr → Parts (index_from [] cs) gr
unfolding build
build-Parts cs gr h = resolve-Parts (index_from [] cs) gr (ground arith)

build-extended :
    (cs : List Claim) (copy : Claim) (gr : EvidenceGraph)
    → lookup copy.id (index_from [] cs) ≡ none
    → resolve (extended (index_from [] cs) copy) ≡ ok gr
    → build (cs ++ copy ∷ []) ≡ ok gr
unfolding build
build-extended cs copy gr fresh resolved =
    let g' = index_from-append [] cs copy ∙ insert_fresh copy.id copy (index_from [] cs) fresh in
    let longer = length-append (index_from [] cs) ((copy.id, copy) ∷ []) in
    let some_claim : (length (index_from [] cs ++ (copy.id, copy) ∷ []) == 0) ≡ false =
      ground arith in
    rw (g', some_claim, build) resolved

-- If a tally returned, and a claim under a new id is added at the end that is derived from one of
-- the claims and asserts the same, the tally still returns, with the same decision, confidence,
-- flip budget, roots on each side and masses.
pub tally-copy :
    (abstain : ℕ) (use_weights : Bool) (cs : List Claim) (v : Verdict) (copy : Claim) (p : ℕ)
    (q : Claim)
    → tally abstain use_weights cs ≡ ok v
    → lookup copy.id (index_from [] cs) ≡ none
    → copy.parent ≡ some p
    → lookup p (index_from [] cs) ≡ some q
    → copy.assertion ≡ q.assertion
    → Agrees (tally abstain use_weights (cs ++ copy ∷ [])) v
unfolding tally
tally-copy abstain use_weights cs v copy p q h fresh derived parent agrees =
    elim (Outcome-cases (build cs)) [
      | inr (e, raises) ↦ absurd (ground arith)
      | inl (gr, built) ↦
          let g = index_from [] cs in
          let (checked, found, whole) = build-Parts cs gr built in
          let (sound, _, covered) =
            subst (FindsAll g (keys g) []) found
              (resolve_all-FindsAll g (keys g) [] (λ k r h. absurd cc)) in
          elim (Option-cases (lookup p gr.roots)) [
            | inl missing ↦
                let has = All-keys (λ k. has_key k gr.roots ≡ true) g p q covered parent in
                absurd (ground arith)
            | inr (r, held) ↦
                let known : has_key p g ≡ true = ground arith in
                let now = build-extended cs copy (after g gr.roots copy p r q) fresh (
                  resolve-extended g copy p r gr.roots derived known fresh checked found
                    (unfiled g gr.roots copy.id sound fresh) held) in
                let same =
                  verdict-Same g gr.roots copy p r q fresh (index_from-Ids [] cs tt) sound covered
                    held parent agrees abstain use_weights in
                let v_is : verdict abstain use_weights (before g gr.roots copy p r q) ≡ v =
                  ap (verdict abstain use_weights) (sym whole)
                  ∙ tally-verdict abstain use_weights cs gr v built h in
                rw (now, tally)
                  (subst (Same (verdict abstain use_weights (after g gr.roots copy p r q))) v_is
                    same)
          ]
    ]
