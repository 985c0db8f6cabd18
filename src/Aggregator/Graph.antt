-- ===== src/Aggregator/Graph.antt =====
-- aggregator.py: Claim and EvidenceGraph. Ids and asserted values are hashables that are only
-- compared and ordered by `repr`; they are numbers here, in the order of their `repr`.
use minority_prophet_gate.Base.{
  ℕ, zero, suc, true, false, Option, none, some, List, [], ◌∷◌, ◌==◌, if◌then◌else◌, Dict, lookup,
  insert, has_key, keys, values, elem, length, Outcome, ok, raised, ◌>>=◌, ◌>>◌,
}

pub record Claim : Type 0 where
  pub id : ℕ
  pub assertion : ℕ
  pub parent : Option ℕ
  pub weight : ℕ

pub data GraphError : Type 0 where
  empty_graph out_of_fuel : GraphError
  unknown_parent lineage_cycle missing_claim : ℕ → GraphError

abbrev pub Claims : Type 0
Claims = Dict Claim

-- `{c.id: c for c in claims}`
unfoldable pub index_from : Claims → List Claim → Claims
index_from g [] = g
index_from g (c ∷ cs) = index_from (insert c.id c g) cs

-- The loop that refuses a parent which is no claim.
unfoldable pub check_parents : Claims → List Claim → Outcome GraphError (Unit {0})
check_parents g [] = ok tt
check_parents g (c ∷ cs) = elim c.parent [
  | none ↦ check_parents g cs
  | some p ↦ if has_key p g then check_parents g cs else raised (unknown_parent c.id)
]

-- `_root`, with the memo of roots that the graph keeps and the stack of the claims on the way.
unfoldable pub root : ℕ → Claims → Dict ℕ → ℕ → List ℕ → Outcome GraphError (ℕ × Dict ℕ)
root zero g memo cid stack = raised out_of_fuel
root (suc fuel) g memo cid stack = elim (lookup cid memo) [
  | some r ↦ ok (r, memo)
  | none ↦ elim (elem cid stack) [
    | true ↦ raised (lineage_cycle cid)
    | false ↦ elim (lookup cid g) [
      | none ↦ raised (missing_claim cid)
      | some c ↦ elim c.parent [
        | none ↦ ok (cid, insert cid cid memo)
        | some p ↦
            root fuel g memo p (cid ∷ stack) >>= λ found. ok (found.0, insert cid found.0 found.1)
      ]
    ]
  ]
]

-- The loop of `__init__` over the claim ids. A way up meets each claim once, and one more.
unfoldable pub resolve_all : Claims → List ℕ → Dict ℕ → Outcome GraphError (Dict ℕ)
unfolding root
resolve_all g [] memo = ok memo
resolve_all g (cid ∷ cids) memo =
    root (suc (length g)) g memo cid [] >>= λ found. resolve_all g cids found.1

pub record EvidenceGraph : Type 0 where
  pub claims : Claims
  pub roots : Dict ℕ

unfoldable pub resolve : Claims → Outcome GraphError EvidenceGraph
unfolding check_parents resolve_all
resolve g = do
  check_parents g (values g)
  roots ← resolve_all g (keys g) []
  ok (record { claims = g; roots = roots })

-- `EvidenceGraph(claims)`
unfoldable pub build : List Claim → Outcome GraphError EvidenceGraph
unfolding index_from resolve
build cs = let g = index_from [] cs in if length g == 0 then raised empty_graph else resolve g

-- `self._roots[cid]`; every claim of a graph that was built has a root.
abbrev pub root_of : EvidenceGraph → ℕ → ℕ
root_of g cid = elim (lookup cid g.roots) [ some r ↦ r | none ↦ cid ]

-- `self.claims[r].weight`
abbrev pub weight_of : EvidenceGraph → ℕ → ℕ
weight_of g r = elim (lookup r g.claims) [ some c ↦ c.weight | none ↦ 0 ]

-- `value_consistency_violations`: the edges that join different values, counted.
unfoldable pub violations : Claims → List Claim → ℕ
violations g [] = 0
violations g (c ∷ cs) =
    let rest = violations g cs in
    elim c.parent [
      | none ↦ rest
      | some p ↦ elim (lookup p g) [
        | none ↦ rest
        | some q ↦ if q.assertion == c.assertion then rest else suc rest
      ]
    ]
