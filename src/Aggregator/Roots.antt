-- ===== src/Aggregator/Roots.antt =====
-- The roots that a graph finds (minority_prophet/aggregator.py, EvidenceGraph): the recursion that
-- looks for them ends, and what it finds is where the chain of parents leads.
use minority_prophet_gate.Base.{
  ℕ, zero, suc, ◌+◌, ◌≡◌, ◌≢◌, ◌<◌, refl, sym, subst, inl, inr, true, none, some, List, [], ◌∷◌,
  ◌==◌, arith, All, elem, length, Dict, lookup, insert, has_key, keys, values, lookup-insert,
  Outcome, ok, raised, ◌>>=◌, Option-cases, Outcome-cases, Bool-cases,
}
use minority_prophet_gate.Base.Pigeonhole.{Distinct, AreKeys, length-Distinct}
use minority_prophet_gate.Aggregator.Graph.{
  Claim, Claims, GraphError, out_of_fuel, EvidenceGraph, index_from, check_parents, root,
  resolve_all, resolve, build, root_of,
}

-- The chain of parents from a claim ends at a claim without one.
pub data RootOf (g : Claims) : ℕ → ℕ → Type 0 where
  at_root : (cid : ℕ) (c : Claim) → lookup cid g ≡ some c → c.parent ≡ none → RootOf g cid cid
  above :
      (cid p r : ℕ) (c : Claim)
      → lookup cid g ≡ some c
      → c.parent ≡ some p
      → RootOf g p r
      → RootOf g cid r

-- What a memo holds is so.
abbrev pub IsMemo : Claims → Dict ℕ → Type 0
IsMemo g memo = (k r : ℕ) → lookup k memo ≡ some r → RootOf g k r

insert-IsMemo :
    (g : Claims) (memo : Dict ℕ) (cid r : ℕ)
    → RootOf g cid r
    → IsMemo g memo
    → IsMemo g (insert cid r memo)
insert-IsMemo g memo cid r found sound k q h = elim (Bool-cases (k == cid)) [
  | inr other ↦ sound k q (ground (arith, lookup-insert cid k r memo))
  | inl same_key ↦
      let e : k ≡ cid = ground arith in
      let f : r ≡ q = ground (arith, lookup-insert cid k r memo) in
      subst (λ x. RootOf g x q) (sym e) (subst (RootOf g cid) f found)
]

-- A memo keeps its keys.
abbrev pub Grows : Dict ℕ → Dict ℕ → Type 0
Grows memo memo' = (k : ℕ) → has_key k memo ≡ true → has_key k memo' ≡ true

insert-Grows : (memo : Dict ℕ) (cid r : ℕ) → Grows memo (insert cid r memo)
insert-Grows memo cid r k h = ground (arith, lookup-insert cid k r memo)

-- What a search that returned has found, and that it did not run out of fuel.
abbrev pub Finds : Claims → ℕ → Dict ℕ → Outcome GraphError (ℕ × Dict ℕ) → Type 0
Finds g cid memo (ok (r, memo')) =
    RootOf g cid r × IsMemo g memo' × Grows memo memo' × (has_key cid memo' ≡ true)
Finds g cid memo (raised out_of_fuel) = ⊥
Finds g cid memo (raised _) = Unit

module _ (g : Claims) where
  -- The claims on the way are distinct claims of the graph, and there is fuel for all others.
  abbrev Enough : ℕ → List ℕ → Type 0
  Enough fuel stack = Distinct stack × AreKeys stack g × (length g < fuel + length stack)

  climb-Finds :
      (memo : Dict ℕ) (cid p : ℕ) (c : Claim) (found : Outcome GraphError (ℕ × Dict ℕ))
      → lookup cid g ≡ some c
      → c.parent ≡ some p
      → Finds g p memo found
      → Finds g cid memo (found >>= λ f. ok (f.0, insert cid f.0 f.1))
  climb-Finds memo cid p c (ok (r, memo')) h e (found, sound, grows, has) =
      let here : RootOf g cid r = above cid p r c h e found in
      (
        here,
        insert-IsMemo g memo' cid r here sound,
        (λ k held. insert-Grows memo' cid r k (grows k held)),
        ground (arith, lookup-insert cid cid r memo'),
      )
  climb-Finds memo cid p c (raised out_of_fuel) h e found = found
  climb-Finds memo cid p c (raised (GraphError.unknown_parent k)) h e found = tt
  climb-Finds memo cid p c (raised (GraphError.lineage_cycle k)) h e found = tt
  climb-Finds memo cid p c (raised (GraphError.missing_claim k)) h e found = tt
  climb-Finds memo cid p c (raised GraphError.empty_graph) h e found = tt

  root-Finds :
      (fuel : ℕ) (memo : Dict ℕ) (cid : ℕ) (stack : List ℕ)
      → Enough fuel stack
      → IsMemo g memo
      → Finds g cid memo (root fuel g memo cid stack)
  unfolding root
  root-Finds zero memo cid stack (distinct, known, enough) sound =
      let few = length-Distinct stack g distinct known in absurd (omega arith)
  root-Finds (suc fuel) memo cid stack (distinct, known, enough) sound =
      elim (Option-cases (lookup cid memo)) [
        | inr (r, held) ↦ rw (held, root) (sound cid r held, sound, (λ k h. h), ground arith)
        | inl new ↦ elim (Bool-cases (elem cid stack)) [
          | inl cycle ↦ rw (new, cycle, root) tt
          | inr fresh ↦ elim (Option-cases (lookup cid g)) [
            | inl missing ↦ rw (new, fresh, missing, root) tt
            | inr (c, is_claim) ↦ elim (Option-cases c.parent) [
              | inl top ↦
                  rw (new, fresh, is_claim, top, root)
                    (let here = at_root cid c is_claim top in
                      (
                        here,
                        insert-IsMemo g memo cid cid here sound,
                        insert-Grows memo cid cid,
                        ground (arith, lookup-insert cid cid cid memo),
                      ))
              | inr (p, below) ↦
                  rw (new, fresh, is_claim, below, root)
                    (climb-Finds memo cid p c (root fuel g memo p (cid ∷ stack)) is_claim below (
                      root-Finds fuel memo p (cid ∷ stack)
                        ((fresh, distinct), (ground arith, known), omega arith) sound))
            ]
          ]
        ]
      ]

  -- What the search over several claims leaves.
  abbrev pub FindsAll : List ℕ → Dict ℕ → Outcome GraphError (Dict ℕ) → Type 0
  FindsAll cids memo (ok memo') =
      IsMemo g memo' × Grows memo memo' × All (λ k. has_key k memo' ≡ true) cids
  FindsAll cids memo (raised out_of_fuel) = ⊥
  FindsAll cids memo (raised _) = Unit

  next-FindsAll :
      (cid : ℕ) (cids : List ℕ) (memo memo' : Dict ℕ) (rest : Outcome GraphError (Dict ℕ))
      → Grows memo memo'
      → has_key cid memo' ≡ true
      → FindsAll cids memo' rest
      → FindsAll (cid ∷ cids) memo rest
  next-FindsAll cid cids memo memo' (ok m) grows has (sound, more, all) =
      (sound, (λ k h. more k (grows k h)), (more cid has, all))
  next-FindsAll cid cids memo memo' (raised out_of_fuel) grows has f = f
  next-FindsAll cid cids memo memo' (raised (GraphError.unknown_parent k)) grows has f = tt
  next-FindsAll cid cids memo memo' (raised (GraphError.lineage_cycle k)) grows has f = tt
  next-FindsAll cid cids memo memo' (raised (GraphError.missing_claim k)) grows has f = tt
  next-FindsAll cid cids memo memo' (raised GraphError.empty_graph) grows has f = tt

  stopped-FindsAll :
      (cid : ℕ) (cids : List ℕ) (memo : Dict ℕ) (e : GraphError)
      → Finds g cid memo (raised e)
      → FindsAll cids memo (raised e)
  stopped-FindsAll cid cids memo out_of_fuel f = f
  stopped-FindsAll cid cids memo (GraphError.unknown_parent k) f = tt
  stopped-FindsAll cid cids memo (GraphError.lineage_cycle k) f = tt
  stopped-FindsAll cid cids memo (GraphError.missing_claim k) f = tt
  stopped-FindsAll cid cids memo GraphError.empty_graph f = tt

  pub resolve_all-FindsAll :
      (cids : List ℕ) (memo : Dict ℕ) → IsMemo g memo → FindsAll cids memo (resolve_all g cids memo)
  unfolding resolve_all
  resolve_all-FindsAll [] memo sound = (sound, (λ k h. h), tt)
  resolve_all-FindsAll (cid ∷ cids) memo sound =
      let start = root-Finds (suc (length g)) memo cid [] (tt, tt, omega arith) sound in
      elim (Outcome-cases (root (suc (length g)) g memo cid [])) [
        | inr (e, raises) ↦
            rw (raises, resolve_all)
              (stopped-FindsAll cid (cid ∷ cids) memo e (subst (Finds g cid memo) raises start))
        | inl ((r, memo'), found) ↦
            let (_, sound', grows, has) = subst (Finds g cid memo) found start in
            rw (found, resolve_all)
              (next-FindsAll cid cids memo memo' (resolve_all g cids memo') grows has
                (resolve_all-FindsAll cids memo' sound'))
      ]

pub All-keys :
    (P : ℕ → Type 0) (g : Claims) (cid : ℕ) (c : Claim)
    → All P (keys g)
    → lookup cid g ≡ some c
    → P cid
All-keys P [] cid c all h = absurd cc
All-keys P (e ∷ g) cid c (p, all) h = elim (Bool-cases (cid == e.0)) [
  | inl here ↦ subst P (let q : e.0 ≡ cid = ground arith in q) p
  | inr other ↦ All-keys P g cid c all (ground arith)
]

-- A graph gives each of its claims the root that its chain of parents ends at.
abbrev pub IsRooted : EvidenceGraph → Type 0
IsRooted g =
    (cid : ℕ) (c : Claim) → lookup cid g.claims ≡ some c → RootOf g.claims cid (root_of g cid)

abbrev pub Builds : Outcome GraphError EvidenceGraph → Type 0
Builds (ok g) = IsRooted g
Builds (raised out_of_fuel) = ⊥
Builds (raised _) = Unit

memo-IsRooted :
    (g : Claims) (memo : Dict ℕ)
    → IsMemo g memo
    → All (λ k. has_key k memo ≡ true) (keys g)
    → IsRooted (record { claims = g; roots = memo })
memo-IsRooted g memo sound all cid c h = elim (Option-cases (lookup cid memo)) [
  | inr (r, held) ↦ rw (held, root_of) (sound cid r held)
  | inl missing ↦
      let has = All-keys (λ k. has_key k memo ≡ true) g cid c all h in absurd (ground arith)
]

check_parents-raises :
    (g : Claims) (cs : List Claim) (e : GraphError)
    → check_parents g cs ≡ raised e
    → e ≢ out_of_fuel
unfolding check_parents
check_parents-raises g [] e h out = cc
check_parents-raises g (c ∷ cs) e h out = ground (arith, check_parents-raises g cs e)

Builds-raised : (e : GraphError) → e ≢ out_of_fuel → Builds (raised e)
Builds-raised out_of_fuel ne = ne refl
Builds-raised (GraphError.unknown_parent k) ne = tt
Builds-raised (GraphError.lineage_cycle k) ne = tt
Builds-raised (GraphError.missing_claim k) ne = tt
Builds-raised GraphError.empty_graph ne = tt

resolve_all-Builds :
    (g : Claims) (found : Outcome GraphError (Dict ℕ))
    → FindsAll g (keys g) [] found
    → Builds (found >>= λ roots. ok (record { claims = g; roots = roots }))
resolve_all-Builds g (ok memo) (sound, _, all) = memo-IsRooted g memo sound all
resolve_all-Builds g (raised out_of_fuel) f = f
resolve_all-Builds g (raised (GraphError.unknown_parent k)) f = tt
resolve_all-Builds g (raised (GraphError.lineage_cycle k)) f = tt
resolve_all-Builds g (raised (GraphError.missing_claim k)) f = tt
resolve_all-Builds g (raised GraphError.empty_graph) f = tt

resolve-Builds : (g : Claims) → Builds (resolve g)
unfolding resolve
resolve-Builds g = elim (Outcome-cases (check_parents g (values g))) [
  | inr (e, raises) ↦
      rw (raises, resolve) (Builds-raised e (check_parents-raises g (values g) e raises))
  | inl (_, checked) ↦
      rw (checked, resolve)
        (resolve_all-Builds g (resolve_all g (keys g) [])
          (resolve_all-FindsAll g (keys g) [] (λ k r h. absurd cc)))
]

-- Building a graph never runs out of fuel, whatever the claims: it raises one of the errors of
-- the code, or it gives each claim the root at which the claim's chain of parents ends.
pub build-Builds : (cs : List Claim) → Builds (build cs)
unfolding build
build-Builds cs = elim (Bool-cases (length (index_from [] cs) == 0)) [
  | inl empty ↦ rw (empty, build) tt
  | inr some_claim ↦ rw (some_claim, build) (resolve-Builds (index_from [] cs))
]
