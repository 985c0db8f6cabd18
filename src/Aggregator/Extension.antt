-- ===== src/Aggregator/Extension.antt =====
-- A graph to which one claim is added under an id of its own (minority_prophet/aggregator.py,
-- EvidenceGraph): what was found in the smaller graph is found again.
use minority_prophet_gate.Base.{
  ℕ, zero, suc, ◌≡◌, ◌≤◌, refl, ap, ◌∙◌, inl, inr, true, false, none, some, List, [], ◌∷◌, ◌++◌,
  ◌==◌, arith, elem, length, length-append, Dict, lookup, insert, has_key, keys, values,
  lookup-append, ok, Option-cases, Outcome-cases, Bool-cases,
}
use minority_prophet_gate.Aggregator.Graph.{
  Claim, Claims, index_from, check_parents, root, resolve_all, resolve,
}

pub index_from-append :
    (g : Claims) (cs : List Claim) (c : Claim)
    → index_from g (cs ++ c ∷ []) ≡ insert c.id c (index_from g cs)
unfolding index_from
index_from-append g [] c = refl
index_from-append g (b ∷ cs) c = index_from-append (insert b.id b g) cs c

pub keys-append :
    {V : Type 0} (d : Dict V) (k : ℕ) (v : V) → keys (d ++ (k, v) ∷ []) ≡ keys d ++ k ∷ []
keys-append [] k v = refl
keys-append (e ∷ d) k v = ap (λ ks. e.0 ∷ ks) (keys-append d k v)

pub values-append :
    {V : Type 0} (d : Dict V) (k : ℕ) (v : V) → values (d ++ (k, v) ∷ []) ≡ values d ++ v ∷ []
values-append [] k v = refl
values-append (e ∷ d) k v = ap (λ vs. e.1 ∷ vs) (values-append d k v)

module _ (g : Claims) (extra : Claim) where
  abbrev pub extended : Claims
  extended = g ++ (extra.id, extra) ∷ []

  pub lookup-extended : (k : ℕ) (c : Claim) → lookup k g ≡ some c → lookup k extended ≡ some c
  lookup-extended k c h = ground (arith, lookup-append k g ((extra.id, extra) ∷ []))

  pub lookup-extended_other : (k : ℕ) → (k == extra.id) ≡ false → lookup k extended ≡ lookup k g
  lookup-extended_other k h = ground (arith, lookup-append k g ((extra.id, extra) ∷ []))

  pub lookup-extra : lookup extra.id g ≡ none → lookup extra.id extended ≡ some extra
  lookup-extra h = ground (arith, lookup-append extra.id g ((extra.id, extra) ∷ []))

  has_key-extended : (k : ℕ) → has_key k g ≡ true → has_key k extended ≡ true
  has_key-extended k h = ground (arith, lookup-append k g ((extra.id, extra) ∷ []))

  pub check_parents-extended :
      (p : ℕ) (cs : List Claim)
      → extra.parent ≡ some p
      → has_key p g ≡ true
      → check_parents g cs ≡ ok tt
      → check_parents extended (cs ++ extra ∷ []) ≡ ok tt
  unfolding check_parents
  check_parents-extended p [] e has h = ground (arith, has_key-extended p has)
  check_parents-extended p (c ∷ cs) e has h = elim (Option-cases c.parent) [
    | inl top ↦ ground (arith, check_parents-extended p cs e has)
    | inr (q, below) ↦ ground (arith, has_key-extended q, check_parents-extended p cs e has)
  ]

  -- A search that returned returns the same with more fuel, in the larger graph.
  pub root-extended :
      (fuel more : ℕ) (memo : Dict ℕ) (cid : ℕ) (stack : List ℕ) (found : ℕ × Dict ℕ)
      → fuel ≤ more
      → root fuel g memo cid stack ≡ ok found
      → root more extended memo cid stack ≡ ok found
  unfolding root
  root-extended zero more memo cid stack found le h = absurd cc
  root-extended (suc fuel) zero memo cid stack found le h = absurd (omega arith)
  root-extended (suc fuel) (suc more) memo cid stack found le h =
      elim (Option-cases (lookup cid memo)) [
        | inr (r, held) ↦ ground arith
        | inl new ↦ elim (Bool-cases (elem cid stack)) [
          | inl cycle ↦ ground arith
          | inr fresh ↦ elim (Option-cases (lookup cid g)) [
            | inl missing ↦ ground arith
            | inr (c, is_claim) ↦
                let is_claim' = lookup-extended cid c is_claim in
                elim (Option-cases c.parent) [
                  | inl top ↦ ground arith
                  | inr (p, below) ↦ elim (Outcome-cases (root fuel g memo p (cid ∷ stack))) [
                    | inr (e, raises) ↦ ground arith
                    | inl (up, returns) ↦
                        let q =
                          root-extended fuel more memo p (cid ∷ stack) up (omega arith) returns in
                        ground arith
                  ]
                ]
          ]
        ]
      ]

  pub resolve_all-extended :
      (cids : List ℕ) (memo memo' : Dict ℕ)
      → resolve_all g cids memo ≡ ok memo'
      → resolve_all extended (cids ++ extra.id ∷ []) memo
        ≡ resolve_all extended (extra.id ∷ []) memo'
  unfolding resolve_all
  resolve_all-extended [] memo memo' h = ground arith
  resolve_all-extended (cid ∷ cids) memo memo' h =
      elim (Outcome-cases (root (suc (length g)) g memo cid [])) [
        | inr (e, raises) ↦ ground arith
        | inl (found, returns) ↦
            let longer = length-append g ((extra.id, extra) ∷ []) in
            let q =
              root-extended (suc (length g)) (suc (length extended)) memo cid [] found (omega arith)
                returns in
            let rest = resolve_all-extended cids found.1 memo' (ground arith) in ground arith
      ]

  -- The added claim has the root of its parent.
  root-extra :
      (p r fuel : ℕ) (memo : Dict ℕ)
      → extra.parent ≡ some p
      → lookup extra.id g ≡ none
      → lookup extra.id memo ≡ none
      → lookup p memo ≡ some r
      → root (suc (suc fuel)) extended memo extra.id [] ≡ ok (r, insert extra.id r memo)
  unfolding root
  root-extra p r fuel memo e fresh new held = let q = lookup-extra fresh in ground arith

  pub resolve-extended :
      (p r : ℕ) (memo : Dict ℕ)
      → extra.parent ≡ some p
      → has_key p g ≡ true
      → lookup extra.id g ≡ none
      → check_parents g (values g) ≡ ok tt
      → resolve_all g (keys g) [] ≡ ok memo
      → lookup extra.id memo ≡ none
      → lookup p memo ≡ some r
      → resolve extended ≡ ok (record { claims = extended; roots = insert extra.id r memo })
  unfolding resolve resolve_all
  resolve-extended p r memo e has fresh checked resolved new held =
      let longer : length extended ≡ suc (length g) =
        ground (arith, length-append g ((extra.id, extra) ∷ [])) in
      let here = root-extra p r (length g) memo e fresh new held in
      let all = resolve_all-extended (keys g) [] memo resolved in
      let fine = check_parents-extended p (values g) e has checked in
      let one_more : resolve_all extended (extra.id ∷ []) memo ≡ ok (insert extra.id r memo) =
        rw (longer, resolve_all) (ground arith) in
      let ks = keys-append g extra.id extra in
      let vs = values-append g extra.id extra in rw (vs, ks, fine, all ∙ one_more, resolve)
