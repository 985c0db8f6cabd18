-- ===== src/Aggregator/Filed.antt =====
-- How the claims of a graph are filed, and the claims that a chain of parents touches
-- (minority_prophet/aggregator.py, EvidenceGraph).
use minority_prophet_gate.Base.{
  ℕ, ◌≡◌, refl, sym, subst, inl, inr, true, false, none, some, List, [], ◌∷◌, ◌==◌, arith, All,
  lookup, insert, has_key, keys, values, Bool-cases,
}
use minority_prophet_gate.Aggregator.Graph.{Claim, Claims, index_from}
use minority_prophet_gate.Aggregator.Roots.{RootOf, at_root, above}

-- Each claim is filed under its own id.
abbrev pub Ids : Claims → Type 0
Ids [] = Unit
Ids (e ∷ g) = (e.1.id ≡ e.0) × Ids g

pub insert-Ids : (c : Claim) (g : Claims) → Ids g → Ids (insert c.id c g)
insert-Ids c [] ids = (refl, tt)
insert-Ids c (e ∷ g) (here, rest) = elim (Bool-cases (c.id == e.0)) [
  | inl yes_it_is ↦ rw yes_it_is (refl, rest)
  | inr other ↦ rw other (here, insert-Ids c g rest)
]

pub index_from-Ids : (g : Claims) (cs : List Claim) → Ids g → Ids (index_from g cs)
unfolding index_from
index_from-Ids g [] ids = ids
index_from-Ids g (c ∷ cs) ids = index_from-Ids (insert c.id c g) cs (insert-Ids c g ids)

pub All-values :
    (P : Claim → Type 0) (g : Claims) (k : ℕ) (c : Claim)
    → All P (values g)
    → lookup k g ≡ some c
    → P c
All-values P [] k c all h = absurd cc
All-values P (e ∷ g) k c (p, all) h = elim (Bool-cases (k == e.0)) [
  | inl here ↦ subst P (let q : e.1 ≡ c = ground arith in q) p
  | inr other ↦ All-values P g k c all (ground arith)
]

pub lookup-Ids : (g : Claims) (k : ℕ) (c : Claim) → Ids g → lookup k g ≡ some c → c.id ≡ k
lookup-Ids [] k c ids h = absurd cc
lookup-Ids (e ∷ g) k c (here, rest) h = elim (Bool-cases (k == e.0)) [
  | inl yes_it_is ↦ ground arith
  | inr other ↦ lookup-Ids g k c rest (ground arith)
]

-- A property of the filed ids holds of each claim's id.
pub keys-values :
    (P : ℕ → Type 0) (g : Claims) → Ids g → All P (keys g) → All (λ c. P c.id) (values g)
keys-values P [] ids all = tt
keys-values P (e ∷ g) (here, rest) (p, all) = (subst P (sym here) p, keys-values P g rest all)

pub fresh-keys : (g : Claims) (j : ℕ) → lookup j g ≡ none → All (λ k. (k == j) ≡ false) (keys g)
fresh-keys [] j h = tt
fresh-keys (e ∷ g) j h = (ground arith, fresh-keys g j (ground arith))

pub All-imp :
    {A : Type 0} (P Q : A → Type 0) (xs : List A) → ((x : A) → P x → Q x) → All P xs → All Q xs
All-imp P Q [] f all = tt
All-imp P Q (x ∷ xs) f (p, all) = (f x p, All-imp P Q xs f all)

pub RootOf-claim : (g : Claims) (k r : ℕ) → RootOf g k r → has_key r g ≡ true
RootOf-claim g k r (at_root cid c h e) = ground arith
RootOf-claim g k r (above cid p q c h e up) = RootOf-claim g p q up

pub RootOf-known : (g : Claims) (k r : ℕ) → RootOf g k r → has_key k g ≡ true
RootOf-known g k r (at_root cid c h e) = ground arith
RootOf-known g k r (above cid p q c h e up) = ground arith
