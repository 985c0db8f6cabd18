-- ===== src/Base/Keys.antt =====
-- The keys of a dict are distinct, and each entry of such a dict is the one that its key finds.
use Prim.Native.Nat.{ℕ}
use mathlib.Core.Path.{◌≡◌, refl, sym, ap, subst}
use mathlib.Core.Logic.{inl, inr}
use mathlib.Core.Bool.{false}
use mathlib.Core.Option.{some}
use mathlib.Core.List.{List, [], ◌∷◌}
use native.Mathlib.Omega.{arith}
use minority_prophet_gate.Base.Tests.{◌==◌, Bool-cases}
use minority_prophet_gate.Base.Lists.{elem, add_elem, elem-add_elem, All}
use minority_prophet_gate.Base.Dicts.{Dict, lookup, insert, keys}
use minority_prophet_gate.Base.Pigeonhole.{Distinct}

pub add_elem-Distinct : (k : ℕ) (ks : List ℕ) → Distinct ks → Distinct (add_elem k ks)
add_elem-Distinct k [] d = (refl, tt)
add_elem-Distinct k (j ∷ ks) (new, d) = elim (Bool-cases (k == j)) [
  | inl here ↦ rw here (new, d)
  | inr other ↦ rw other (ground (arith, elem-add_elem k j ks), add_elem-Distinct k ks d)
]

pub keys-insert :
    {V : Type 0} (k : ℕ) (v : V) (d : Dict V) → keys (insert k v d) ≡ add_elem k (keys d)
keys-insert k v [] = refl
keys-insert k v (e ∷ d) = elim (Bool-cases (k == e.0)) [
  | inl here ↦ let q : k ≡ e.0 = ground arith in rw here (ap (λ j. j ∷ keys d) q)
  | inr other ↦ rw other (ap (λ ks. e.0 ∷ ks) (keys-insert k v d))
]

pub insert-Distinct :
    {V : Type 0} (k : ℕ) (v : V) (d : Dict V) → Distinct (keys d) → Distinct (keys (insert k v d))
insert-Distinct k v d distinct =
    subst Distinct (sym (keys-insert k v d)) (add_elem-Distinct k (keys d) distinct)

-- Each record is the one that its key finds.
abbrev pub Own : {V : Type 0} → Dict V → Dict V → Type 0
Own records rest = All (λ e. lookup e.0 records ≡ some e.1) rest

Own-more :
    {V : Type 0} (k : ℕ) (v : V) (records rest : Dict V)
    → elem k (keys rest) ≡ false
    → Own records rest
    → Own ((k, v) ∷ records) rest
Own-more k v records [] new own = tt
Own-more k v records (e ∷ rest) new (here, own) =
    let other : (e.0 == k) ≡ false = ground arith in
    (ground arith, Own-more k v records rest (ground arith) own)

pub Distinct-Own : {V : Type 0} (records : Dict V) → Distinct (keys records) → Own records records
Distinct-Own [] d = tt
Distinct-Own ((k, v) ∷ records) (new, d) =
    (ground arith, Own-more k v records records new (Distinct-Own records d))
