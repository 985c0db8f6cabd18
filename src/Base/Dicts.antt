-- ===== src/Base/Dicts.antt =====
-- A Python dict keyed by names: an association list in the order of first insertion.
use Prim.Native.Nat.{ℕ}
use mathlib.Core.Path.{◌≡◌, refl}
use mathlib.Core.Bool.{Bool, true, false}
use mathlib.Core.Option.{Option, none, some}
use mathlib.Core.List.{List, [], ◌∷◌, ◌++◌}
use native.Mathlib.Omega.{arith}
use minority_prophet_gate.Base.Tests.{◌==◌, if◌then◌else◌, is_none}

abbrev pub Dict {ℓ} : Type ℓ → Type ℓ
Dict V = List (ℕ × V)

module _ {ℓ} {V : Type ℓ} where
  -- `d.get(k)`
  abbrev pub lookup : ℕ → Dict V → Option V
  lookup k [] = none
  lookup k ((j, v) ∷ d) = if k == j then some v else lookup k d

  -- `d[k] = v`
  abbrev pub insert : ℕ → V → Dict V → Dict V
  insert k v [] = (k, v) ∷ []
  insert k v (e ∷ d) = if k == e.0 then (k, v) ∷ d else e ∷ insert k v d

  -- `k in d`
  abbrev pub has_key : ℕ → Dict V → Bool
  has_key k d = elim (lookup k d) [ none ↦ false | some _ ↦ true ]

  abbrev pub keys : Dict V → List ℕ
  keys [] = []
  keys (e ∷ d) = e.0 ∷ keys d

  abbrev pub values : Dict V → List V
  values [] = []
  values (e ∷ d) = e.1 ∷ values d

  pub lookup-insert :
      (k j : ℕ) (v : V) (d : Dict V)
      → lookup j (insert k v d) ≡ (if j == k then some v else lookup j d)
  lookup-insert k j v [] = refl
  lookup-insert k j v (e ∷ d) = ground (arith, lookup-insert k j v d)

  pub lookup-insert_self : (k : ℕ) (v : V) (d : Dict V) → lookup k (insert k v d) ≡ some v
  lookup-insert_self k v d = ground (arith, lookup-insert k k v d)

  pub insert_fresh :
      (k : ℕ) (v : V) (d : Dict V) → lookup k d ≡ none → insert k v d ≡ d ++ (k, v) ∷ []
  insert_fresh k v [] h = refl
  insert_fresh k v (e ∷ d) h = ground (arith, insert_fresh k v d)

  pub lookup-append :
      (k : ℕ) (d e : Dict V)
      → lookup k (d ++ e) ≡ (if is_none (lookup k d) then lookup k e else lookup k d)
  lookup-append k [] e = refl
  lookup-append k (x ∷ d) e = ground (arith, lookup-append k d e)
