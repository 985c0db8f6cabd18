-- ===== src/Base/Lists.antt =====
-- Lists measured by native numbers, sums, and Python's `in` and `set.add` on lists of names.
use Prim.Native.Nat.{ℕ, suc, ◌+◌}
use mathlib.Core.Path.{◌≡◌, refl}
use mathlib.Core.Bool.{Bool, true, false}
use mathlib.Core.List.{List, [], ◌∷◌, ◌++◌}
use native.Mathlib.Omega.{arith}
use minority_prophet_gate.Base.Tests.{◌==◌, if◌then◌else◌}

abbrev pub length {ℓ} : {A : Type ℓ} → List A → ℕ
length [] = 0
length (x ∷ xs) = suc (length xs)

pub length-append {ℓ} : {A : Type ℓ} (xs ys : List A) → length (xs ++ ys) ≡ length xs + length ys
length-append [] ys = omega arith
length-append (x ∷ xs) ys = omega (arith, length-append xs ys)

-- `x in xs`
abbrev pub elem : ℕ → List ℕ → Bool
elem x [] = false
elem x (y ∷ ys) = if x == y then true else elem x ys

-- `xs.add(x)` on a set, kept in the order of first insertion
abbrev pub add_elem : ℕ → List ℕ → List ℕ
add_elem x [] = x ∷ []
add_elem x (y ∷ ys) = if x == y then y ∷ ys else y ∷ add_elem x ys

-- Every element satisfies a predicate.
abbrev pub All {ℓ κ} : {A : Type ℓ} → (A → Type κ) → List A → Type κ
All P [] = Unit
All P (x ∷ xs) = P x × All P xs

pub add_elem_old : (x : ℕ) (xs : List ℕ) → elem x xs ≡ true → add_elem x xs ≡ xs
add_elem_old x [] h = ground arith
add_elem_old x (y ∷ ys) h = ground (arith, add_elem_old x ys)

pub elem-add_elem :
    (x y : ℕ) (xs : List ℕ) → elem y (add_elem x xs) ≡ (if y == x then true else elem y xs)
elem-add_elem x y [] = refl
elem-add_elem x y (z ∷ zs) = ground (arith, elem-add_elem x y zs)

-- How often `k` occurs.
abbrev pub count : ℕ → List ℕ → ℕ
count k [] = 0
count k (x ∷ xs) = (if k == x then 1 else 0) + count k xs
