-- ===== src/Base/Pigeonhole.antt =====
-- As many distinct keys of a dict as there are entries, and no more.
use Prim.Native.Nat.{ℕ, ◌<◌, ◌≤◌}
use mathlib.Core.Path.{◌≡◌}
use mathlib.Core.Bool.{true, false}
use mathlib.Core.List.{List, [], ◌∷◌}
use native.Mathlib.Omega.{arith}
use minority_prophet_gate.Base.Tests.{◌==◌, if◌then◌else◌}
use minority_prophet_gate.Base.Lists.{length, elem, All}
use minority_prophet_gate.Base.Dicts.{Dict, has_key}

-- No element twice.
abbrev pub Distinct : List ℕ → Type 0
Distinct [] = Unit
Distinct (x ∷ xs) = (elem x xs ≡ false) × Distinct xs

module _ {ℓ} {V : Type ℓ} where
  -- The dict without one entry of a key.
  abbrev remove : ℕ → Dict V → Dict V
  remove k [] = []
  remove k (e ∷ d) = if k == e.0 then d else e ∷ remove k d

  length-remove : (k : ℕ) (d : Dict V) → has_key k d ≡ true → length (remove k d) < length d
  length-remove k [] h = absurd (cc)
  length-remove k (e ∷ d) h = ground (arith, length-remove k d)

  has_key-remove :
      (k j : ℕ) (d : Dict V) → (j == k) ≡ false → has_key j d ≡ true → has_key j (remove k d) ≡ true
  has_key-remove k j [] ne h = h
  has_key-remove k j (e ∷ d) ne h = ground (arith, has_key-remove k j d)

  abbrev pub AreKeys : List ℕ → Dict V → Type 0
  AreKeys ks d = All (λ k. has_key k d ≡ true) ks

  AreKeys-remove :
      (k : ℕ) (ks : List ℕ) (d : Dict V)
      → elem k ks ≡ false
      → AreKeys ks d
      → AreKeys ks (remove k d)
  AreKeys-remove k [] d ne all = tt
  AreKeys-remove k (j ∷ ks) d ne (h, all) =
      let other : (j == k) ≡ false = ground arith in
      (has_key-remove k j d other h, AreKeys-remove k ks d (ground arith) all)

  -- Distinct keys are no more than the entries.
  pub length-Distinct :
      (ks : List ℕ) (d : Dict V) → Distinct ks → AreKeys ks d → length ks ≤ length d
  length-Distinct [] d distinct all = omega arith
  length-Distinct (k ∷ ks) d (new, distinct) (h, all) =
      let rest = length-Distinct ks (remove k d) distinct (AreKeys-remove k ks d new all) in
      let fewer = length-remove k d h in omega arith
