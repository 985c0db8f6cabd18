-- ===== src/Base/Text.antt =====
-- Python's `strip`, `lower` and `upper` on a text given by its code points. Case and white space
-- are those of ASCII.
use Prim.Native.Nat.{ℕ, ◌+◌, ◌-◌}
use Prim.Native.Char.{code}
use Prim.Native.String.{String}
use mathlib.Core.Bool.{Bool, true, false, ◌&&◌, ◌||◌}
use mathlib.Core.List.{List, [], ◌∷◌, map, reverse}
use minority_prophet_gate.Base.Tests.{leb, ◌==◌, if◌then◌else◌}

abbrev pub codes : String → List ℕ
codes String.[] = []
codes (String.◌∷◌ c s) = code c ∷ codes s

unfoldable pub is_space : ℕ → Bool
is_space c = c == 32 || (leb 9 c && leb c 13) || (leb 28 c && leb c 31)

unfoldable pub lstrip : List ℕ → List ℕ
unfolding is_space
lstrip [] = []
lstrip (c ∷ cs) = let rest = lstrip cs in if is_space c then rest else c ∷ cs

unfoldable pub strip : List ℕ → List ℕ
unfolding lstrip
strip cs = reverse (lstrip (reverse (lstrip cs)))

unfoldable pub lower : List ℕ → List ℕ
lower = map (λ c. if leb 65 c && leb c 90 then c + 32 else c)

unfoldable pub upper : List ℕ → List ℕ
upper = map (λ c. if leb 97 c && leb c 122 then c - 32 else c)

abbrev pub same_codes : List ℕ → List ℕ → Bool
same_codes [] [] = true
same_codes [] (_ ∷ _) = false
same_codes (_ ∷ _) [] = false
same_codes (c ∷ cs) (d ∷ ds) = if c == d then same_codes cs ds else false
