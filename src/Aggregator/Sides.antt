-- ===== src/Aggregator/Sides.antt =====
-- What `side_roots` gathers (minority_prophet/aggregator.py): the roots behind each asserted value.
use minority_prophet_gate.Base.{
  ℕ, ◌≡◌, refl, sym, subst, ◌∙◌, Bool, true, some, List, [], ◌∷◌, ◌++◌, ◌==◌, arith, inl, inr, All,
  elem, add_elem, add_elem_old, elem-add_elem, Dict, lookup, insert, lookup-insert, Option-cases,
  Bool-cases,
}
use minority_prophet_gate.Aggregator.Graph.{Claim}
use minority_prophet_gate.Aggregator.Tally.{Sides, roots_at, side_roots, side_mass, masses}

pub side_roots-append :
    (f : ℕ → ℕ) (cs : List Claim) (c : Claim) (s : Sides)
    → side_roots f (cs ++ c ∷ []) s
      ≡ insert c.assertion
          (add_elem (f c.id) (roots_at c.assertion (side_roots f cs s)))
          (side_roots f cs s)
unfolding side_roots
side_roots-append f [] c s = refl
side_roots-append f (b ∷ cs) c s =
    side_roots-append f cs c (insert b.assertion (add_elem (f b.id) (roots_at b.assertion s)) s)

pub side_roots-cong :
    (f h : ℕ → ℕ) (cs : List Claim) (s : Sides)
    → All (λ c. f c.id ≡ h c.id) cs
    → side_roots f cs s ≡ side_roots h cs s
unfolding side_roots
side_roots-cong f h [] s all = refl
side_roots-cong f h (c ∷ cs) s (e, all) =
    rw e (
      side_roots-cong f h cs (insert c.assertion (add_elem (h c.id) (roots_at c.assertion s)) s)
        all)

-- A root that a value has is kept.
add-keeps :
    (r v q w : ℕ) (s : Sides)
    → elem r (roots_at v s) ≡ true
    → elem r (roots_at v (insert w (add_elem q (roots_at w s)) s)) ≡ true
add-keeps r v q w s h = elim (Bool-cases (v == w)) [
  | inl same_value ↦
      let e : v ≡ w = ground arith in
      ground
        (arith, lookup-insert w v (add_elem q (roots_at w s)) s, elem-add_elem q r (roots_at w s))
  | inr other ↦ ground (arith, lookup-insert w v (add_elem q (roots_at w s)) s)
]

side_roots-keeps :
    (f : ℕ → ℕ) (r v : ℕ) (cs : List Claim) (s : Sides)
    → elem r (roots_at v s) ≡ true
    → elem r (roots_at v (side_roots f cs s)) ≡ true
unfolding side_roots
side_roots-keeps f r v [] s h = h
side_roots-keeps f r v (c ∷ cs) s h =
    side_roots-keeps f r v cs (insert c.assertion (add_elem (f c.id) (roots_at c.assertion s)) s)
      (add-keeps r v (f c.id) c.assertion s h)

add-has :
    (q w : ℕ) (s : Sides) → elem q (roots_at w (insert w (add_elem q (roots_at w s)) s)) ≡ true
add-has q w s =
    ground
      (arith, lookup-insert w w (add_elem q (roots_at w s)) s, elem-add_elem q q (roots_at w s))

-- Each claim's root stands behind the value that the claim asserts.
pub side_roots-has :
    (f : ℕ → ℕ) (cs : List Claim) (s : Sides)
    → All (λ c. elem (f c.id) (roots_at c.assertion (side_roots f cs s)) ≡ true) cs
unfolding side_roots
side_roots-has f [] s = tt
side_roots-has f (c ∷ cs) s =
    let s' = insert c.assertion (add_elem (f c.id) (roots_at c.assertion s)) s in
    (
      side_roots-keeps f (f c.id) c.assertion cs s' (add-has (f c.id) c.assertion s),
      side_roots-has f cs s',
    )

insert-lookup : {V : Type 0} (k : ℕ) (v : V) (d : Dict V) → lookup k d ≡ some v → insert k v d ≡ d
insert-lookup k v [] h = absurd cc
insert-lookup k v (e ∷ d) h = elim (Bool-cases (k == e.0)) [
  | inl here ↦ let p : k ≡ e.0 = ground arith in let q : e.1 ≡ v = ground arith in ground arith
  | inr other ↦ ground (arith, insert-lookup k v d)
]

-- A root that stands behind a value already changes nothing.
pub insert-known :
    (r v : ℕ) (s : Sides)
    → elem r (roots_at v s) ≡ true
    → insert v (add_elem r (roots_at v s)) s ≡ s
insert-known r v s h = elim (Option-cases (lookup v s)) [
  | inl missing ↦ absurd (ground arith)
  | inr (rs, held) ↦
      let old : add_elem r (roots_at v s) ≡ rs = add_elem_old r (roots_at v s) h ∙ ground arith in
      rw old (insert-lookup v rs s held)
]

-- Every root of every side has a property.
abbrev pub AllRoots : (ℕ → Type 0) → Sides → Type 0
AllRoots P [] = Unit
AllRoots P (e ∷ s) = All P e.1 × AllRoots P s

roots_at-All : (P : ℕ → Type 0) (v : ℕ) (s : Sides) → AllRoots P s → All P (roots_at v s)
roots_at-All P v [] h = tt
roots_at-All P v (e ∷ s) (here, rest) = elim (Bool-cases (v == e.0)) [
  | inl yes_it_is ↦ let q : roots_at v (e ∷ s) ≡ e.1 = ground arith in subst (All P) (sym q) here
  | inr other ↦
      let q : roots_at v (e ∷ s) ≡ roots_at v s = ground arith in
      subst (All P) (sym q) (roots_at-All P v s rest)
]

add_elem-All : (P : ℕ → Type 0) (r : ℕ) (rs : List ℕ) → P r → All P rs → All P (add_elem r rs)
add_elem-All P r [] p all = (p, tt)
add_elem-All P r (q ∷ rs) p (here, all) = elim (Bool-cases (r == q)) [
  | inl yes_it_is ↦ rw yes_it_is (here, all)
  | inr other ↦ rw other (here, add_elem-All P r rs p all)
]

insert-AllRoots :
    (P : ℕ → Type 0) (v : ℕ) (rs : List ℕ) (s : Sides)
    → All P rs
    → AllRoots P s
    → AllRoots P (insert v rs s)
insert-AllRoots P v rs [] all h = (all, tt)
insert-AllRoots P v rs (e ∷ s) all (here, rest) = elim (Bool-cases (v == e.0)) [
  | inl yes_it_is ↦ rw yes_it_is (all, rest)
  | inr other ↦ rw other (here, insert-AllRoots P v rs s all rest)
]

pub side_roots-AllRoots :
    (P : ℕ → Type 0) (f : ℕ → ℕ) (cs : List Claim) (s : Sides)
    → All (λ c. P (f c.id)) cs
    → AllRoots P s
    → AllRoots P (side_roots f cs s)
unfolding side_roots
side_roots-AllRoots P f [] s all h = h
side_roots-AllRoots P f (c ∷ cs) s (p, all) h =
    side_roots-AllRoots P f cs (insert c.assertion (add_elem (f c.id) (roots_at c.assertion s)) s)
      all
      (insert-AllRoots P c.assertion (add_elem (f c.id) (roots_at c.assertion s)) s
        (add_elem-All P (f c.id) (roots_at c.assertion s) p (roots_at-All P c.assertion s h)) h)

side_mass-cong :
    (use_weights : Bool) (wt wt' : ℕ → ℕ) (rs : List ℕ)
    → All (λ r. wt r ≡ wt' r) rs
    → side_mass use_weights wt rs ≡ side_mass use_weights wt' rs
unfolding side_mass
side_mass-cong use_weights wt wt' [] all = refl
side_mass-cong use_weights wt wt' (r ∷ rs) (e, all) =
    rw (e, side_mass-cong use_weights wt wt' rs all)

-- The masses depend on the weights of the roots that count, and on nothing else.
pub masses-cong :
    (use_weights : Bool) (wt wt' : ℕ → ℕ) (s : Sides)
    → AllRoots (λ r. wt r ≡ wt' r) s
    → masses use_weights wt s ≡ masses use_weights wt' s
unfolding masses
masses-cong use_weights wt wt' [] all = refl
masses-cong use_weights wt wt' (e ∷ s) (here, rest) =
    rw (side_mass-cong use_weights wt wt' e.1 here, masses-cong use_weights wt wt' s rest)
