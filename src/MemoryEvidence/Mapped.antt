-- ===== src/MemoryEvidence/Mapped.antt =====
-- A map of claims that is as long as the list of them holds each claim under its own id
-- (minority_prophet/memory_evidence.py, claim_map and the test for repeated ids).
use minority_prophet_gate.Base.{
  ℕ, suc, ◌+◌, ◌≡◌, Bool, Option-cases, ok, ◌⊎◌, inl, inr, true, same, subst, Bool-cases, ◌≤◌, refl,
  false, some, List, [], ◌∷◌, ◌==◌, if◌then◌else◌, elem, length, arith, All, Dict, lookup, insert,
  has_key, lookup-insert, lookup-insert_self,
}
use minority_prophet_gate.Base.Pigeonhole.{Distinct}
use minority_prophet_gate.MemoryEvidence.Lineage.{MemoryClaim, claim_map, all_known, check_claims}
use minority_prophet_gate.MemoryEvidence.Assess.{
  authenticated, is_root, root_claims, all_authenticated,
}

abbrev pub ids : List MemoryClaim → List ℕ
ids [] = []
ids (c ∷ cs) = c.id ∷ ids cs

length-insert :
    (k : ℕ) (c : MemoryClaim) (d : Dict MemoryClaim)
    → length (insert k c d) ≡ (if has_key k d then length d else suc (length d))
length-insert k c [] = refl
length-insert k c (e ∷ d) = ground (arith, length-insert k c d)

claim_map_small :
    (cs : List MemoryClaim) (d : Dict MemoryClaim) → length (claim_map cs d) ≤ length cs + length d
unfolding claim_map
claim_map_small [] d = omega arith
claim_map_small (c ∷ cs) d =
    ground (arith, claim_map_small cs (insert c.id c d), length-insert c.id c d)

-- No claim of the list was left out of the map.
abbrev IsWhole : List MemoryClaim → Dict MemoryClaim → Type 0
IsWhole cs d = length (claim_map cs d) ≡ length cs + length d

IsWhole-tail :
    (c : MemoryClaim) (cs : List MemoryClaim) (d : Dict MemoryClaim)
    → IsWhole (c ∷ cs) d
    → (has_key c.id d ≡ false) × IsWhole cs (insert c.id c d)
unfolding claim_map
IsWhole-tail c cs d h =
    ground (arith, h, claim_map_small cs (insert c.id c d), length-insert c.id c d)

-- A key that the map had before is no id of the list, and keeps its claim.
IsWhole-keeps :
    (cs : List MemoryClaim) (d : Dict MemoryClaim) (k : ℕ) (x : MemoryClaim)
    → IsWhole cs d
    → lookup k d ≡ some x
    → (elem k (ids cs) ≡ false) × (lookup k (claim_map cs d) ≡ some x)
unfolding claim_map
IsWhole-keeps [] d k x h at = (refl, at)
IsWhole-keeps (c ∷ cs) d k x h at =
    let (new, rest) = IsWhole-tail c cs d h in
    let other : (k == c.id) ≡ false = ground (arith, new, at) in
    let still : lookup k (insert c.id c d) ≡ some x =
      ground (arith, lookup-insert c.id k c d, other, at) in
    let (absent, found) = IsWhole-keeps cs (insert c.id c d) k x rest still in (ground arith, found)

-- The ids are distinct, and each claim is the one that the map holds under its id.
pub IsWhole-filed :
    (cs : List MemoryClaim) (d : Dict MemoryClaim)
    → IsWhole cs d
    → Distinct (ids cs) × All (λ c. lookup c.id (claim_map cs d) ≡ some c) cs
unfolding claim_map
IsWhole-filed [] d h = (tt, tt)
IsWhole-filed (c ∷ cs) d h =
    let (new, rest) = IsWhole-tail c cs d h in
    let (distinct, filed) = IsWhole-filed cs (insert c.id c d) rest in
    let (absent, found) =
      IsWhole-keeps cs (insert c.id c d) c.id c rest (lookup-insert_self c.id c d) in
    ((absent, distinct), (found, filed))

-- The map holds no other ids.
pub claim_map-has_key :
    (cs : List MemoryClaim) (d : Dict MemoryClaim) (k : ℕ)
    → has_key k (claim_map cs d) ≡ true
    → (elem k (ids cs) ≡ true) ⊎ (has_key k d ≡ true)
unfolding claim_map
claim_map-has_key [] d k h = inr h
claim_map-has_key (c ∷ cs) d k h = elim (claim_map-has_key cs (insert c.id c d) k h) [
  | inl listed ↦ inl (ground arith)
  | inr held ↦ elim (Bool-cases (k == c.id)) [
    | inl hit ↦ inl (ground arith)
    | inr miss ↦ inr (ground (arith, lookup-insert c.id k c d, held, miss))
  ]
]

-- The claims of a list that derive from no other.
abbrev pub roots_of : List MemoryClaim → List MemoryClaim
roots_of [] = []
roots_of (c ∷ cs) = let rest = roots_of cs in if is_root c then c ∷ rest else rest

insert-root_claims :
    (k : ℕ) (c : MemoryClaim) (d : Dict MemoryClaim)
    → is_root c ≡ false
    → root_claims d ≡ []
    → root_claims (insert k c d) ≡ []
insert-root_claims k c [] derived none_yet = ground arith
insert-root_claims k c (e ∷ d) derived none_yet = ground (arith, insert-root_claims k c d derived)

pub claim_map-root_claims :
    (cs : List MemoryClaim) (d : Dict MemoryClaim)
    → roots_of cs ≡ []
    → root_claims d ≡ []
    → root_claims (claim_map cs d) ≡ []
unfolding claim_map
claim_map-root_claims [] d h none_yet = none_yet
claim_map-root_claims (c ∷ cs) d h none_yet = elim (Bool-cases (is_root c)) [
  | inl first ↦ absurd (ground arith)
  | inr derived ↦
      claim_map-root_claims cs (insert c.id c d) (ground arith)
        (insert-root_claims c.id c d derived none_yet)
]

root-authenticated :
    (d : Dict MemoryClaim) (k : ℕ) (c : MemoryClaim)
    → all_authenticated (root_claims d) ≡ true
    → lookup k d ≡ some c
    → is_root c ≡ true
    → same c.root_status (some authenticated) ≡ true
root-authenticated [] k c h at first = absurd (cc)
root-authenticated (e ∷ d) k c h at first = elim (Bool-cases (k == e.0)) [
  | inl hit ↦
      let q : e.1 ≡ c = ground arith in
      subst (λ x. is_root x ≡ true → same x.root_status (some authenticated) ≡ true) q
        (λ f. ground arith) first
  | inr miss ↦ root-authenticated d k c (ground arith) (ground arith) first
]

-- Where the roots of the map are authenticated, so are those of the list.
pub roots_of-authenticated :
    (cs : List MemoryClaim) (d : Dict MemoryClaim)
    → all_authenticated (root_claims d) ≡ true
    → All (λ c. lookup c.id d ≡ some c) cs
    → all_authenticated (roots_of cs) ≡ true
roots_of-authenticated [] d h all = refl
roots_of-authenticated (c ∷ cs) d h (here, all) =
    let rest = roots_of-authenticated cs d h all in
    elim (Bool-cases (is_root c)) [
      | inr derived ↦ rw derived rest
      | inl first ↦
          let known = root-authenticated d c.id c h here first in ground (arith, first, known, rest)
    ]

pub all_known-listed :
    (ks : List ℕ) (cs : List MemoryClaim)
    → all_known ks (claim_map cs []) ≡ true
    → All (λ k. elem k (ids cs) ≡ true) ks
all_known-listed [] cs h = tt
all_known-listed (k ∷ ks) cs h = (
  elim (claim_map-has_key cs [] k (ground arith)) [ inl listed ↦ listed | inr held ↦ absurd (cc) ],
  all_known-listed ks cs (ground arith),
)

-- A claim with a digest, whose parents are claims of the list.
pub record IsSound (is_digest : ℕ → Bool) (cs : List MemoryClaim) (c : MemoryClaim) : Type 0 where
  pub digest : is_digest c.claim_digest ≡ true
  pub parents : List ℕ
  pub derives : c.derived_from ≡ some parents
  pub listed : All (λ k. elem k (ids cs) ≡ true) parents

pub check_claims-IsSound :
    (is_digest : ℕ → Bool) (whole cs : List MemoryClaim)
    → check_claims is_digest cs (claim_map whole []) ≡ ok tt
    → All (IsSound is_digest whole) cs
unfolding check_claims
check_claims-IsSound is_digest whole [] h = tt
check_claims-IsSound is_digest whole (c ∷ cs) h = elim (Option-cases c.derived_from) [
  | inl listless ↦ absurd (ground (arith, listless))
  | inr (ps, listed) ↦ (
    record {
      digest = ground arith;
      parents = ps;
      derives = listed;
      listed = all_known-listed ps whole (ground (arith, listed));
    },
    check_claims-IsSound is_digest whole cs (ground (arith, listed)),
  )
]
