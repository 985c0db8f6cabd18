-- ===== src/MemoryEvidence/Accepts.antt =====
-- What memory evidence has passed that is accepted (minority_prophet/memory_evidence.py).
use minority_prophet_gate.Base.{
  All, sym, ℕ, ◌≡◌, ◌≢◌, ◌<◌, ◌≤◌, refl, ap, subst, inl, inr, Bool, true, false, Option, none, some,
  List, [], ◌∷◌, same→eq, elem, arith, Dict, Outcome, ok, raised, bind-ok, Outcome-cases,
}
use minority_prophet_gate.Continuity.Receipt.{
  Stamp, not_text, unreadable, naive, aware, NonceField, no_text, nonce_text,
}
use minority_prophet_gate.MemoryEvidence.Lineage.{
  LineageError, MemoryClaim, claim_map, all_known, check_lineage,
}
use minority_prophet_gate.MemoryEvidence.Traced.{
  IsTraced, check_lineage-map, check_lineage-IsTraced,
}
use minority_prophet_gate.MemoryEvidence.Mapped.{
  ids, roots_of, claim_map-root_claims, roots_of-authenticated, all_known-listed,
}
use minority_prophet_gate.MemoryEvidence.Assess.{
  some_claims, active, coverage_complete, kind_inconclusive, MemoryProfile, Expectations, instant,
  checked_nonce, check_bound, check_expected, clock_reading, as_lineage, root_claims,
  all_authenticated, read_profile, check_binding, check_lifetime, check_standing, check_roots,
  admit, MemoryReason,
}

instant-aware : (o : Stamp) (t : ℕ) → instant o ≡ ok t → o ≡ aware t
instant-aware (aware u) t h = ground arith
instant-aware (naive u) t h = absurd (cc)
instant-aware not_text t h = absurd (cc)
instant-aware unreadable t h = absurd (cc)

clock_reading-aware : (o : Stamp) (t : ℕ) → clock_reading o ≡ ok t → o ≡ aware t
clock_reading-aware (aware u) t h = ground arith
clock_reading-aware (naive u) t h = absurd (cc)
clock_reading-aware not_text t h = absurd (cc)
clock_reading-aware unreadable t h = absurd (cc)

checked_nonce-long :
    (o : NonceField) (n : ℕ)
    → checked_nonce o ≡ ok n
    → (size : ℕ) × (o ≡ nonce_text n size) × (16 ≤ size)
checked_nonce-long no_text n h = absurd (cc)
checked_nonce-long (nonce_text m size) n h =
    let q : m ≡ n = ground arith in (size, ap (λ t. nonce_text t size) q, ground arith)

check_bound-eq : (why : MemoryReason) (b e : Option ℕ) → check_bound why b e ≡ ok tt → b ≡ e
check_bound-eq why none none h = refl
check_bound-eq why (some a) none h = absurd (cc)
check_bound-eq why b (some e) h = same→eq b (some e) (ground arith)

check_expected-eq :
    (why : MemoryReason) (b : ℕ) (x : Option ℕ) (e : ℕ)
    → check_expected why b x ≡ ok tt
    → x ≡ some e
    → b ≡ e
check_expected-eq why b none e h at = absurd (cc)
check_expected-eq why b (some f) e h at = ground arith

as_lineage-ok :
    (r : Outcome LineageError (Dict MemoryClaim)) (d : Dict MemoryClaim)
    → as_lineage r ≡ ok d
    → r ≡ ok d
as_lineage-ok (ok e) d h = ground arith
as_lineage-ok (raised e) d h = absurd (cc)

some_claims-eq :
    (o : Option (List MemoryClaim)) (cs : List MemoryClaim) → some_claims o ≡ ok cs → o ≡ some cs
some_claims-eq none cs h = absurd (cc)
some_claims-eq (some []) cs h = absurd (cc)
some_claims-eq (some (c ∷ rest)) cs h = ground arith

module _ (is_digest : ℕ → Bool) where
  -- What an accepted profile has passed; `d` is the map of its claims.
  pub record IsAdmissible (p : MemoryProfile) (x : Expectations) (d : Dict MemoryClaim)
      : Type 0 where
    pub proposition : (e : ℕ) → x.proposition ≡ some e → p.proposition_digest ≡ e
    pub memory_object : (e : ℕ) → x.memory_object ≡ some e → p.memory_object_digest ≡ e
    pub request : p.request_digest ≡ x.request
    pub action : p.action_digest ≡ x.action
    pub observed : ℕ
    pub expires : ℕ
    pub current : ℕ
    pub observed_at : p.observed_at ≡ aware observed
    pub expires_at : p.expires_at ≡ aware expires
    pub now : x.now ≡ aware current
    pub lifetime : (observed < expires) × (current < expires)
    pub nonce : ℕ
    pub long : (size : ℕ) × (p.nonce ≡ nonce_text nonce size) × (16 ≤ size)
    pub fresh : elem nonce x.used_nonces ≡ false
    pub standing : p.revocation_status ≡ some active
    pub coverage : p.coverage ≡ some coverage_complete
    pub conclusive : p.conclusion_kind ≢ some kind_inconclusive
    pub claims : List MemoryClaim
    pub claimed : p.claims ≡ some claims
    pub traced : IsTraced is_digest claims d
    pub rooted : roots_of claims ≢ []
    pub authentic : all_authenticated (roots_of claims) ≡ true
    pub resolved : (p.input_claims ≢ []) × All (λ k. elem k (ids claims) ≡ true) p.input_claims

  module _ (p : MemoryProfile) (x : Expectations) where
    admit-parts :
        (d : Dict MemoryClaim)
        → admit is_digest p x ≡ ok d
        → (parts : List MemoryClaim × ℕ × ℕ × ℕ) × (read_profile is_digest p ≡ ok parts)
          × (check_binding is_digest p x ≡ ok tt)
          × (check_lifetime is_digest parts.1 parts.2 parts.3 x ≡ ok tt)
          × (check_standing is_digest p ≡ ok tt)
          × (check_lineage is_digest parts.0 ≡ ok d)
          × (check_roots is_digest p d ≡ ok tt)
    unfolding admit
    admit-parts d h =
        let (parts, read, h1) = bind-ok (read_profile is_digest p) _ d h in
        let (_, binding, h2) = bind-ok (check_binding is_digest p x) _ d h1 in
        let (_, life, h3) = bind-ok (check_lifetime is_digest parts.1 parts.2 parts.3 x) _ d h2 in
        let (_, standing, h4) = bind-ok (check_standing is_digest p) _ d h3 in
        let (found, lineage, h5) = bind-ok (as_lineage (check_lineage is_digest parts.0)) _ d h4 in
        let (_, roots, h6) = bind-ok (check_roots is_digest p found) _ d h5 in
        let q : found ≡ d = ground arith in
        (
          parts,
          read,
          binding,
          life,
          standing,
          subst (λ e. check_lineage is_digest parts.0 ≡ ok e) q
              (as_lineage-ok (check_lineage is_digest parts.0) found lineage),
          subst (λ e. check_roots is_digest p e ≡ ok tt) q roots,
        )

    profile-times :
        (parts : List MemoryClaim × ℕ × ℕ × ℕ)
        → read_profile is_digest p ≡ ok parts
        → (instant p.observed_at ≡ ok parts.1)
          × (instant p.expires_at ≡ ok parts.2)
          × (checked_nonce p.nonce ≡ ok parts.3)
    unfolding read_profile
    profile-times parts h = ground arith

    read_profile-parts :
        (parts : List MemoryClaim × ℕ × ℕ × ℕ)
        → read_profile is_digest p ≡ ok parts
        → (p.claims ≡ some parts.0)
          × (instant p.observed_at ≡ ok parts.1)
          × (instant p.expires_at ≡ ok parts.2)
          × (checked_nonce p.nonce ≡ ok parts.3)
    unfolding read_profile
    read_profile-parts parts h =
        let (observed, expires, nonce) = profile-times parts h in
        (some_claims-eq p.claims parts.0 (ground arith), observed, expires, nonce)

    check_roots-parts :
        (claims : List MemoryClaim) (d : Dict MemoryClaim)
        → IsTraced is_digest claims d
        → claim_map claims [] ≡ d
        → check_roots is_digest p d ≡ ok tt
        → (roots_of claims ≢ [])
          × (all_authenticated (roots_of claims) ≡ true)
          × (p.input_claims ≢ [])
          × All (λ k. elem k (ids claims) ≡ true) p.input_claims
    unfolding check_roots
    check_roots-parts claims d traced mapped h =
        let known : all_known p.input_claims d ≡ true = ground arith in
        (
          λ e.
              let none_found : root_claims d ≡ [] =
                subst (λ x. root_claims x ≡ []) mapped (claim_map-root_claims claims [] e refl) in
              ground (arith, none_found),
          roots_of-authenticated claims d (ground arith) traced.filed,
          λ e. ground arith,
          all_known-listed p.input_claims claims
              (subst (λ x. all_known p.input_claims x ≡ true) (sym mapped) known),
        )

    check_lifetime-parts :
        (observed expires nonce : ℕ)
        → check_lifetime is_digest observed expires nonce x ≡ ok tt
        → (current : ℕ) × (clock_reading x.now ≡ ok current)
          × ((observed < expires) × (current < expires))
          × (elem nonce x.used_nonces ≡ false)
    unfolding check_lifetime
    check_lifetime-parts observed expires nonce = elim (Outcome-cases (clock_reading x.now)) [
      | inr (e, eq) ↦ rw (eq, check_lifetime) (λ h. ground arith)
      | inl (t, eq) ↦
          rw (eq, check_lifetime) (λ h. (t, refl, (ground arith, ground arith), ground arith))
    ]

    -- Evidence is accepted only if it matches every digest that is expected, binds no request or action
    -- that is not, was observed before it expires and has not expired, under a long nonce that was not
    -- used, and is active, complete and conclusive; if the ids of its claims are distinct, each claim has
    -- a digest and derives only from claims of the profile, and none from itself; if some of its claims
    -- are roots and all of these are authenticated; and if its conclusion rests on claims of the profile.
    -- What is returned is the map of these claims.
    pub admit-IsAdmissible :
        (d : Dict MemoryClaim) → admit is_digest p x ≡ ok d → IsAdmissible p x d
    unfolding check_binding check_standing check_roots
    admit-IsAdmissible d h =
        let (parts, read, binding, life, standing, lineage, roots) = admit-parts d h in
        let (claimed, observed, expires, nonce) = read_profile-parts parts read in
        let (current, clock, lifetime, fresh) = check_lifetime-parts parts.1 parts.2 parts.3 life in
        let traced = check_lineage-IsTraced is_digest parts.0 d lineage in
        let (rooted, authentic, some_input, listed) =
          check_roots-parts parts.0 d traced (check_lineage-map is_digest parts.0 d lineage)
            roots in
        record {
          proposition = λ e.
              check_expected-eq MemoryReason.proposition_mismatch p.proposition_digest x.proposition
                e (ground arith);
          memory_object = λ e.
              check_expected-eq MemoryReason.object_mismatch p.memory_object_digest x.memory_object
                e (ground arith);
          request =
              check_bound-eq MemoryReason.request_mismatch p.request_digest x.request
                (ground arith);
          action =
              check_bound-eq MemoryReason.action_mismatch p.action_digest x.action (ground arith);
          observed = parts.1;
          expires = parts.2;
          current = current;
          observed_at = instant-aware p.observed_at parts.1 observed;
          expires_at = instant-aware p.expires_at parts.2 expires;
          now = clock_reading-aware x.now current clock;
          lifetime = lifetime;
          nonce = parts.3;
          long = checked_nonce-long p.nonce parts.3 nonce;
          fresh = fresh;
          standing = same→eq p.revocation_status (some active) (ground arith);
          coverage = same→eq p.coverage (some coverage_complete) (ground arith);
          conclusive = ground arith;
          claims = parts.0;
          claimed = claimed;
          traced = traced;
          rooted = rooted;
          authentic = authentic;
          resolved = (some_input, listed);
        }
