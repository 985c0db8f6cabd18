-- ===== src/Receipts/Families.antt =====
-- What the verifier's memory promises over any presentations (minority_prophet/receipt_verifier.py).
use minority_prophet_gate.Base.{
  ℕ, ◌≡◌, refl, sym, ◌∙◌, ap, subst, inl, inr, Option, none, some, List, [], ◌∷◌, ◌==◌, arith, Dict,
  lookup, insert, lookup-insert, lookup-insert_self, Option-cases, Bool-cases,
}
use minority_prophet_gate.Receipts.Verifier.{
  Parent, no_parent, parent_text, other_parent, Receipt, Signature, Issuers, ClaimRecord, Memory,
  no_memory, Statement, stated, is_no_parent, parent_record, same_family, echo, new_root, answer,
  verify,
}

-- Nothing is forgotten.
pub record Extends (m n : Memory) : Type 0 where
  pub claims : (c : ℕ) (p : ClaimRecord) → lookup c m.claims ≡ some p → lookup c n.claims ≡ some p
  pub roots : (r c : ℕ) → lookup r m.roots ≡ some c → lookup r n.roots ≡ some c

Extends-refl : (m : Memory) → Extends m m
Extends-refl m = record { claims = λ c p h. h; roots = λ r c h. h }

insert_kept :
    {V : Type 0} (k j : ℕ) (v w : V) (d : Dict V)
    → lookup k d ≡ none
    → lookup j d ≡ some w
    → lookup j (insert k v d) ≡ some w
insert_kept k j v w d new held = rw (lookup-insert k j v d) (elim (Bool-cases (j == k)) [
  | inl hit ↦
      let own : k ≡ j = ground arith in
      let both : none ≡ some w = sym new ∙ subst (λ i. lookup i d ≡ some w) (sym own) held in
      absurd (cc)
  | inr miss ↦ rw miss held
])

-- The first claim of the record's root, which asserts the same about the same subject.
pub record HasFamily (m : Memory) (e : ClaimRecord) : Type 0 where
  pub first : ℕ
  pub first_record : ClaimRecord
  pub known : lookup e.root_id m.roots ≡ some first
  pub held : lookup first m.claims ≡ some first_record
  pub assertion : first_record.assertion ≡ e.assertion
  pub subject : first_record.subject ≡ e.subject

abbrev pub HasFamilies : Memory → Type 0
HasFamilies m = (c : ℕ) (p : ClaimRecord) → lookup c m.claims ≡ some p → HasFamily m p

HasFamily-Extends : (m n : Memory) (e : ClaimRecord) → Extends m n → HasFamily m e → HasFamily n e
HasFamily-Extends m n e x f = record {
  first = f.first;
  first_record = f.first_record;
  known = x.roots e.root_id f.first f.known;
  held = x.claims f.first f.first_record f.held;
  assertion = f.assertion;
  subject = f.subject;
}

-- A memory with one claim more.
abbrev grown : Memory → ℕ → ClaimRecord → Dict ℕ → Memory
grown m k e roots = record { claims = insert k e m.claims; roots = roots }

grown-HasFamilies :
    (m : Memory) (k : ℕ) (e : ClaimRecord) (roots : Dict ℕ)
    → Extends m (grown m k e roots)
    → HasFamily (grown m k e roots) e
    → HasFamilies m
    → HasFamilies (grown m k e roots)
grown-HasFamilies m k e roots x own h c p =
    rw (lookup-insert k c e m.claims) (elim (Bool-cases (c == k)) [
      | inl hit ↦
          rw hit (λ at. let q : e ≡ p = ground arith in subst (HasFamily (grown m k e roots)) q own)
      | inr miss ↦ rw miss (λ at. HasFamily-Extends m (grown m k e roots) p x (h c p at))
    ])

-- A step that keeps what is known and its families.
pub record Keeps (m n : Memory) : Type 0 where
  pub extends : Extends m n
  pub families : HasFamilies m → HasFamilies n

Keeps-refl : (m : Memory) → Keeps m m
Keeps-refl m = record { extends = Extends-refl m; families = λ h. h }

new_root-Keeps :
    (s : Statement) (m : Memory)
    → lookup s.claim_id m.claims ≡ none
    → lookup s.entry.root_id m.roots ≡ none
    → Keeps m (new_root s m).1
new_root-Keeps s m new rootless = elim (Bool-cases (is_no_parent s.parent)) [
  | inr parented ↦ rw (parented, new_root) (Keeps-refl m)
  | inl fresh ↦
      rw (fresh, new_root)
        (let roots = insert s.entry.root_id s.claim_id m.roots in
          let x : Extends m (grown m s.claim_id s.entry roots) = record {
            claims = λ c p. insert_kept s.claim_id c s.entry p m.claims new;
            roots = λ r c. insert_kept s.entry.root_id r s.claim_id c m.roots rootless;
          } in
          record {
            extends = x;
            families = grown-HasFamilies m s.claim_id s.entry roots x (record {
              first = s.claim_id;
              first_record = s.entry;
              known = lookup-insert_self s.entry.root_id s.claim_id m.roots;
              held = lookup-insert_self s.claim_id s.entry m.claims;
              assertion = refl;
              subject = refl;
            });
          })
]

parent_record-known :
    (parent : Parent) (m : Memory) (p : ClaimRecord)
    → parent_record parent m ≡ some p
    → (c : ℕ) × (lookup c m.claims ≡ some p)
parent_record-known no_parent m p h = absurd (cc)
parent_record-known (other_parent b) m p h = absurd (cc)
parent_record-known (parent_text c) m p h = (c, h)

echo-Keeps :
    (s : Statement) (m : Memory) (o : Option ClaimRecord)
    → lookup s.claim_id m.claims ≡ none
    → ((p : ClaimRecord) → o ≡ some p → (c : ℕ) × (lookup c m.claims ≡ some p))
    → Keeps m (echo s m o).1
echo-Keeps s m none new parents = Keeps-refl m
echo-Keeps s m (some p) new parents = elim (Bool-cases (same_family p s.entry)) [
  | inr strange ↦ rw (strange, echo) (Keeps-refl m)
  | inl kin ↦
      rw (kin, echo)
        (let x : Extends m (grown m s.claim_id s.entry m.roots) = record {
          claims = λ c q. insert_kept s.claim_id c s.entry q m.claims new;
          roots = λ r c h. h;
        } in
          record {
            extends = x;
            families = λ h.
                let (c, at) = parents p refl in
                let f = HasFamily-Extends m (grown m s.claim_id s.entry m.roots) p x (h c p at) in
                let same_root : p.root_id ≡ s.entry.root_id = ground arith in
                grown-HasFamilies m s.claim_id s.entry m.roots x
                  (record {
                    first = f.first;
                    first_record = f.first_record;
                    known = subst (λ r. lookup r m.roots ≡ some f.first) same_root f.known;
                    held = f.held;
                    assertion = f.assertion ∙ (ground arith);
                    subject = f.subject ∙ (ground arith);
                  })
                  h;
          })
]

answer-Keeps : (s : Statement) (m : Memory) → Keeps m (answer s m).1
unfolding answer
answer-Keeps s m = elim (Option-cases (lookup s.claim_id m.claims)) [
  | inr (prior, old) ↦ rw (old, answer) (Keeps-refl m)
  | inl new ↦ elim (Option-cases (lookup s.entry.root_id m.roots)) [
    | inl rootless ↦ rw (new, rootless, answer) (new_root-Keeps s m new rootless)
    | inr (c, rooted) ↦
        rw (new, rooted, answer)
          (echo-Keeps s m (parent_record s.parent m) new (parent_record-known s.parent m))
  ]
]

pub verify-Keeps :
    (t : Issuers) (r : Receipt) (sig : Signature) (m : Memory) → Keeps m (verify t r sig m).1
unfolding verify
verify-Keeps t r sig m = elim (Option-cases (stated t r sig)) [
  | inl refused ↦ rw (refused, verify) (Keeps-refl m)
  | inr (s, said) ↦ rw (said, verify) (answer-Keeps s m)
]

-- The memory after any presentations.
unfoldable pub verify_all : Issuers → List (Receipt × Signature) → Memory → Memory
unfolding verify
verify_all t [] m = m
verify_all t (p ∷ ps) m = verify_all t ps (verify t p.0 p.1 m).1

verify_all-HasFamilies :
    (t : Issuers) (ps : List (Receipt × Signature)) (m : Memory)
    → HasFamilies m
    → HasFamilies (verify_all t ps m)
unfolding verify_all
verify_all-HasFamilies t [] m h = h
verify_all-HasFamilies t (p ∷ ps) m h =
    verify_all-HasFamilies t ps _ ((verify-Keeps t p.0 p.1 m).families h)

-- After any presentations to a new verifier, any two claims that it knows under one root assert the same
-- about the same subject, and the root has one first claim, which it also knows.
pub verify_all-families :
    (t : Issuers) (ps : List (Receipt × Signature)) (c d : ℕ) (p q : ClaimRecord)
    → lookup c (verify_all t ps no_memory).claims ≡ some p
    → lookup d (verify_all t ps no_memory).claims ≡ some q
    → p.root_id ≡ q.root_id
    → (p.assertion ≡ q.assertion)
      × (p.subject ≡ q.subject)
      × HasFamily (verify_all t ps no_memory) p
verify_all-families t ps c d p q hp hq same_root =
    let m = verify_all t ps no_memory in
    let all : HasFamilies m = verify_all-HasFamilies t ps no_memory (λ i e h. absurd (cc)) in
    let f = all c p hp in
    let g = all d q hq in
    let same_first : some f.first ≡ some g.first =
      sym f.known ∙ subst (λ r. lookup r m.roots ≡ some g.first) (sym same_root) g.known in
    let firsts : f.first ≡ g.first = ground arith in
    let records : some f.first_record ≡ some g.first_record =
      sym f.held ∙ subst (λ i. lookup i m.claims ≡ some g.first_record) (sym firsts) g.held in
    let one : f.first_record ≡ g.first_record = ground arith in
    (
      sym f.assertion ∙ ap (λ x. x.assertion) one ∙ g.assertion,
      sym f.subject ∙ ap (λ x. x.subject) one ∙ g.subject,
      f,
    )
