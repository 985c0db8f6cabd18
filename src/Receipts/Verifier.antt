-- ===== src/Receipts/Verifier.antt =====
-- receipt_verifier.py: `sign_receipt_envelope` and SignedReceiptVerifier. The HMAC is a parameter.
use minority_prophet_gate.Base.{
  ℕ, Bool, true, false, not, ◌&&◌, ◌||◌, Option, none, some, List, [], ◌∷◌, ◌==◌, ltb,
  if◌then◌else◌, same, elem, length, Dict, lookup, insert, keys,
}
use minority_prophet_gate.Adapter.Envelope.{Verification, root, derived, invalid}

-- The text "minority-prophet.signed-evidence-receipt.v1".
abbrev pub receipt_schema : ℕ
receipt_schema = 1

-- `attest.get("derived_from")`: nothing, a text, or another value by its truth.
pub data Parent : Type 0 where
  no_parent : Parent
  parent_text : ℕ → Parent
  other_parent : Bool → Parent

-- `_unsigned_envelope`: a missing key is `none`, and so is one that is no text. The assertion is a
-- number, one for the JSON values that are equal; `rest` is what else the envelope says.
pub record Receipt : Type 0 where
  pub claim_id : Option ℕ
  pub assertion : Option ℕ
  pub issuer : Option ℕ
  pub schema : Option ℕ
  pub root_id : Option ℕ
  pub subject : Option ℕ
  pub control_domain : Option ℕ
  pub derived_from : Parent
  pub rest : ℕ

-- `sig`: missing, with the prefix "hmac-sha256:", or another text.
pub data Signature : Type 0 where
  unsigned : Signature
  hmac_sha256 : ℕ → Signature
  other_signature : ℕ → Signature

-- Keys with their lengths, and control domains, by issuer; and the HMAC of canonical JSON under a key.
pub record Issuers : Type 0 where
  pub issuer_keys : Dict (ℕ × ℕ)
  pub issuer_domains : Dict ℕ
  pub hmac : ℕ → Receipt → ℕ

pub data SigningError : Type 0 where
  key_too_short issuers_differ no_issuer short_issuer_key domain_missing : SigningError

-- `sign_receipt_envelope`
unfoldable pub sign_receipt_envelope : (ℕ → Receipt → ℕ) → ℕ × ℕ → Receipt → Option Signature
sign_receipt_envelope hmac key r = if ltb key.1 32 then none else some (hmac_sha256 (hmac key.0 r))

abbrev pub all_in : List ℕ → List ℕ → Bool
all_in [] ys = true
all_in (x ∷ xs) ys = elem x ys && all_in xs ys

abbrev pub short_key : Dict (ℕ × ℕ) → Bool
short_key [] = false
short_key (k ∷ ks) = ltb k.1.1 32 || short_key ks

abbrev pub empty_domain : Dict ℕ → Bool
empty_domain [] = false
empty_domain (d ∷ ds) = d.1 == 0 || empty_domain ds

-- `__init__`; `none` is its success.
unfoldable pub init_error : Issuers → Option SigningError
init_error t =
    if not (
      all_in (keys t.issuer_keys) (keys t.issuer_domains)
      && all_in (keys t.issuer_domains) (keys t.issuer_keys))
    then some issuers_differ
    else if length t.issuer_keys == 0
    then some no_issuer
    else if short_key t.issuer_keys
    then some short_issuer_key
    else if empty_domain t.issuer_domains
    then some domain_missing
    else none

-- A value of `_claims`.
pub record ClaimRecord : Type 0 where
  pub root_id : ℕ
  pub assertion : ℕ
  pub subject : ℕ
  pub domain : ℕ

-- `_claims` by claim id, and the first claim of each root.
pub record Memory : Type 0 where
  pub claims : Dict ClaimRecord
  pub roots : Dict ℕ

abbrev pub no_memory : Memory
no_memory = record { claims = []; roots = [] }

-- What an authentic receipt says.
pub record Statement : Type 0 where
  pub claim_id : ℕ
  pub entry : ClaimRecord
  pub parent : Parent

-- A text that is there and not empty.
abbrev pub text : Option ℕ → Option ℕ
text none = none
text (some t) = if t == 0 then none else some t

abbrev pub signed_by : Issuers → ℕ × ℕ → Receipt → Signature → Bool
signed_by t key r unsigned = false
signed_by t key r (other_signature s) = false
signed_by t key r (hmac_sha256 m) = m == t.hmac key.0 r

-- The tests of an issuer, a schema, a control domain and a signature; the issuer's domain.
unfoldable pub trusted_domain : Issuers → Receipt → Signature → ℕ → Option ℕ
trusted_domain t r sig issuer = elim (lookup issuer t.issuer_keys) [
  | none ↦ none
  | some key ↦ elim (lookup issuer t.issuer_domains) [
    | none ↦ none
    | some domain ↦
        if same r.schema (some receipt_schema)
          && same r.control_domain (some domain)
          && signed_by t key r sig
        then some domain
        else none
  ]
]

-- `verify` down to the comparison of the signature: what the receipt states, if it is authentic.
unfoldable pub stated : Issuers → Receipt → Signature → Option Statement
unfolding trusted_domain
stated t r sig = elim (text r.claim_id) [
  | none ↦ none
  | some claim ↦ elim r.assertion [
    | none ↦ none
    | some assertion ↦ elim (text r.issuer) [
      | none ↦ none
      | some issuer ↦ elim (text r.root_id) [
        | none ↦ none
        | some root_id ↦ elim (text r.subject) [
          | none ↦ none
          | some subject ↦ elim (trusted_domain t r sig issuer) [
            | none ↦ none
            | some domain ↦ some (record {
              claim_id = claim;
              entry = record {
                root_id = root_id;
                assertion = assertion;
                subject = subject;
                domain = domain;
              };
              parent = r.derived_from;
            })
          ]
        ]
      ]
    ]
  ]
]

-- `==` on two records
abbrev pub same_record : ClaimRecord → ClaimRecord → Bool
same_record a b =
    a.root_id == b.root_id
    && a.assertion == b.assertion
    && a.subject == b.subject
    && a.domain == b.domain

-- `if attest.get("derived_from")`
abbrev pub names_parent : Parent → Bool
names_parent no_parent = false
names_parent (parent_text t) = not (t == 0)
names_parent (other_parent b) = b

abbrev pub is_no_parent : Parent → Bool
is_no_parent no_parent = true
is_no_parent _ = false

-- A claim that was answered before.
abbrev pub again : ClaimRecord → Statement → Verification
again prior s =
    if not (same_record prior s.entry)
    then invalid
    else if names_parent s.parent
    then derived
    else root

-- The record of the parent, where it is a known claim.
abbrev pub parent_record : Parent → Memory → Option ClaimRecord
parent_record no_parent m = none
parent_record (other_parent b) m = none
parent_record (parent_text p) m = lookup p m.claims

abbrev pub same_family : ClaimRecord → ClaimRecord → Bool
same_family p e = p.root_id == e.root_id && p.assertion == e.assertion && p.subject == e.subject

-- An echo of a root that is known.
abbrev pub echo : Statement → Memory → Option ClaimRecord → Verification × Memory
echo s m none = (invalid, m)
echo s m (some p) =
    if same_family p s.entry
    then (derived, record m { claims = insert s.claim_id s.entry m.claims })
    else (invalid, m)

abbrev pub new_root : Statement → Memory → Verification × Memory
new_root s m =
    if is_no_parent s.parent
    then (
      root,
      record {
        claims = insert s.claim_id s.entry m.claims;
        roots = insert s.entry.root_id s.claim_id m.roots;
      },
    )
    else (invalid, m)

-- The rest of `verify`, on an authentic receipt.
unfoldable pub answer : Statement → Memory → Verification × Memory
answer s m = elim (lookup s.claim_id m.claims) [
  | some prior ↦ (again prior s, m)
  | none ↦ elim (lookup s.entry.root_id m.roots) [
    | none ↦ new_root s m
    | some _ ↦ echo s m (parent_record s.parent m)
  ]
]

unfoldable pub verify : Issuers → Receipt → Signature → Memory → Verification × Memory
unfolding stated answer
verify t r sig m = elim (stated t r sig) [ none ↦ (invalid, m) | some s ↦ answer s m ]
