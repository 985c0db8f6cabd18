-- ===== src/Adapter/Envelope.antt =====
-- adapter_acp.py: the envelope as the adapter reads it, `_to_bit` and the verifiers.
use minority_prophet_gate.Base.{
  ℕ, Bool, true, false, ◌&&◌, ◌||◌, Option, none, some, List, [], ◌∷◌, ◌==◌, if◌then◌else◌, is_none,
}
use Prim.Native.String.{String}
use minority_prophet_gate.Base.Json.{Json}
use minority_prophet_gate.Base.Text.{codes, strip, lower, same_codes}

-- `observed_at`: a number, a text that is no time, or a text that names an instant.
pub data Observed : Type 0 where
  at_number unreadable_text at_instant : ℕ → Observed

-- The `attest` block; a missing key is `none`, and a missing block has no key.
pub record Attest : Type 0 where
  pub origin : Option String
  pub origin_class : Option String
  pub witness_depth : Option String
  pub derived_from : Option ℕ
  pub subject : Option ℕ
  pub observed_at_age_s : Option ℕ
  pub observed_at : Option Observed
  pub sig : Option ℕ

pub record Envelope : Type 0 where
  pub claim_id : Option ℕ
  pub assertion : Option Json
  pub attest : Attest

abbrev pub in_texts : List ℕ → List String → Bool
in_texts t [] = false
in_texts t (s ∷ ss) = if same_codes t (codes s) then true else in_texts t ss

abbrev pub truthy_texts : List String
truthy_texts = "1" ∷ "true" ∷ "safe" ∷ "yes" ∷ "pass" ∷ "approve" ∷ []

abbrev pub falsy_texts : List String
falsy_texts = "0" ∷ "false" ∷ "unsafe" ∷ "no" ∷ "fail" ∷ "reject" ∷ []

unfoldable pub text_bit : List ℕ → Option ℕ
text_bit t =
    if in_texts t truthy_texts then some 1 else if in_texts t falsy_texts then some 0 else none

-- `_to_bit`; `none` is its ValueError. The text of any other number, of null, a list or an object
-- is none of the texts above.
unfoldable pub to_bit : Json → Option ℕ
unfolding text_bit strip lower
to_bit (Json.bool b) = some (if b then 1 else 0)
to_bit (Json.num n) = if n == 0 || n == 1 then some n else none
to_bit (Json.str s) = text_bit (lower (strip (codes s)))
to_bit _ = none

pub data Verification : Type 0 where
  root derived invalid : Verification

-- AttestationVerifier, where it answers from the envelope alone, as TrustAllVerifier and a
-- CallbackVerifier over a pure function do.
abbrev pub Verifier : Type 0
Verifier = Envelope → Verification

abbrev has_no_key : Attest → Bool
has_no_key at =
    is_none at.origin
    && is_none at.origin_class
    && is_none at.witness_depth
    && is_none at.derived_from
    && is_none at.subject
    && is_none at.observed_at_age_s
    && is_none at.observed_at
    && is_none at.sig

abbrev names_parent : Option ℕ → Bool
names_parent none = false
names_parent (some p) = if p == 0 then false else true

-- TrustAllVerifier
unfoldable pub trust_all : Verifier
trust_all env =
    if has_no_key env.attest
    then invalid
    else if names_parent env.attest.derived_from
    then derived
    else root
