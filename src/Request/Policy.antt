-- ===== src/Request/Policy.antt =====
-- evidence_request.py: `_text`, CollectorRoute, EvidenceRequirement and EvidenceRequestPolicy.
use minority_prophet_gate.Base.{
  ℕ, suc, Bool, true, false, not, ◌&&◌, List, [], ◌∷◌, ◌==◌, leb, ltb, if◌then◌else◌, elem, length,
  Outcome, ok, raised, ◌>>=◌, ◌>>◌, raise_if,
}

-- EvidenceRequestError by what is wrong, and EvidenceRequestExhausted.
pub data RequestError : Type 0 where
  text_required values_repeated unknown_kind unknown_role role_mismatch : RequestError
  action_required dependent_agent kind_required requirement_required ids_repeated : RequestError
  rounds_out_of_range items_out_of_range items_too_few : RequestError
  unsupported_schema authority_claimed integrity_failed round_invalid exhausted : RequestError
  action_substituted subject_substituted policy_substituted digest_substituted : RequestError
  requirements_substituted rounds_substituted items_substituted : RequestError

-- `_text`: `strip` is Python's on the numbered texts, and gives 0 where nothing is left.
unfoldable pub checked_text : (ℕ → ℕ) → ℕ → Outcome RequestError ℕ
checked_text strip t = if strip t == 0 then raised text_required else ok (strip t)

unfoldable pub texts : (ℕ → ℕ) → List ℕ → Outcome RequestError (List ℕ)
unfolding checked_text
texts strip [] = ok []
texts strip (t ∷ ts) = checked_text strip t >>= λ u. texts strip ts >>= λ us. ok (u ∷ us)

abbrev pub all_distinct : List ℕ → Bool
all_distinct [] = true
all_distinct (x ∷ xs) = if elem x xs then false else all_distinct xs

-- `_unique_text`
unfoldable pub unique_texts : (ℕ → ℕ) → List ℕ → Outcome RequestError (List ℕ)
unfolding texts
unique_texts strip ts =
    texts strip ts >>= λ us. if all_distinct us then ok us else raised values_repeated

pub data CollectorKind : Type 0 where
  requesting_agent epistemic_service human program : CollectorKind
  other_kind : ℕ → CollectorKind

pub data OutputRole : Type 0 where
  candidate_evidence verification_artifact human_handoff : OutputRole
  other_role : ℕ → OutputRole

abbrev pub known_kind : CollectorKind → Bool
known_kind (other_kind _) = false
known_kind _ = true

abbrev pub known_role : OutputRole → Bool
known_role (other_role _) = false
known_role _ = true

-- `expected_roles`: a program may have any role.
abbrev pub role_fits : CollectorKind → OutputRole → Bool
role_fits requesting_agent candidate_evidence = true
role_fits requesting_agent _ = false
role_fits epistemic_service verification_artifact = true
role_fits epistemic_service _ = false
role_fits human human_handoff = true
role_fits human _ = false
role_fits _ _ = true

abbrev pub is_agent : CollectorKind → Bool
is_agent requesting_agent = true
is_agent _ = false

pub record CollectorRoute : Type 0 where
  pub route_id : ℕ
  pub collector_kind : CollectorKind
  pub capability : ℕ
  pub output_role : OutputRole
  pub allowed_actions : List ℕ
  pub requires_independence : Bool

pub record EvidenceRequirement : Type 0 where
  pub requirement_id : ℕ
  pub description : ℕ
  pub collector_route : CollectorRoute
  pub accepted_kinds : List ℕ

pub record EvidenceRequestPolicy : Type 0 where
  pub requirements : List EvidenceRequirement
  pub max_rounds : ℕ
  pub max_evidence_items_per_round : ℕ

-- `CollectorRoute.__post_init__`
unfoldable pub new_route : (ℕ → ℕ) → CollectorRoute → Outcome RequestError CollectorRoute
unfolding checked_text unique_texts
new_route strip r = do
  route_id ← checked_text strip r.route_id
  raise_if (not (known_kind r.collector_kind)) unknown_kind
  capability ← checked_text strip r.capability
  raise_if (not (known_role r.output_role)) unknown_role
  raise_if (not (role_fits r.collector_kind r.output_role)) role_mismatch
  actions ← unique_texts strip r.allowed_actions
  raise_if (length actions == 0) action_required
  raise_if (is_agent r.collector_kind && r.requires_independence) dependent_agent
  ok (record r { route_id = route_id; capability = capability; allowed_actions = actions })

-- `EvidenceRequirement.__post_init__`
unfoldable pub new_requirement :
    (ℕ → ℕ) → EvidenceRequirement → Outcome RequestError EvidenceRequirement
unfolding checked_text unique_texts
new_requirement strip r = do
  requirement_id ← checked_text strip r.requirement_id
  description ← checked_text strip r.description
  kinds ← unique_texts strip r.accepted_kinds
  raise_if (length kinds == 0) kind_required
  ok (record r {
    requirement_id = requirement_id;
    description = description;
    accepted_kinds = kinds;
  })

abbrev pub requirement_ids : List EvidenceRequirement → List ℕ
requirement_ids [] = []
requirement_ids (r ∷ rs) = r.requirement_id ∷ requirement_ids rs

-- `EvidenceRequestPolicy.__post_init__`
unfoldable pub new_policy : EvidenceRequestPolicy → Outcome RequestError EvidenceRequestPolicy
new_policy p = do
  raise_if (length p.requirements == 0) requirement_required
  raise_if (not (all_distinct (requirement_ids p.requirements))) ids_repeated
  raise_if (not (leb 1 p.max_rounds && leb p.max_rounds 10)) rounds_out_of_range
  raise_if (not (leb 1 p.max_evidence_items_per_round && leb p.max_evidence_items_per_round 1000))
      items_out_of_range
  raise_if (ltb p.max_evidence_items_per_round (length p.requirements)) items_too_few
  ok p

-- `==` on requirements.
abbrev pub kind_code : CollectorKind → ℕ
kind_code requesting_agent = 0
kind_code epistemic_service = 1
kind_code human = 2
kind_code program = 3
kind_code (other_kind t) = suc (suc (suc (suc t)))

abbrev pub role_code : OutputRole → ℕ
role_code candidate_evidence = 0
role_code verification_artifact = 1
role_code human_handoff = 2
role_code (other_role t) = suc (suc (suc t))

abbrev pub same_texts : List ℕ → List ℕ → Bool
same_texts [] [] = true
same_texts [] (_ ∷ _) = false
same_texts (_ ∷ _) [] = false
same_texts (x ∷ xs) (y ∷ ys) = if x == y then same_texts xs ys else false

abbrev pub same_flag : Bool → Bool → Bool
same_flag true b = b
same_flag false b = not b

abbrev pub same_route : CollectorRoute → CollectorRoute → Bool
same_route r s =
    r.route_id == s.route_id
    && kind_code r.collector_kind == kind_code s.collector_kind
    && r.capability == s.capability
    && role_code r.output_role == role_code s.output_role
    && same_texts r.allowed_actions s.allowed_actions
    && same_flag r.requires_independence s.requires_independence

abbrev pub same_requirement : EvidenceRequirement → EvidenceRequirement → Bool
same_requirement r s =
    r.requirement_id == s.requirement_id
    && r.description == s.description
    && same_route r.collector_route s.collector_route
    && same_texts r.accepted_kinds s.accepted_kinds

unfoldable pub same_requirements : List EvidenceRequirement → List EvidenceRequirement → Bool
same_requirements [] [] = true
same_requirements [] (_ ∷ _) = false
same_requirements (_ ∷ _) [] = false
same_requirements (r ∷ rs) (s ∷ ss) =
    if same_requirement r s then same_requirements rs ss else false
