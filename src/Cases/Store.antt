-- ===== src/Cases/Store.antt =====
-- case_store.py: AuthenticatedSqliteCaseStore. An operation that raises leaves the store as it was, so
-- it gives no store; `now` is what the clock gives to the call.
use minority_prophet_gate.Base.{
  ℕ, ◌+◌, Bool, true, false, not, ◌&&◌, ◌||◌, Option, none, some, List, [], ◌∷◌, ◌++◌, ◌==◌,
  if◌then◌else◌, length, Dict, lookup, insert, Outcome, ok, raised, ◌>>=◌, ◌>>◌, raise_if,
}
use minority_prophet_gate.Audit.Event.{
  RoutingError, case_fields_required, case_rebound, case_unknown, case_tag_invalid, case_closed,
  claim_id_required, claim_rebound, envelopes_missing, envelope_tag_invalid,
  envelope_digest_invalid, case_state_invalid, case_transition_invalid,
}

pub data CaseState : Type 0 where
  collecting ready decided expired : CaseState

-- `_case_value`
pub record CaseValue : Type 0 where
  pub case_id : ℕ
  pub action_digest : ℕ
  pub policy_digest : ℕ
  pub state : CaseState
  pub opened_at : ℕ
  pub updated_at : ℕ
  pub envelope_count : ℕ

-- A row of `evidence_cases`.
pub record CaseRow : Type 0 where
  pub value : CaseValue
  pub authentication_tag : ℕ

-- What the tag of an envelope is made of.
pub record EnvelopeValue : Type 0 where
  pub case_id : ℕ
  pub claim_id : ℕ
  pub envelope_digest : ℕ
  pub submitted_at : ℕ

-- A row of `case_envelopes`, for envelopes of type `E`.
pub record EnvelopeRow (E : Type 0) : Type 0 where
  pub value : EnvelopeValue
  pub envelope : E
  pub authentication_tag : ℕ

-- `evidence_cases` by case id, and `case_envelopes` in the order of insertion.
pub record CaseStore (E : Type 0) : Type 0 where
  pub cases : Dict CaseRow
  pub envelopes : List (EnvelopeRow E)

-- `_tag` under the store's key, the digest of canonical JSON, and an envelope's claim id where it is a
-- dict that has one as a text.
pub record CaseKeys (E : Type 0) : Type 0 where
  pub tag_case : CaseValue → ℕ
  pub tag_envelope : EnvelopeValue → ℕ
  pub digest_of : E → ℕ
  pub claim_id_of : E → Option ℕ

abbrev pub new_store : {E : Type 0} → CaseStore E
new_store = record { cases = []; envelopes = [] }

abbrev pub is_collecting : CaseState → Bool
is_collecting collecting = true
is_collecting _ = false

-- `allowed`
abbrev pub may_become : CaseState → CaseState → Bool
may_become collecting ready = true
may_become collecting expired = true
may_become ready decided = true
may_become ready expired = true
may_become _ _ = false

module _ {E : Type 0} where
  -- `WHERE case_id=?`
  unfoldable pub rows_of : ℕ → List (EnvelopeRow E) → List (EnvelopeRow E)
  rows_of id [] = []
  rows_of id (r ∷ rs) = let rest = rows_of id rs in if r.value.case_id == id then r ∷ rest else rest

  -- The row with this primary key.
  unfoldable pub row_at : ℕ → ℕ → List (EnvelopeRow E) → Option (EnvelopeRow E)
  row_at id claim [] = none
  row_at id claim (r ∷ rs) =
      if r.value.case_id == id && r.value.claim_id == claim then some r else row_at id claim rs

  module _ (key : CaseKeys E) where
    unfoldable pub authenticated : CaseRow → Outcome RoutingError CaseValue
    authenticated row = do
      raise_if (not (row.authentication_tag == key.tag_case row.value)) case_tag_invalid
      ok row.value

    -- `case`
    unfoldable pub case_of : ℕ → CaseStore E → Outcome RoutingError CaseValue
    unfolding authenticated
    case_of id s = elim (lookup id s.cases) [
      | none ↦ raised case_unknown
      | some row ↦ authenticated row
    ]

    abbrev pub case_row : CaseValue → CaseRow
    case_row v = record { value = v; authentication_tag = key.tag_case v }

    abbrev pub opened : ℕ → ℕ → ℕ → ℕ → CaseValue
    opened id action policy now = record {
      case_id = id;
      action_digest = action;
      policy_digest = policy;
      state = collecting;
      opened_at = now;
      updated_at = now;
      envelope_count = 0;
    }

    unfoldable pub open_case : ℕ → ℕ → ℕ → ℕ → CaseStore E → Outcome RoutingError (CaseStore E)
    unfolding case_of
    open_case id action policy now s =
        raise_if (id == 0 || action == 0 || policy == 0) case_fields_required
        >> elim (lookup id s.cases) [
          | none ↦
              ok (record s { cases = insert id (case_row (opened id action policy now)) s.cases })
          | some _ ↦ case_of id s >>= λ existing.
              raise_if (not (existing.action_digest == action && existing.policy_digest == policy))
                case_rebound
              >> ok s
        ]

    -- `if not isinstance(claim_id, str) or not claim_id`
    abbrev pub checked_claim : Option ℕ → Outcome RoutingError ℕ
    checked_claim none = raised claim_id_required
    checked_claim (some t) = if t == 0 then raised claim_id_required else ok t

    abbrev pub envelope_row : ℕ → ℕ → E → ℕ → EnvelopeRow E
    envelope_row id claim envelope now =
        let value : EnvelopeValue = record {
          case_id = id;
          claim_id = claim;
          envelope_digest = key.digest_of envelope;
          submitted_at = now;
        } in
        record { value = value; envelope = envelope; authentication_tag = key.tag_envelope value }

    -- The columns that the UPDATE of `append` sets, and the tag of the case as it was read. The state
    -- column stays.
    abbrev pub recounted : CaseValue → ℕ → CaseRow → CaseRow
    recounted read now row =
        let updated : CaseValue = record read {
          envelope_count = read.envelope_count + 1;
          updated_at = now;
        } in
        record {
          value = record row.value { updated_at = now; envelope_count = updated.envelope_count };
          authentication_tag = key.tag_case updated;
        }

    -- `UPDATE … WHERE case_id=?`
    abbrev pub update_case : ℕ → (CaseRow → CaseRow) → Dict CaseRow → Dict CaseRow
    update_case id f cases = elim (lookup id cases) [
      | none ↦ cases
      | some row ↦ insert id (f row) cases
    ]

    -- The transaction of `append`, for a case as it was read before it began.
    unfoldable pub submit :
        CaseValue → ℕ → ℕ → E → ℕ → CaseStore E → Outcome RoutingError (CaseStore E)
    unfolding row_at
    submit read id claim envelope now s = elim (row_at id claim s.envelopes) [
      | some row ↦
          if row.value.envelope_digest == key.digest_of envelope then ok s else raised claim_rebound
      | none ↦ ok (record {
        cases = update_case id (recounted read now) s.cases;
        envelopes = s.envelopes ++ envelope_row id claim envelope now ∷ [];
      })
    ]

    unfoldable pub append : ℕ → E → ℕ → CaseStore E → Outcome RoutingError (CaseStore E)
    unfolding case_of submit
    append id envelope now s = do
      read ← case_of id s
      raise_if (not (is_collecting read.state)) case_closed
      claim ← checked_claim (key.claim_id_of envelope)
      submit read id claim envelope now s

    -- One turn of the loop of `envelopes`; the JSON reads as the envelope that was written.
    unfoldable pub read_row : EnvelopeRow E → Outcome RoutingError E
    read_row row = do
      raise_if (not (row.authentication_tag == key.tag_envelope row.value)) envelope_tag_invalid
      raise_if (not (key.digest_of row.envelope == row.value.envelope_digest))
          envelope_digest_invalid
      ok row.envelope

    unfoldable pub read_rows : List (EnvelopeRow E) → Outcome RoutingError (List E)
    unfolding read_row
    read_rows [] = ok []
    read_rows (r ∷ rs) = read_row r >>= λ e. read_rows rs >>= λ es. ok (e ∷ es)

    unfoldable pub envelopes_of : ℕ → CaseStore E → Outcome RoutingError (List E)
    unfolding case_of rows_of read_rows
    envelopes_of id s = do
      v ← case_of id s
      raise_if (not (length (rows_of id s.envelopes) == v.envelope_count)) envelopes_missing
      read_rows (rows_of id s.envelopes)

    unfoldable pub transition : ℕ → CaseState → ℕ → CaseStore E → Outcome RoutingError (CaseStore E)
    unfolding case_of
    transition id state now s = do
      raise_if (is_collecting state) case_state_invalid
      v ← case_of id s
      raise_if (not (may_become v.state state)) case_transition_invalid
      let changed = record v { state = state; updated_at = now }
      ok (record s { cases = insert id (case_row changed) s.cases })
