-- ===== src/Witnesses/Assembly.antt =====
-- Runs of the case store and of the receipt verifier.
use minority_prophet_gate.Base.{ℕ, ◌+◌, ◌≡◌, refl, some, List, [], ◌∷◌, ok, raised}
use minority_prophet_gate.Audit.Event.{envelopes_missing}
use minority_prophet_gate.Adapter.Envelope.{root}
use minority_prophet_gate.Cases.Store.{
  ready, CaseValue, CaseStore, CaseKeys, new_store, opened, case_row, row_at, authenticated,
  case_of, open_case, submit, append, transition, rows_of, envelopes_of,
}
use minority_prophet_gate.Cases.Consistent.{
  contents, IsConsistent, open_case-IsConsistent, new_store-IsConsistent,
}
use minority_prophet_gate.Cases.Forward.{
  Call, opening, submission, transit, run, Continues, run-envelopes,
}
use minority_prophet_gate.Cases.Bound.{run-Continues}
use minority_prophet_gate.Cases.Stale.{submit-envelopes_lost}
use minority_prophet_gate.Receipts.Verifier.{
  no_parent, parent_text, Receipt, hmac_sha256, Issuers, ClaimRecord, Memory, no_memory, Statement,
  sign_receipt_envelope, trusted_domain, stated, answer, verify,
}
use minority_prophet_gate.Receipts.Families.{verify_all, HasFamily, verify_all-families}
use minority_prophet_gate.Receipts.Signed.{IsComplete, sign-verify_promotes}

-- An envelope is its claim id and is its own digest.
abbrev keys : CaseKeys ℕ
keys = record {
  tag_case = λ v. v.envelope_count + 1;
  tag_envelope = λ v. v.claim_id + 2;
  digest_of = λ e. e;
  claim_id_of = λ e. some e;
}

abbrev calls : List (Call ℕ)
calls =
    opening 5 6 7 1
    ∷ submission 5 20 2
    ∷ submission 5 21 3
    ∷ submission 5 20 4
    ∷ transit 5 ready 5
    ∷ []

abbrev after : CaseStore ℕ
after = run keys calls new_store

abbrev value_after : CaseValue
value_after = record (opened keys 5 6 7 1) { state = ready; updated_at = 5; envelope_count = 2 }

run-envelopes_example : envelopes_of keys 5 after ≡ ok (contents (rows_of 5 after.envelopes))
unfolding run open_case append submit row_at transition case_of authenticated
run-envelopes_example = run-envelopes keys calls 5 value_after refl

abbrev just_opened : CaseStore ℕ
just_opened = record { cases = (5, case_row keys (opened keys 5 6 7 1)) ∷ []; envelopes = [] }

run-Continues_example :
    Continues keys 5 just_opened (run keys calls just_opened) (case_row keys (opened keys 5 6 7 1))
run-Continues_example =
    run-Continues keys calls 5 just_opened (case_row keys (opened keys 5 6 7 1)) refl

just_opened-IsConsistent : IsConsistent keys just_opened
unfolding open_case
just_opened-IsConsistent =
    open_case-IsConsistent keys 5 6 7 1 new_store just_opened refl (new_store-IsConsistent keys)

submit-envelopes_lost_example :
    (t u : CaseStore ℕ) × (submit keys (opened keys 5 6 7 1) 5 20 20 2 just_opened ≡ ok t)
    × (submit keys (opened keys 5 6 7 1) 5 21 21 3 t ≡ ok u)
    × (envelopes_of keys 5 u ≡ raised envelopes_missing)
unfolding case_of authenticated row_at
submit-envelopes_lost_example =
    submit-envelopes_lost keys just_opened 5 20 21 20 21 2 3 (opened keys 5 6 7 1)
      just_opened-IsConsistent refl refl refl

abbrev issuers : Issuers
issuers = record {
  issuer_keys = (3, (5, 32)) ∷ [];
  issuer_domains = (3, 4) ∷ [];
  hmac = λ key r. key + r.rest;
}

abbrev receipt : ℕ → Receipt
receipt claim = record {
  claim_id = some claim;
  assertion = some 1;
  issuer = some 3;
  schema = some 1;
  root_id = some 8;
  subject = some 9;
  control_domain = some 4;
  derived_from = no_parent;
  rest = 6;
}

abbrev echoed : Receipt
echoed = record (receipt 12) { derived_from = parent_text 11 }

abbrev says : ClaimRecord
says = record { root_id = 8; assertion = 1; subject = 9; domain = 4 }

abbrev both_known : Memory
both_known =
    verify_all issuers ((receipt 11, hmac_sha256 11) ∷ (echoed, hmac_sha256 11) ∷ []) no_memory

verify_all-families_example :
    (says.assertion ≡ says.assertion) × (says.subject ≡ says.subject) × HasFamily both_known says
unfolding verify_all verify stated answer trusted_domain
verify_all-families_example =
    verify_all-families issuers ((receipt 11, hmac_sha256 11) ∷ (echoed, hmac_sha256 11) ∷ []) 11 12
      says says refl refl refl

abbrev statement : Statement
statement = record { claim_id = 12; entry = says; parent = no_parent }

receipt-IsComplete : IsComplete issuers (receipt 12) statement (5, 32) 3
receipt-IsComplete = record {
  claim = refl;
  assertion = refl;
  issued = refl;
  rooted = refl;
  subject = refl;
  schema = refl;
  keyed = refl;
  domain = refl;
  controlled = refl;
  parent = refl;
}

sign-verify_promotes_example :
    verify issuers (receipt 12) (hmac_sha256 11) both_known ≡ (root, both_known)
unfolding verify_all verify stated answer trusted_domain sign_receipt_envelope
sign-verify_promotes_example =
    sign-verify_promotes issuers (receipt 12) statement (5, 32) 3 (hmac_sha256 11) both_known
      receipt-IsComplete refl refl refl
