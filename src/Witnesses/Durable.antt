-- ===== src/Witnesses/Durable.antt =====
-- Runs of the ledger.
use minority_prophet_gate.Base.{
  ℕ, ◌+◌, ◌≡◌, ◌≤◌, refl, none, some, List, [], ◌∷◌, All, length, ok, raised, Outcome,
}
use minority_prophet_gate.Audit.Event.{RoutingError, EvidenceAuditEvent, Entry}
use minority_prophet_gate.Audit.Log.{EvidenceAuditLog}
use minority_prophet_gate.Audit.Log
use minority_prophet_gate.Audit.Interface.{
  route_planned, dispatch_authorized, dispatch_started, collection_returned,
}
use minority_prophet_gate.Router.Types.{digest, verify_integrity, envelope_copy}
use minority_prophet_gate.Ledger.Tables.{Ledger, Keys, new_ledger, state_of}
use minority_prophet_gate.Ledger.Artifacts.{
  verify_artifacts, verify_reviews, persist_item, persist_items, persist_collection_result,
}
use minority_prophet_gate.Ledger.Verify.{
  noted, agree_on, same_states, verify_readable, verify_row, verify_rows, verify_tables, events,
}
use minority_prophet_gate.Ledger.Append.{hash_taken, move, append, append_all}
use minority_prophet_gate.Ledger.Machine.{IsRun, history}
use minority_prophet_gate.Ledger.Refines.{append_all-refines}
use minority_prophet_gate.Ledger.Runs.{append_all-IsRun}
use minority_prophet_gate.Ledger.Store.{IsStored}
use minority_prophet_gate.Ledger.Persist.{persist-IsStored}
use minority_prophet_gate.Witnesses.Routing.{digests_of, the_dispatch, result}

abbrev keys : Keys ℕ
keys = record {
  hash_json = λ p. p.sequence + 40;
  digests = digests_of;
  tag_event = λ e t. e.event_hash + 1;
  tag_artifact = λ a. a.evidence_digest + 2;
  tag_review = λ v. v.dispatch_id + 3;
}

abbrev entry : ℕ → Entry ℕ
entry kind = record {
  event_type = kind;
  challenge_id = 101;
  dispatch_id = some 51;
  route_id = some 1;
  details = 0;
}

abbrev whole_run : List (Entry ℕ)
whole_run =
    entry route_planned
    ∷ entry dispatch_authorized
    ∷ entry dispatch_started
    ∷ entry collection_returned
    ∷ []

abbrev ledger_or_new : Outcome RoutingError (Ledger ℕ) → Ledger ℕ
ledger_or_new (ok m) = m
ledger_or_new (raised e) = new_ledger

abbrev events_or_none :
    Outcome RoutingError (List (EvidenceAuditEvent ℕ)) → List (EvidenceAuditEvent ℕ)
events_or_none (ok es) = es
events_or_none (raised e) = []

abbrev filled : Ledger ℕ
filled = ledger_or_new (append_all keys (λ n. n) whole_run new_ledger)

append_all-refines_example :
    (fs : List (EvidenceAuditEvent ℕ)) × (events keys filled ≡ ok fs)
    × (Log.append_all keys.hash_json (λ n. n) whole_run (record { file = none; events = [] })
        ≡ ok (record { file = none; events = fs }))
unfolding append_all append events verify_rows verify_row verify_readable verify_tables
    verify_artifacts verify_reviews same_states agree_on noted move hash_taken state_of
append_all-refines_example = append_all-refines keys (λ n. n) whole_run filled refl

abbrev read_back : List (EvidenceAuditEvent ℕ)
read_back = events_or_none (events keys filled)

append_all-IsRun_example : IsRun (history 51 read_back) × (length (history 51 read_back) ≤ 4)
unfolding append_all append events verify_rows verify_row verify_readable verify_tables
    verify_artifacts verify_reviews same_states agree_on noted move hash_taken state_of
append_all-IsRun_example = append_all-IsRun keys (λ n. n) whole_run filled read_back 51 refl refl

abbrev stored : Ledger ℕ
stored = ledger_or_new (persist_collection_result keys (λ n. n) the_dispatch result new_ledger)

persist-IsStored_example :
    (events keys stored ≡ events keys new_ledger)
    × All (IsStored keys (λ n. n) the_dispatch stored) result.items
unfolding persist_collection_result persist_items persist_item envelope_copy digest verify_integrity
    verify_artifacts
persist-IsStored_example =
    persist-IsStored keys (λ n. n) the_dispatch result new_ledger stored refl refl
