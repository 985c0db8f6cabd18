-- ===== src/Witnesses/Routing.antt =====
-- Runs of the audit log and of the router.
use minority_prophet_gate.Base.{
  ℕ, ◌+◌, ◌≡◌, refl, ap, true, false, none, some, List, [], ◌∷◌, arith, ltb, ok,
}
use minority_prophet_gate.Request.Policy.{CollectorRoute, EvidenceRequirement}
use minority_prophet_gate.Request.Challenge.{EvidenceRequest, challenge, verify_evidence_request}
use minority_prophet_gate.Audit.Event.{
  Unsigned, EvidenceAuditEvent, Entry, has, has_challenge, verify_event,
}
use minority_prophet_gate.Audit.Log.{
  holds, EvidenceAuditLog, load_line, load, new_log, written, append,
}
use minority_prophet_gate.Audit.Chain.{new_log-binding}
use minority_prophet_gate.Audit.Interface.{AuditLog, memory_log}
use minority_prophet_gate.Router.Types.{
  pos, EvidenceDispatch, Digests, CollectedEvidence, EvidenceCollectionResult, completed, Details,
  digest, digests, verify_integrity,
}
use minority_prophet_gate.Router.Plan.{
  add_requirement, group, place, by_route, route_item_cap, dispatch_of, dispatches, append_new,
  note_received, note_planned, note_all, note_plan, plan_groups, plan_received, plan,
}
use minority_prophet_gate.Router.Checks.{
  verify_dispatch, verify_collector, verify_authorization, requirement_of, verify_kinds,
  verify_item, verify_items, verify_result,
}
use minority_prophet_gate.Router.Site.{Collector, Site, RouterState, terminal}
use minority_prophet_gate.Router.Dispatch.{
  refuse, failed, returned, stored, keep, collected, start, denied, authorized, ask, first_dispatch,
  unanswered, dispatch,
}
use minority_prophet_gate.Router.Calls.{Call, dispatched, restarted, after_all}
use minority_prophet_gate.Router.Once.{Once}
use minority_prophet_gate.Router.Schedule.{after_all-Once}
use minority_prophet_gate.Router.Fresh.{IsCollected, dispatch-IsCollected}
use minority_prophet_gate.Router.Caps.{IsShared, plan-IsShared}
use minority_prophet_gate.Witnesses.Samples.{envelope}
use minority_prophet_gate.Witnesses.Requests.{host, first, route, requirement}

abbrev entry : ℕ → Entry ℕ
entry details = record {
  event_type = 2;
  challenge_id = 101;
  dispatch_id = some 3;
  route_id = none;
  details = details;
}

abbrev empty_log : EvidenceAuditLog ℕ
empty_log = record { file = some []; events = [] }

abbrev by_sequence : Unsigned ℕ → ℕ
by_sequence p = p.sequence + 40

abbrev one_event : EvidenceAuditEvent ℕ
one_event = written by_sequence (λ n. n) (entry 6) []

abbrev two_events : List (EvidenceAuditEvent ℕ)
two_events = written by_sequence (λ n. n) (entry 7) (one_event ∷ []) ∷ one_event ∷ []

abbrev two_lines : EvidenceAuditLog ℕ
two_lines = record {
  file =
      some (holds one_event ∷ holds (written by_sequence (λ n. n) (entry 7) (one_event ∷ [])) ∷ []);
  events = two_events;
}

-- A hash that is the same for all payloads.
abbrev constant : Unsigned ℕ → ℕ
constant p = 5

abbrev event_with : ℕ → EvidenceAuditEvent ℕ
event_with details = written constant (λ n. n) (entry details) []

abbrev log_with : ℕ → EvidenceAuditLog ℕ
log_with details = record {
  file = some (holds (event_with details) ∷ []);
  events = event_with details ∷ [];
}

abbrev first_details : List (EvidenceAuditEvent ℕ) → ℕ
first_details [] = 0
first_details (e ∷ es) = e.payload.details

new_log-binding_example : ¬ ((p q : Unsigned ℕ) → constant p ≡ constant q → p ≡ q)
unfolding new_log load load_line verify_event
new_log-binding_example =
    new_log-binding constant (holds (event_with 6) ∷ []) (holds (event_with 7) ∷ []) (log_with 6)
      (log_with 7) refl refl refl
      (λ h. let q : 6 ≡ 7 = ap first_details h in absurd (omega (arith, q)))

abbrev pub digests_of : Digests
digests_of = record {
  dispatch_digest = λ p. 50 + p.route.route_id;
  envelope_digest_of = λ e. 60;
  item_digest = λ requirement_id kind envelope_digest. requirement_id + kind + envelope_digest;
}

abbrev pub log : AuditLog Details (EvidenceAuditLog Details)
log = memory_log (λ p. p.sequence) (λ n. n)

abbrev pub no_events : EvidenceAuditLog Details
no_events = record { file = none; events = [] }

abbrev pub the_dispatch : EvidenceDispatch
the_dispatch = dispatch_of digests_of 9 first (route, requirement ∷ []) (pos 3)

-- A challenge with three requirements on two routes, the second of which comes first in the order.
abbrev near : CollectorRoute
near = record route { route_id = 0 }

abbrev of_near : EvidenceRequirement
of_near = record requirement { requirement_id = 7; collector_route = near }

abbrev last_one : EvidenceRequirement
last_one = record requirement { requirement_id = 8 }

abbrev wide : EvidenceRequest
wide = record first {
  payload =
      challenge host
        (record {
          requirements = requirement ∷ of_near ∷ last_one ∷ [];
          max_rounds = 2;
          max_evidence_items_per_round = 6;
        })
        21 22 23 24 (1, none);
}

abbrev shared : List EvidenceDispatch
shared =
    dispatch_of digests_of 9 wide (near, of_near ∷ []) (pos 3)
    ∷ dispatch_of digests_of 9 wide (route, requirement ∷ last_one ∷ []) (pos 3)
    ∷ []

plan-IsShared_example : IsShared digests_of wide shared
unfolding plan plan_received plan_groups note_received note_plan note_all note_planned append_new
    append has has_challenge group add_requirement by_route place dispatches route_item_cap
    verify_evidence_request
plan-IsShared_example =
    plan-IsShared log digests_of ltb 9 wide (omega arith) host no_events shared refl

abbrev item : CollectedEvidence
item = record {
  requirement_id = 4;
  evidence_kind = 6;
  envelope = record { body = envelope 7 true; attested_kind = some 6 };
  envelope_digest = 60;
}

abbrev pub result : EvidenceCollectionResult
result = record {
  dispatch_id = 51;
  challenge_id = 101;
  collector_id = 8;
  status = completed;
  items = item ∷ [];
  grants_protected_action_authority = false;
}

abbrev collector : Collector ℕ
collector = record {
  descriptor = record {
    collector_id = 8;
    collector_kind = route.collector_kind;
    capabilities = 2 ∷ [];
    control_domain = 9;
  };
  collect = λ d w. (ok result, w + 1);
}

abbrev pub site : Site log ℕ
site = record {
  collectors = (1, collector) ∷ [];
  authorize = λ d c w. (
    ok (
        some (record {
          authorization_id = 70;
          dispatch_id = d.dispatch_id;
          challenge_id = d.payload.challenge_id;
          collector_id = c.collector_id;
          allowed_actions = d.payload.route.allowed_actions;
          grants_protected_action_authority = false;
        })),
    w,
  );
  artifact_store = none;
}

abbrev at_first : RouterState (EvidenceAuditLog Details) ℕ
at_first = record { log = no_events; results = []; world = 0 }

dispatch-IsCollected_example :
    IsCollected log digests_of site the_dispatch result at_first
      (dispatch log digests_of site the_dispatch at_first).1
unfolding dispatch unanswered first_dispatch ask authorized start collected keep stored returned
    refuse denied failed append has terminal verify_dispatch verify_collector verify_authorization
    verify_result verify_items verify_item verify_kinds requirement_of verify_integrity digests
    digest
dispatch-IsCollected_example =
    dispatch-IsCollected log digests_of site the_dispatch result at_first refl refl

abbrev schedule : List (Call log ℕ)
schedule = dispatched site the_dispatch ∷ restarted ∷ dispatched site the_dispatch ∷ []

abbrev at_last : RouterState (EvidenceAuditLog Details) (ℕ × List ℕ)
at_last =
    after_all log digests_of host (λ a b. true) schedule
      (record { log = no_events; results = []; world = (0, []) })

after_all-Once_example : Once log 51 at_last.log at_last.world.1
after_all-Once_example = after_all-Once log digests_of host (λ a b. true) schedule no_events 0 51
