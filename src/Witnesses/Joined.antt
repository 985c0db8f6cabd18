-- ===== src/Witnesses/Joined.antt =====
-- A run of the control plane over the router.
use minority_prophet_gate.Base.{ℕ, ◌≡◌, refl, true, List, [], ◌∷◌}
use minority_prophet_gate.Adapter.Envelope.{to_bit, trust_all}
use minority_prophet_gate.Audit.Log.{EvidenceAuditLog, append}
use minority_prophet_gate.Router.Types.{Details, digests}
use minority_prophet_gate.Adapter.Depth.{stated_depth}
use minority_prophet_gate.Aggregator.Tally.{tally}
use minority_prophet_gate.Aggregator.Attack.{aggregate}
use minority_prophet_gate.Gate.Assess.{assess}
use minority_prophet_gate.Request.Policy.{same_requirements}
use minority_prophet_gate.Runtime.Controller.{apply}
use minority_prophet_gate.Router.Checks.{
  verify_dispatch, verify_collector, verify_authorization, verify_result,
}
use minority_prophet_gate.Router.Site.{RouterState}
use minority_prophet_gate.Router.Calls.{recording_site}
use minority_prophet_gate.Router.Once.{Once}
use minority_prophet_gate.ControlPlane.Types.{Collection}
use minority_prophet_gate.ControlPlane.Request.{PlaneState}
use minority_prophet_gate.ControlPlane.Routed.{routed, Request, run_all, new_plane, run_all-Once}
use minority_prophet_gate.Witnesses.Samples.{charge, counting}
use minority_prophet_gate.Witnesses.Requests.{host}
use minority_prophet_gate.Witnesses.Routing.{digests_of, log, no_events}
use minority_prophet_gate.Witnesses.Routing as Routing
use minority_prophet_gate.Witnesses.Plane.{control, empty, site, alone}

abbrev router : Collection (RouterState (EvidenceAuditLog Details) (ℕ × List ℕ))
router = routed log digests_of host (λ a b. true) trust_all (recording_site log Routing.site)

-- The same request, twice.
abbrev requests : List (Request ℕ)
requests =
    let request : Request ℕ = record {
      action = charge;
      policy = control;
      evidence = empty;
      autonomy = alone;
    } in
    request ∷ request ∷ []

abbrev at_last : PlaneState (RouterState (EvidenceAuditLog Details) (ℕ × List ℕ)) ℕ
at_last =
    run_all site router counting requests
      (new_plane no_events 0 (record { prepared = []; ledger = []; world = 0 }))

-- The first run has its collector called once, and the second is answered from memory.
at_last-calls : at_last.collection.world.1 ≡ 51 ∷ []
unfolding run_all routed assess append verify_dispatch verify_collector verify_authorization
    verify_result digests same_requirements to_bit trust_all aggregate tally stated_depth apply
at_last-calls = refl

run_all-Once_example : Once log 51 at_last.collection.log at_last.collection.world.1
run_all-Once_example =
    run_all-Once log digests_of host (λ a b. true) trust_all Routing.site site counting requests
      no_events 0 (record { prepared = []; ledger = []; world = 0 }) 51
