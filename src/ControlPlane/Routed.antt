-- ===== src/ControlPlane/Routed.antt =====
-- The control plane over the router of minority_prophet/evidence_router.py and the bridge of an
-- embedded install (minority_prophet/control_plane.py, CandidateEvidenceBridge).
use minority_prophet_gate.Base.{
  ℕ, Bool, true, false, some, List, [], ◌∷◌, if◌then◌else◌, Outcome, ok, raised, ◌>>=◌, arith, refl,
  map,
}
use minority_prophet_gate.Adapter.Envelope.{Verifier}
use minority_prophet_gate.Runtime.Action.{RuntimeAction}
use minority_prophet_gate.Runtime.Adapter.{RuntimeAdapter}
use minority_prophet_gate.Autonomy.Controller.{State}
use minority_prophet_gate.Request.Challenge.{Host, EvidenceRequest}
use minority_prophet_gate.Selective.Types.{
  Route, deterministic, evidence, evidence_collection, human, SelectiveDecision,
}
use minority_prophet_gate.Audit.Event.{RoutingError}
use minority_prophet_gate.Audit.Interface.{AuditLog}
use minority_prophet_gate.Router.Types.{Digests, Details, EvidenceCollectionResult, envelopes}
use minority_prophet_gate.Router.Checks.{is_completed}
use minority_prophet_gate.Router.Site as RouterSite
use minority_prophet_gate.Router.Site.{RouterState}
use minority_prophet_gate.Router.Collect.{GateOutcome, record_gate_decision, collect}
use minority_prophet_gate.Router.Calls.{recording_site, log_after}
use minority_prophet_gate.Router.Once.{Once, IsOnce}
use minority_prophet_gate.Router.Schedule.{collect-IsOnce}
use minority_prophet_gate.Router.Unsent.{decision-Once}
use minority_prophet_gate.ControlPlane.Types as Plane
use minority_prophet_gate.ControlPlane.Types.{
  VerifiedEvidenceBatch, Collection, EvidenceControlPolicy, candidate_verify,
}
use minority_prophet_gate.ControlPlane.Request.{Site, AutonomyRequest, PlaneState}
use minority_prophet_gate.ControlPlane.Run.{run}
use minority_prophet_gate.ControlPlane.Keeps.{IsKept, run-keeps}

-- The type of what the router raises.
abbrev pub routing_error : ℕ
routing_error = 1

-- A result as the bridge reads it: `result.envelopes` of a completed one, which checks each copy.
unfoldable pub as_read :
    Digests → EvidenceCollectionResult → Outcome RoutingError Plane.EvidenceCollectionResult
unfolding envelopes
as_read hash r =
    if is_completed r.status
    then (envelopes hash r.items >>= λ es.
        ok (record { completed = true; envelopes = map (λ e. e.body) es }))
    else ok (record { completed = false; envelopes = [] })

unfoldable pub all_read :
    Digests
    → List EvidenceCollectionResult
    → Outcome RoutingError (List Plane.EvidenceCollectionResult)
unfolding as_read
all_read hash [] = ok []
all_read hash (r ∷ rs) = as_read hash r >>= λ x. all_read hash rs >>= λ xs. ok (x ∷ xs)

unfoldable pub results_read :
    Digests
    → Outcome RoutingError (List EvidenceCollectionResult)
    → Outcome ℕ (List Plane.EvidenceCollectionResult)
unfolding all_read
results_read hash (raised e) = raised routing_error
results_read hash (ok rs) = elim (all_read hash rs) [
  | raised e ↦ raised routing_error
  | ok xs ↦ ok xs
]

-- The text of a route.
abbrev pub route_code : Route → ℕ
route_code deterministic = 1
route_code evidence = 2
route_code evidence_collection = 3
route_code human = 4

-- A final decision on evidence that was returned for a challenge names the challenge in its
-- diagnostics: the ladder and the `except` branch both write it.
abbrev pub outcome_for : EvidenceRequest → SelectiveDecision → GateOutcome
outcome_for r d = record {
  action = d.action;
  route = some (route_code d.route);
  returned_for_challenge_id = some r.challenge_id;
}

abbrev pub recorded : {L : Type 0} → Outcome RoutingError L → Outcome ℕ (Unit {0})
recorded (ok _) = ok tt
recorded (raised _) = raised routing_error

module _ {L : Type 0} (log : AuditLog Details L) (hash : Digests) (host : Host)
    (before : ℕ → ℕ → Bool) (verifier : Verifier) where
  -- The router and the bridge. A damaged envelope, which the bridge finds, is found here before it:
  -- the plane fails closed on either.
  unfoldable pub routed : {W : Type 0} → RouterSite.Site log W → Collection (RouterState L W)
  unfolding collect record_gate_decision results_read candidate_verify
  routed site = record {
    collect = λ r domain s.
        let (out, s') = collect log hash host before site domain r s in (results_read hash out, s');
    verify = λ r results batch s. (ok (candidate_verify verifier results batch), s);
    record_gate_decision = λ r d s.
        let out = record_gate_decision log host r (outcome_for r d) s.log in
        (recorded out, record s { log = log_after out s.log });
  }

  module _ {W : Type 0} (site : RouterSite.Site log W) (k : ℕ) where
    routed-IsKept : IsKept (routed (recording_site log site)) (IsOnce log k)
    unfolding routed
    routed-IsKept = record {
      collects = λ r domain s h. collect-IsOnce log k hash host before site domain r s h;
      verifies = λ r results batch s h. h;
      records =
          λ r d s h. decision-Once log k s.world.1 hash host before 0 r (outcome_for r d) s.log h;
    }

-- The arguments of a run of the plane.
pub record Request (W : Type 0) : Type 0 where
  pub action : RuntimeAction
  pub policy : EvidenceControlPolicy
  pub evidence : VerifiedEvidenceBatch
  pub autonomy : AutonomyRequest W

module _ {C W Q : Type 0} (site : Site) (col : Collection C) (runtime : RuntimeAdapter W Q) where
  -- The state after runs in turn, whatever each returned or raised.
  unfoldable pub run_all : List (Request W) → PlaneState C W → PlaneState C W
  unfolding run
  run_all [] s = s
  run_all (q ∷ qs) s = run_all qs (run site col runtime q.action q.policy q.evidence q.autonomy s).1

  run_all-keeps :
      (P : C → Type 0) (kept : IsKept col P) (requests : List (Request W)) (s : PlaneState C W)
      → P s.collection
      → P (run_all requests s).collection
  unfolding run_all
  run_all-keeps P kept [] s h = h
  run_all-keeps P kept (q ∷ qs) s h =
      run_all-keeps P kept qs _
        (run-keeps col P kept site runtime q.action q.policy q.evidence q.autonomy s h)

-- A plane whose router is new on a log, with no calls written down yet.
abbrev pub new_plane :
    {L W V : Type 0} → L → W → State V → PlaneState (RouterState L (W × List ℕ)) V
new_plane l w controllers = record {
  outcomes = [];
  collection = record { log = l; results = []; world = (w, []) };
  controllers = controllers;
}

-- Whatever the log of its router held at first, over any runs of the control plane, for any actions,
-- policies and evidence, a collector is called at most once for each dispatch id, and for none that the
-- final log reads as not started.
pub run_all-Once :
    {L W V Q : Type 0} (log : AuditLog Details L) (hash : Digests) (host : Host)
    (before : ℕ → ℕ → Bool) (verifier : Verifier) (collecting : RouterSite.Site log W) (site : Site)
    (runtime : RuntimeAdapter V Q) (requests : List (Request V)) (l : L) (w : W)
    (controllers : State V) (k : ℕ)
    → let router = routed log hash host before verifier (recording_site log collecting) in
      let last = run_all site router runtime requests (new_plane l w controllers) in
      Once log k last.collection.log last.collection.world.1
run_all-Once log hash host before verifier collecting site runtime requests l w controllers k =
    run_all-keeps site (routed log hash host before verifier (recording_site log collecting))
      runtime (IsOnce log k) (routed-IsKept log hash host before verifier collecting k) requests
      (new_plane l w controllers) (omega arith, λ es now fresh. refl)
