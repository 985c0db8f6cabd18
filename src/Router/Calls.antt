-- ===== src/Router/Calls.antt =====
-- Any sequence of calls of a router, restarts included, over collectors whose calls are recorded
-- (minority_prophet/evidence_router.py).
use minority_prophet_gate.Base.{
  ℕ, Bool, ◌≡◌, inl, inr, refl, some, List, [], ◌∷◌, ◌==◌, arith, Dict, lookup, Outcome, ok, raised,
  Bool-cases, subst,
}
use minority_prophet_gate.Request.Challenge.{Host, EvidenceRequest}
use minority_prophet_gate.Audit.Event.{RoutingError}
use minority_prophet_gate.Audit.Interface.{AuditLog}
use minority_prophet_gate.Router.Types.{EvidenceDispatch, Digests, Details}
use minority_prophet_gate.Router.Plan.{plan}
use minority_prophet_gate.Router.Site.{Collector, Site, RouterState}
use minority_prophet_gate.Router.Dispatch.{dispatch}
use minority_prophet_gate.Router.Collect.{GateOutcome, record_gate_decision, collect}

-- A call writes the id of its dispatch, also when it then raises.
abbrev pub recording : {W : Type 0} → Collector W → Collector (W × List ℕ)
recording c = record {
  descriptor = c.descriptor;
  collect = λ d s. let (r, w) = c.collect d s.0 in (r, (w, d.dispatch_id ∷ s.1));
}

abbrev pub recording_all : {W : Type 0} → Dict (Collector W) → Dict (Collector (W × List ℕ))
recording_all [] = []
recording_all (e ∷ es) = (e.0, recording e.1) ∷ recording_all es

-- What a recording collector does to the record.
abbrev pub Records : {W : Type 0} → Collector (W × List ℕ) → Type 0
Records {W} c =
    (d : EvidenceDispatch) (w : W) (calls : List ℕ)
    → (c.collect d (w, calls)).1.1 ≡ d.dispatch_id ∷ calls

pub lookup-Records :
    {W : Type 0} (k : ℕ) (cs : Dict (Collector W)) (c : Collector (W × List ℕ))
    → lookup k (recording_all cs) ≡ some c
    → Records c
lookup-Records k [] c = λ h. absurd (cc)
lookup-Records k (e ∷ es) c = elim (Bool-cases (k == e.0)) [
  | inl hit ↦
      rw hit (λ h. let q : recording e.1 ≡ c = ground arith in subst Records q (λ d w calls. refl))
  | inr miss ↦ rw miss (λ h. lookup-Records k es c h)
]

abbrev pub log_after : {L : Type 0} → Outcome RoutingError L → L → L
log_after (ok m) l = m
log_after (raised e) l = l

module _ {L : Type 0} (log : AuditLog Details L) where
  abbrev pub recording_site : {W : Type 0} → Site log W → Site log (W × List ℕ)
  recording_site site = record {
    collectors = recording_all site.collectors;
    authorize = λ d c s. let (a, w) = site.authorize d c s.0 in (a, (w, s.1));
    artifact_store = site.artifact_store;
  }

  -- A call of the router; `restarted` is a new router on the same log.
  pub data Call (W : Type 0) : Type 0 where
    dispatched : Site log W → EvidenceDispatch → Call W
    collected : Site log W → ℕ → EvidenceRequest → Call W
    planned : ℕ → EvidenceRequest → Call W
    decided : EvidenceRequest → GateOutcome → Call W
    restarted : Call W

  module _ {W : Type 0} (hash : Digests) (host : Host) (before : ℕ → ℕ → Bool) where
    -- The state after a call, whatever it returned or raised.
    unfoldable pub after : Call W → RouterState L (W × List ℕ) → RouterState L (W × List ℕ)
    unfolding dispatch collect plan record_gate_decision
    after (dispatched site d) s = (dispatch log hash (recording_site site) d s).1
    after (collected site domain r) s =
        (collect log hash host before (recording_site site) domain r s).1
    after (planned domain r) s = record s { log = (plan log hash before domain r host s.log).1 }
    after (decided r o) s = record s {
      log = log_after (record_gate_decision log host r o s.log) s.log;
    }
    after restarted s = record s { results = [] }

    unfoldable pub after_all :
        List (Call W) → RouterState L (W × List ℕ) → RouterState L (W × List ℕ)
    unfolding after
    after_all [] s = s
    after_all (c ∷ cs) s = after_all cs (after c s)
