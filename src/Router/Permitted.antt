-- ===== src/Router/Permitted.antt =====
-- What a collector and a permit that pass their checks are (minority_prophet/evidence_router.py,
-- `_verify_collector` and `_verify_authorization`).
use minority_prophet_gate.Base.{◌≡◌, ◌≢◌, true, false, arith, elem, ok}
use minority_prophet_gate.Request.Policy.{kind_code, is_agent, same_texts}
use minority_prophet_gate.Router.Types.{
  CollectorDescriptor, EvidenceDispatch, CollectionAuthorization,
}
use minority_prophet_gate.Router.Checks.{verify_collector, verify_authorization}

-- The collector has the kind and the capability that the route asks for, is the requesting agent's
-- own where the route is its own, and independent of it where the route wants independence.
pub record MeetsPolicy (d : EvidenceDispatch) (c : CollectorDescriptor) : Type 0 where
  pub kind : kind_code c.collector_kind ≡ kind_code d.payload.route.collector_kind
  pub able : elem d.payload.route.capability c.capabilities ≡ true
  pub own_agent :
      is_agent d.payload.route.collector_kind ≡ true
      → c.control_domain ≡ d.payload.requester_control_domain
  pub independent :
      d.payload.route.requires_independence ≡ true
      → c.control_domain ≢ d.payload.requester_control_domain

-- The permit is for this dispatch, its collector and the route's actions, and grants nothing else.
pub record Permits (d : EvidenceDispatch) (c : CollectorDescriptor) (a : CollectionAuthorization)
    : Type 0 where
  pub unauthorizing : a.grants_protected_action_authority ≡ false
  pub dispatch : a.dispatch_id ≡ d.dispatch_id
  pub challenge : a.challenge_id ≡ d.payload.challenge_id
  pub collector : a.collector_id ≡ c.collector_id
  pub actions : same_texts a.allowed_actions d.payload.route.allowed_actions ≡ true
  pub named : a.authorization_id ≢ 0

pub collector-MeetsPolicy :
    (d : EvidenceDispatch) (c : CollectorDescriptor)
    → verify_collector d c ≡ ok tt
    → MeetsPolicy d c
unfolding verify_collector
collector-MeetsPolicy d c h = record {
  kind = ground arith;
  able = ground arith;
  own_agent = λ agent. ground arith;
  independent = λ wanted e. ground arith;
}

pub authorization-Permits :
    (d : EvidenceDispatch) (c : CollectorDescriptor) (a : CollectionAuthorization)
    → verify_authorization d c a ≡ ok tt
    → Permits d c a
unfolding verify_authorization
authorization-Permits d c a h = record {
  unauthorizing = ground arith;
  dispatch = ground arith;
  challenge = ground arith;
  collector = ground arith;
  actions = ground arith;
  named = λ e. ground arith;
}
