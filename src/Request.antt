-- ===== src/Request.antt =====
-- Bounded requests for more evidence (minority_prophet/evidence_request.py): routes, requirements
-- and policies with their checks, and the challenges that are bound to one action.
pub mod Policy
pub mod Challenge
pub mod Budget
