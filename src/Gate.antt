-- ===== src/Gate.antt =====
-- The Gate (minority_prophet/gate.py): the assessment of evidence and the decision on an action.
pub mod Assess
pub mod Decide
pub mod Verdicts
pub mod Immunity
