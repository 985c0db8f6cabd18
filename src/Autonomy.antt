-- ===== src/Autonomy.antt =====
-- Bounded autonomy on top of a final Gate decision (minority_prophet/autonomy.py): levels and
-- mandates, the release that a mandate permits, and the controller that acts on a release.
pub mod Level
pub mod Mandate
pub mod Release
pub mod Controller
pub mod Covers
pub mod Effects
