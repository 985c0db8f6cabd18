-- ===== src/Witnesses.antt =====
-- Runs on concrete inputs at which the hypotheses of the theorems hold.
mod Samples
mod Evidence
mod Effects
mod Authority
mod Requests
mod Plane
mod Routing
mod Durable
mod Assembly
mod Recall
mod Joined
