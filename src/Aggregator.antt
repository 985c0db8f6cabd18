-- ===== src/Aggregator.antt =====
-- The evidence-root aggregator (minority_prophet/aggregator.py): claims, the graph that resolves
-- each claim to its root, the tally of roots by asserted value, and the price of an attack.
pub mod Graph
pub mod Tally
pub mod Attack
pub mod Winner
pub mod Roots
pub mod Sides
pub mod Filed
pub mod Copies
pub mod Extension
