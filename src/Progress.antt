-- ===== src/Progress.antt =====
-- The end of a round: finishing ranks, the settlement, and the levels of the two teams.
pub mod Ranks
pub mod Settlement
pub mod Teams
