-- ===== src/Validation.antt =====
-- backend/optimization_validation.py: the deterministic checks of what the agent proposes.
pub mod Texts
pub mod Evidence
pub mod Rounding
pub mod Prices
pub mod Bounds
pub mod Tests
