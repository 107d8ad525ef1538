-- ===== src/Examples.antt =====
-- The sample guests under examples/.
pub mod Common
pub mod Simple
pub mod Multiply
pub mod Policy
