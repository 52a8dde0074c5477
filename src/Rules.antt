-- ===== src/Rules.antt =====
-- The rule engine: src/rule_engine.h and src/rule_engine.c.
pub mod State
pub mod Alert
pub mod Check
pub mod Inspect
