-- ===== src/Flow.antt =====
-- Flow management: src/flow.h and src/flow.c.
pub mod State
pub mod Tcp
pub mod Match
pub mod Update
pub mod Table
