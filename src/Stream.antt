-- ===== src/Stream.antt =====
-- TCP stream reassembly: src/stream_reassemble.h and src/stream_reassemble.c.
pub mod Seq
pub mod State
pub mod Segment
pub mod Queue
pub mod Buffer
pub mod Spec
pub mod Sound
pub mod Delivery
pub mod Memory
