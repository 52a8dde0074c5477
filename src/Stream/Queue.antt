-- ===== src/Stream/Queue.antt =====
-- The queue of out-of-order segments of src/stream_reassemble.c.
pub mod Merge
pub mod Overlap
pub mod Insert
pub mod Process
