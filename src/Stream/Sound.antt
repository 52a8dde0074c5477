-- ===== src/Stream/Sound.antt =====
-- Every operation on a stream buffer keeps it a reassembly of the sender's stream.
pub mod Process
pub mod Segment
pub mod Overlap
pub mod Merge
pub mod Insert
pub mod Buffer
pub mod Consume
