-- ===== src/Stream/Delivery.antt =====
-- What single insertions deliver to the reader of the stream.
pub mod InOrder
pub mod Gap
pub mod Faulty
