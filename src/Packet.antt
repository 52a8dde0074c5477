-- ===== src/Packet.antt =====
-- Packet decoding: src/packet_decode.h and src/packet_decode.c.
pub mod Memory
pub mod Decode
pub mod Safety
pub mod Overread
pub mod Frames
