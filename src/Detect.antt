-- ===== src/Detect.antt =====
-- Protocol detection: src/proto_detect.h, src/proto_detect.c, and the detectors of
-- src/proto_http.c, src/proto_tls.c and src/proto_dns.c.
pub mod State
pub mod Pattern
pub mod Engine
pub mod Tls
pub mod Dns
pub mod Registry
pub mod Search
pub mod Verdict
pub mod Builtin
pub mod Names
