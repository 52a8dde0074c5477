-- ===== src/Dns.antt =====
-- The DNS parser: src/dns_parser.h and src/dns_parser.c.
pub mod State
pub mod Name
pub mod Record
pub mod Parser
