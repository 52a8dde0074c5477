-- ===== src/Behavior.antt =====
-- Behavioural detection: src/behavioral_detector.h and src/behavioral_detector.c.
pub mod Trackers
pub mod State
pub mod Ageing
pub mod Scan
pub mod Brute
pub mod Exfil
pub mod Anomaly
pub mod Inspect
