-- ===== src/Behavior/State.antt =====
-- The structures of src/behavioral_detector.h.
use dpdk_based_nids.Prelude.{ℕ, Bool, List}
use dpdk_based_nids.Rules.State.{RuleEngine}

-- `ports_contacted` is the `port_count` ports of the array. `established_count`, which nothing
-- sets, is left out.
pub record PortScanTracker : Type 0 where
  pub src_ip : ℕ
  pub ports_contacted : List ℕ
  pub first_seen : ℕ
  pub last_seen : ℕ
  pub syn_count : ℕ
  pub syn_ack_count : ℕ
  pub is_syn_scan : Bool
  pub alerted : Bool

-- The union `proto` is that for HTTP.
pub record BruteForceTracker : Type 0 where
  pub target_ip : ℕ
  pub target_port : ℕ
  pub failed_attempts : ℕ
  pub window_start : ℕ
  pub last_attempt : ℕ
  pub alerted : Bool
  pub http_401_count : ℕ
  pub http_403_count : ℕ

-- The members that nothing sets are left out.
pub record DataExfilTracker : Type 0 where
  pub src_ip : ℕ
  pub dst_ip : ℕ
  pub bytes_transferred : ℕ
  pub packet_count : ℕ
  pub window_start : ℕ
  pub last_transfer : ℕ
  pub alerted : Bool
  pub off_hours : Bool

-- The members that nothing sets or reads are left out.
pub record TrafficAnomalyTracker : Type 0 where
  pub src_ip : ℕ
  pub large_requests : ℕ
  pub high_freq_queries : ℕ
  pub weak_ciphers : ℕ
  pub cert_errors : ℕ
  pub window_start : ℕ
  pub alerted : Bool

-- The tables of trackers, the rule engine, and the numbers of what has been detected. The
-- thresholds and windows, which nothing sets or reads, are left out.
pub record BehavioralDetector : Type 0 where
  pub scan_trackers : ℕ → List PortScanTracker
  pub brute_trackers : ℕ → List BruteForceTracker
  pub exfil_trackers : ℕ → List DataExfilTracker
  pub anomaly_trackers : ℕ → List TrafficAnomalyTracker
  pub rule_engine : RuleEngine
  pub scans_detected : ℕ
  pub brute_forces_detected : ℕ
  pub exfiltrations_detected : ℕ
  pub anomalies_detected : ℕ
