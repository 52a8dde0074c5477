-- ===== src/Behavior/Ageing.antt =====
-- `behavioral_detector_init` and the ageing of trackers in src/behavioral_detector.c.
use dpdk_based_nids.Behavior.State.{BehavioralDetector}
use dpdk_based_nids.Behavior.Trackers.{age_trackers}
use dpdk_based_nids.Prelude.{ℕ, []}
use dpdk_based_nids.Rules.State.{RuleEngine}

-- The detector once it has been allocated, for a rule engine.
unfoldable pub behavioral_detector_init : RuleEngine → BehavioralDetector
behavioral_detector_init e = record {
  scan_trackers = λ i. [];
  brute_trackers = λ i. [];
  exfil_trackers = λ i. [];
  anomaly_trackers = λ i. [];
  rule_engine = e;
  scans_detected = 0;
  brute_forces_detected = 0;
  exfiltrations_detected = 0;
  anomalies_detected = 0;
}

unfoldable pub age_port_scan_trackers : ℕ → BehavioralDetector → BehavioralDetector
age_port_scan_trackers now d = record d {
  scan_trackers = age_trackers (λ t. t.last_seen) 300 now d.scan_trackers;
}

unfoldable pub age_brute_force_trackers : ℕ → BehavioralDetector → BehavioralDetector
age_brute_force_trackers now d = record d {
  brute_trackers = age_trackers (λ t. t.window_start) 600 now d.brute_trackers;
}

unfoldable pub age_exfil_trackers : ℕ → BehavioralDetector → BehavioralDetector
age_exfil_trackers now d = record d {
  exfil_trackers = age_trackers (λ t. t.window_start) 1800 now d.exfil_trackers;
}

unfoldable pub age_anomaly_trackers : ℕ → BehavioralDetector → BehavioralDetector
age_anomaly_trackers now d = record d {
  anomaly_trackers = age_trackers (λ t. t.window_start) 300 now d.anomaly_trackers;
}
