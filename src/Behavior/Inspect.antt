-- ===== src/Behavior/Inspect.antt =====
-- `behavioral_detector_inspect_packet` of src/behavioral_detector.c. The pointers are not NULL.
use dpdk_based_nids.Behavior.Ageing.{
  age_port_scan_trackers, age_brute_force_trackers, age_exfil_trackers, age_anomaly_trackers,
}
use dpdk_based_nids.Behavior.Anomaly.{FlowApp, http_app, detect_traffic_anomaly}
use dpdk_based_nids.Behavior.Brute.{detect_brute_force}
use dpdk_based_nids.Behavior.Exfil.{detect_data_exfiltration}
use dpdk_based_nids.Behavior.Scan.{Detecting, detect_port_scan}
use dpdk_based_nids.Behavior.State.{
  PortScanTracker, BruteForceTracker, DataExfilTracker, TrafficAnomalyTracker, BehavioralDetector,
}
use dpdk_based_nids.Flow.State.{Flow}
use dpdk_based_nids.Prelude.{
  ℕ, ◌%◌, Bool, List, Option, ltb, ◌==◌, if◌then◌else◌, add64, Run, ok, ◌>>=◌,
}

-- The allocator, the hash functions for keys of four and of eight bytes, and the printing of details.
pub record Environment : Type 0 where
  pub grants : ℕ → Bool
  pub jhash : ℕ → ℕ
  pub jhash_pair : ℕ → ℕ
  pub describe_scan : PortScanTracker → ℕ → List ℕ
  pub describe_brute : BruteForceTracker → ℕ → List ℕ
  pub describe_exfil : DataExfilTracker → ℕ → List ℕ
  pub describe_anomaly : ℕ → TrafficAnomalyTracker → List ℕ

-- The times that the detectors read for one packet: on their start, on creating a tracker behind
-- it, and the hour of the day.
pub record Clock : Type 0 where
  pub now : ℕ
  pub created : ℕ
  pub hour : ℕ

abbrev pub responses_of : FlowApp → List (Option ℕ)
responses_of (http_app txs) = txs
responses_of _ = List.[]

unfoldable pub age_all : ℕ → BehavioralDetector → BehavioralDetector
age_all now d =
    age_anomaly_trackers now
      (age_exfil_trackers now (age_brute_force_trackers now (age_port_scan_trackers now d)))

module _ (v : Environment) where
  abbrev pub watch_bytes : Clock → Flow → ℕ → Detecting → Detecting
  watch_bytes c f packet_len (d, k) =
      if ltb 0 packet_len
      then detect_data_exfiltration v.grants v.jhash_pair v.describe_exfil c.now c.created c.hour f
          packet_len k d
      else (d, k)

  abbrev pub watch_failures : Clock → Flow → FlowApp → Detecting → Detecting
  watch_failures c f app (d, k) =
      detect_brute_force v.grants v.jhash_pair v.describe_brute c.now c.created f (responses_of app)
        k d

  abbrev pub watch_traffic : Clock → Flow → FlowApp → Detecting → Run Detecting
  watch_traffic c f app (d, k) =
      detect_traffic_anomaly v.grants v.jhash v.describe_anomaly c.now c.created f app k d

  -- `n` is the static counter of packets. The result has it too.
  unfoldable pub behavioral_detector_inspect_packet :
      Clock → Flow → FlowApp → ℕ → Option ℕ → ℕ → ℕ → BehavioralDetector → Run (Detecting × ℕ)
  behavioral_detector_inspect_packet c f app packet_len tcp_flags n k d =
      let n' = add64 n 1 in
      let d₁ = if n' % 10000 == 0 then age_all c.now d else d in
      let r = detect_port_scan v.grants v.jhash v.describe_scan c.now c.created f tcp_flags k d₁ in
      do
        r' ← watch_traffic c f app (watch_bytes c f packet_len (watch_failures c f app r))
        ok (r', n')
