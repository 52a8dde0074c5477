-- ===== src/Behavior/Exfil.antt =====
-- `get_exfil_tracker` and `detect_data_exfiltration` of src/behavioral_detector.c.
pub mod Private
pub mod Volume
use dpdk_based_nids.Behavior.Scan.{alert_rule, Detecting}
use dpdk_based_nids.Behavior.State.{DataExfilTracker, BehavioralDetector}
use dpdk_based_nids.Behavior.Trackers.{
  tracker_hash_size, is_within_window, set_chain, store_tracker, get_tracker,
}
use dpdk_based_nids.Flow.State.{Flow}
use dpdk_based_nids.Prelude.{
  ℕ, ◌+◌, ◌*◌, ◌/◌, ◌%◌, ◌^◌, Bool, true, false, not, List, [], ◌∷◌, Option, none, some, ltb, leb,
  ◌==◌, ◌&&◌, ◌||◌, if◌then◌else◌, add32, add64,
}
use dpdk_based_nids.Rules.Alert.{first_word, rule_engine_create_custom_alert}
use dpdk_based_nids.Rules.State.{critical, exfiltration}

abbrev pub data_exfil_window : ℕ
data_exfil_window = 600

-- 100 MB.
abbrev pub data_exfil_threshold : ℕ
data_exfil_threshold = 104857600

-- IS_EXTERNAL_IP: the masks 0xFF, 0xFFF0 and 0xFFFF on a word of 32 bits.
unfoldable pub is_external_ip : ℕ → Bool
is_external_ip ip =
    not (ip % 2 ^ 8 == 10)
    && not (ip / 2 ^ 4 % 2 ^ 12 * 2 ^ 4 == 0xAC10)
    && not (ip % 2 ^ 16 == 0xC0A8)

abbrev pub is_off_hours : ℕ → Bool
is_off_hours hour = leb 22 hour || ltb hour 6

unfoldable pub new_exfil_tracker : ℕ → ℕ → ℕ → ℕ → DataExfilTracker
new_exfil_tracker src_ip dst_ip now hour = record {
  src_ip = src_ip;
  dst_ip = dst_ip;
  bytes_transferred = 0;
  packet_count = 0;
  window_start = now;
  last_transfer = now;
  alerted = false;
  off_hours = is_off_hours hour;
}

-- Outside the time window everything but the addresses starts again.
unfoldable pub reset_exfil : ℕ → ℕ → DataExfilTracker → DataExfilTracker
reset_exfil now hour t =
    if is_within_window now t.window_start data_exfil_window
    then t
    else record (new_exfil_tracker t.src_ip t.dst_ip now hour) { last_transfer = t.last_transfer }

unfoldable pub add_bytes : ℕ → ℕ → ℕ → DataExfilTracker → DataExfilTracker
add_bytes now hour bytes t = record t {
  last_transfer = now;
  bytes_transferred = add64 t.bytes_transferred bytes;
  packet_count = add32 t.packet_count 1;
  off_hours = if is_off_hours hour then true else t.off_hours;
}

-- The two reasons for an alert.
unfoldable pub is_suspicious : ℕ → DataExfilTracker → Bool
is_suspicious dst_ip t =
    (leb data_exfil_threshold t.bytes_transferred && is_external_ip dst_ip && not t.alerted)
    || (t.off_hours && leb (data_exfil_threshold / 10) t.bytes_transferred && not t.alerted)

-- The tracker behind a transfer, without its mark, and with it.
unfoldable pub track_transfer : ℕ → ℕ → ℕ → DataExfilTracker → DataExfilTracker
track_transfer now hour bytes t = add_bytes now hour bytes (reset_exfil now hour t)

unfoldable pub mark_exfil : DataExfilTracker → DataExfilTracker
mark_exfil t = record t { alerted = if is_suspicious t.dst_ip t then true else t.alerted }

-- "Potential Data Exfiltration" in ASCII.
abbrev pub exfil_name : List ℕ
exfil_name =
    80 ∷ 111 ∷ 116 ∷ 101 ∷ 110 ∷ 116 ∷ 105 ∷ 97 ∷ 108 ∷ 32 ∷ 68 ∷ 97 ∷ 116 ∷ 97 ∷ 32 ∷ 69 ∷ 120
    ∷ 102 ∷ 105 ∷ 108 ∷ 116 ∷ 114 ∷ 97 ∷ 116 ∷ 105 ∷ 111 ∷ 110 ∷ []

-- `pair_hash` is `rte_jhash` of the key of both addresses. `describe` prints the detail.
module _ (grants : ℕ → Bool) (pair_hash : ℕ → ℕ) (describe : DataExfilTracker → ℕ → List ℕ) where
  unfoldable pub raise_exfil :
      Bool → ℕ → Flow → DataExfilTracker → ℕ → BehavioralDetector → Detecting
  raise_exfil false now f t k d = (d, k)
  raise_exfil true now f t k d =
      let rule =
        alert_rule 9002 critical exfiltration (if grants k then some exfil_name else none) in
      let (e, k') =
        rule_engine_create_custom_alert grants rule f (some (describe t now)) (k + 1)
          d.rule_engine in
      (record d { rule_engine = e; exfiltrations_detected = add64 d.exfiltrations_detected 1 }, k')

  unfoldable pub exfil_with :
      ℕ
      → ℕ
      → ℕ
      → ℕ
      → Flow
      → Option DataExfilTracker × List DataExfilTracker × ℕ
      → BehavioralDetector
      → Detecting
  exfil_with i now hour bytes f (none, chain, k) d = (d, k)
  exfil_with i now hour bytes f (some t, chain, k) d =
      let t' = track_transfer now hour bytes t in
      let has_key = λ (s : DataExfilTracker). (s.src_ip == t.src_ip) && (s.dst_ip == t.dst_ip) in
      let chain' = store_tracker has_key (mark_exfil t') chain in
      raise_exfil (is_suspicious t'.dst_ip t') now f t' k
        (record d { exfil_trackers = set_chain i chain' d.exfil_trackers })

  -- `created` is the time that creating a tracker reads, and `hour` the hour of the day.
  unfoldable pub detect_data_exfiltration :
      ℕ → ℕ → ℕ → Flow → ℕ → ℕ → BehavioralDetector → Detecting
  detect_data_exfiltration now created hour f bytes k d =
      let src_ip = first_word f.src_addr in
      let dst_ip = first_word f.dst_addr in
      let i = pair_hash (src_ip * 2 ^ 32 + dst_ip) % tracker_hash_size in
      let has_key = λ (s : DataExfilTracker). (s.src_ip == src_ip) && (s.dst_ip == dst_ip) in
      let got =
        get_tracker grants has_key (new_exfil_tracker src_ip dst_ip created hour)
          (d.exfil_trackers i) k in
      exfil_with i now hour bytes f got d
