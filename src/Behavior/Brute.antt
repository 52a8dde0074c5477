-- ===== src/Behavior/Brute.antt =====
-- `get_brute_force_tracker`, `detect_brute_force_http` and `detect_brute_force` of
-- src/behavioral_detector.c.
pub mod Failures
use dpdk_based_nids.Behavior.Scan.{alert_rule, Detecting}
use dpdk_based_nids.Behavior.State.{BruteForceTracker, BehavioralDetector}
use dpdk_based_nids.Behavior.Trackers.{
  tracker_hash_size, is_within_window, set_chain, store_tracker, get_tracker,
}
use dpdk_based_nids.Flow.State.{Flow}
use dpdk_based_nids.Prelude.{
  ℕ, ◌+◌, ◌*◌, ◌%◌, ◌^◌, Bool, true, false, not, List, [], ◌∷◌, Option, none, some, leb, ◌==◌, ◌&&◌,
  ◌||◌, if◌then◌else◌, add32, add64,
}
use dpdk_based_nids.Rules.Alert.{first_word, rule_engine_create_custom_alert}
use dpdk_based_nids.Rules.State.{high, brute_force}

abbrev pub brute_force_window : ℕ
brute_force_window = 600

abbrev pub brute_force_threshold : ℕ
brute_force_threshold = 5

unfoldable pub new_brute_tracker : ℕ → ℕ → ℕ → BruteForceTracker
new_brute_tracker target_ip target_port now = record {
  target_ip = target_ip;
  target_port = target_port;
  failed_attempts = 0;
  window_start = now;
  last_attempt = now;
  alerted = false;
  http_401_count = 0;
  http_403_count = 0;
}

-- Outside the time window everything but the target starts again.
unfoldable pub reset_brute : ℕ → BruteForceTracker → BruteForceTracker
reset_brute now t =
    if is_within_window now t.window_start brute_force_window
    then t
    else record (new_brute_tracker t.target_ip t.target_port now) { last_attempt = t.last_attempt }

-- A failure with its status code.
unfoldable pub count_failure : ℕ → ℕ → BruteForceTracker → BruteForceTracker
count_failure now status t = record t {
  last_attempt = now;
  failed_attempts = add32 t.failed_attempts 1;
  http_401_count = if status == 401 then add32 t.http_401_count 1 else t.http_401_count;
  http_403_count = if status == 403 then add32 t.http_403_count 1 else t.http_403_count;
}

unfoldable pub fires : BruteForceTracker → Bool
fires t = leb brute_force_threshold t.failed_attempts && not t.alerted

-- The tracker behind a failure, without its mark, and with it.
unfoldable pub track_failure : ℕ → ℕ → BruteForceTracker → BruteForceTracker
track_failure now status t = count_failure now status (reset_brute now t)

unfoldable pub mark_alert : BruteForceTracker → BruteForceTracker
mark_alert t = record t { alerted = if fires t then true else t.alerted }

-- Whether a transaction is looked at: one with a response, which is given by its status code.
abbrev pub is_failure : ℕ → Bool
is_failure status = (status == 401) || (status == 403)

-- "HTTP Brute Force Attack" in ASCII.
abbrev pub brute_name : List ℕ
brute_name =
    72 ∷ 84 ∷ 84 ∷ 80 ∷ 32 ∷ 66 ∷ 114 ∷ 117 ∷ 116 ∷ 101 ∷ 32 ∷ 70 ∷ 111 ∷ 114 ∷ 99 ∷ 101 ∷ 32 ∷ 65
    ∷ 116 ∷ 116 ∷ 97 ∷ 99 ∷ 107 ∷ []

-- `target_hash` is `rte_jhash` of the key of address and port. `describe` prints the detail.
module _ (grants : ℕ → Bool) (target_hash : ℕ → ℕ) (describe : BruteForceTracker → ℕ → List ℕ) where
  unfoldable pub raise_brute :
      Bool → ℕ → Flow → BruteForceTracker → ℕ → BehavioralDetector → Detecting
  raise_brute false now f t k d = (d, k)
  raise_brute true now f t k d =
      let rule = alert_rule 9001 high brute_force (if grants k then some brute_name else none) in
      let (e, k') =
        rule_engine_create_custom_alert grants rule f (some (describe t now)) (k + 1)
          d.rule_engine in
      (record d { rule_engine = e; brute_forces_detected = add64 d.brute_forces_detected 1 }, k')

  unfoldable pub brute_with :
      ℕ
      → ℕ
      → ℕ
      → Flow
      → Option BruteForceTracker × List BruteForceTracker × ℕ
      → BehavioralDetector
      → Detecting
  brute_with i now status f (none, chain, k) d = (d, k)
  brute_with i now status f (some t, chain, k) d =
      let t' = track_failure now status t in
      let has_key = λ (s : BruteForceTracker).
        (s.target_ip == t.target_ip) && (s.target_port == t.target_port) in
      let chain' = store_tracker has_key (mark_alert t') chain in
      raise_brute (fires t') now f t' k
        (record d { brute_trackers = set_chain i chain' d.brute_trackers })

  -- `created` is the time that creating a tracker reads. A response is `none` for NULL.
  unfoldable pub detect_brute_force_http :
      ℕ → ℕ → Flow → Option ℕ → ℕ → BehavioralDetector → Detecting
  detect_brute_force_http now created f none k d = (d, k)
  detect_brute_force_http now created f (some status) k d =
      if is_failure status
      then (let target_ip = first_word f.dst_addr in
          let i = target_hash (target_ip * 2 ^ 16 + f.dst_port) % tracker_hash_size in
          let has_key = λ (s : BruteForceTracker).
            (s.target_ip == target_ip) && (s.target_port == f.dst_port) in
          let got =
            get_tracker grants has_key (new_brute_tracker target_ip f.dst_port created)
              (d.brute_trackers i) k in
          brute_with i now status f got d)
      else (d, k)

  -- The transactions of a flow of HTTP, by their responses. The time is taken as the same for all.
  unfoldable pub detect_brute_force :
      ℕ → ℕ → Flow → List (Option ℕ) → ℕ → BehavioralDetector → Detecting
  detect_brute_force now created f [] k d = (d, k)
  detect_brute_force now created f (tx ∷ txs) k d =
      let (d', k') = detect_brute_force_http now created f tx k d in
      detect_brute_force now created f txs k' d'
