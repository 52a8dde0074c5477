-- ===== src/Behavior/Anomaly.antt =====
-- `get_anomaly_tracker`, `detect_http_anomalies`, `detect_dns_anomalies`, `detect_tls_anomalies` and
-- `detect_traffic_anomaly` of src/behavioral_detector.c.
use dpdk_based_nids.Behavior.Scan.{alert_rule, Detecting}
use dpdk_based_nids.Behavior.State.{TrafficAnomalyTracker, BehavioralDetector}
use dpdk_based_nids.Behavior.Trackers.{
  tracker_hash_size, is_within_window, set_chain, store_tracker, get_tracker,
}
use dpdk_based_nids.Dns.State.{DnsConn}
use dpdk_based_nids.Flow.State.{Flow}
use dpdk_based_nids.Prelude.{
  ℕ, ◌+◌, ◌%◌, Bool, true, false, not, List, [], ◌∷◌, Option, none, some, length, ltb, ◌==◌, ◌&&◌,
  ◌||◌, if◌then◌else◌, add32, add64, Run, ok, fault, wrong_type,
}
use dpdk_based_nids.Rules.Alert.{first_word, rule_engine_create_custom_alert}
use dpdk_based_nids.Rules.State.{medium, anomaly, TlsConn}

-- What a flow has by its `alproto` and `protoctx`: nothing that is looked at; a parser for HTTP, by
-- the responses of its transactions, each a status code or `none` for NULL; one for TLS; one for
-- DNS over UDP; or, for DNS over TCP, the TCP session, which stands in the same union.
pub data FlowApp : Type 0 where
  other : FlowApp
  http_app : List (Option ℕ) → FlowApp
  tls_app : TlsConn → FlowApp
  dns_app : DnsConn → FlowApp
  dns_over_tcp : FlowApp

abbrev pub dns_high_freq_threshold : ℕ
dns_high_freq_threshold = 100

abbrev pub anomaly_window : ℕ
anomaly_window = 300

-- `last_seen`, which nothing reads, is left out.
unfoldable pub new_anomaly_tracker : ℕ → ℕ → TrafficAnomalyTracker
new_anomaly_tracker src_ip now = record {
  src_ip = src_ip;
  large_requests = 0;
  high_freq_queries = 0;
  weak_ciphers = 0;
  cert_errors = 0;
  window_start = now;
  alerted = false;
}

unfoldable pub count_request : TrafficAnomalyTracker → TrafficAnomalyTracker
count_request t = record t { large_requests = add32 t.large_requests 1 }

-- The window, and the loop that counts the transactions one by one.
unfoldable pub count_queries : ℕ → DnsConn → TrafficAnomalyTracker → TrafficAnomalyTracker
count_queries now conn t =
    let t₁ : TrafficAnomalyTracker =
      if is_within_window now t.window_start anomaly_window
      then t
      else record t { window_start = now; high_freq_queries = 0; alerted = false } in
    record t₁ { high_freq_queries = add32 t₁.high_freq_queries (length conn.transactions) }

unfoldable pub is_frequent : TrafficAnomalyTracker → Bool
is_frequent t = ltb dns_high_freq_threshold t.high_freq_queries && not t.alerted

abbrev pub has_cert_error : TlsConn → Bool
has_cert_error conn = conn.expired_cert || conn.self_signed_cert

unfoldable pub count_tls : TlsConn → TrafficAnomalyTracker → TrafficAnomalyTracker
count_tls conn t = record t {
  weak_ciphers = if conn.weak_cipher then add32 t.weak_ciphers 1 else t.weak_ciphers;
  cert_errors = if has_cert_error conn then add32 t.cert_errors 1 else t.cert_errors;
}

-- "DNS High Frequency Anomaly" and "TLS Certificate Anomaly" in ASCII.
abbrev pub dns_anomaly_name : List ℕ
dns_anomaly_name =
    68 ∷ 78 ∷ 83 ∷ 32 ∷ 72 ∷ 105 ∷ 103 ∷ 104 ∷ 32 ∷ 70 ∷ 114 ∷ 101 ∷ 113 ∷ 117 ∷ 101 ∷ 110 ∷ 99
    ∷ 121 ∷ 32 ∷ 65 ∷ 110 ∷ 111 ∷ 109 ∷ 97 ∷ 108 ∷ 121 ∷ []

abbrev pub tls_anomaly_name : List ℕ
tls_anomaly_name =
    84 ∷ 76 ∷ 83 ∷ 32 ∷ 67 ∷ 101 ∷ 114 ∷ 116 ∷ 105 ∷ 102 ∷ 105 ∷ 99 ∷ 97 ∷ 116 ∷ 101 ∷ 32 ∷ 65 ∷ 110
    ∷ 111 ∷ 109 ∷ 97 ∷ 108 ∷ 121 ∷ []

-- `describe` prints the detail of an alert, from the number of its rule.
module _ (grants : ℕ → Bool) (jhash : ℕ → ℕ) (describe : ℕ → TrafficAnomalyTracker → List ℕ) where
  unfoldable pub raise_anomaly :
      Bool → ℕ → List ℕ → Flow → TrafficAnomalyTracker → ℕ → BehavioralDetector → Detecting
  raise_anomaly false rule_id name f t k d = (d, k)
  raise_anomaly true rule_id name f t k d =
      let rule = alert_rule rule_id medium anomaly (if grants k then some name else none) in
      let (e, k') =
        rule_engine_create_custom_alert grants rule f (some (describe rule_id t)) (k + 1)
          d.rule_engine in
      (record d { rule_engine = e; anomalies_detected = add64 d.anomalies_detected 1 }, k')

  -- A step on a tracker, and the alert if the test holds behind it.
  unfoldable pub anomaly_with :
      (TrafficAnomalyTracker → TrafficAnomalyTracker)
      → (TrafficAnomalyTracker → Bool)
      → ℕ
      → List ℕ
      → ℕ
      → Flow
      → Option TrafficAnomalyTracker × List TrafficAnomalyTracker × ℕ
      → BehavioralDetector
      → Detecting
  anomaly_with step test rule_id name i f (none, chain, k) d = (d, k)
  anomaly_with step test rule_id name i f (some t, chain, k) d =
      let t' = step t in
      let marked : TrafficAnomalyTracker = record t' {
        alerted = if test t' then true else t'.alerted;
      } in
      let chain' = store_tracker (λ s. s.src_ip == t.src_ip) marked chain in
      raise_anomaly (test t') rule_id name f t' k
        (record d { anomaly_trackers = set_chain i chain' d.anomaly_trackers })

  unfoldable pub with_source :
      (TrafficAnomalyTracker → TrafficAnomalyTracker)
      → (TrafficAnomalyTracker → Bool)
      → ℕ
      → List ℕ
      → ℕ
      → Flow
      → ℕ
      → BehavioralDetector
      → Detecting
  with_source step test rule_id name created f k d =
      let src_ip = first_word f.src_addr in
      let i = jhash src_ip % tracker_hash_size in
      anomaly_with step test rule_id name i f
        (get_tracker grants (λ s. s.src_ip == src_ip) (new_anomaly_tracker src_ip created)
          (d.anomaly_trackers i) k)
        d

  -- The transactions of HTTP are only counted.
  unfoldable pub detect_http_anomalies :
      ℕ → Flow → List (Option ℕ) → ℕ → BehavioralDetector → Detecting
  detect_http_anomalies created f [] k d = (d, k)
  detect_http_anomalies created f (tx ∷ txs) k d =
      let (d', k') = with_source count_request (λ t. false) 0 [] created f k d in
      detect_http_anomalies created f txs k' d'

  unfoldable pub detect_dns_anomalies : ℕ → ℕ → Flow → DnsConn → ℕ → BehavioralDetector → Detecting
  detect_dns_anomalies now created f conn k d =
      with_source (count_queries now conn) is_frequent 9004 dns_anomaly_name created f k d

  unfoldable pub detect_tls_anomalies : ℕ → Flow → TlsConn → ℕ → BehavioralDetector → Detecting
  detect_tls_anomalies created f conn k d =
      with_source (count_tls conn) (λ t. has_cert_error conn && not t.alerted) 9005 tls_anomaly_name
        created f k d

  unfoldable pub detect_traffic_anomaly :
      ℕ → ℕ → Flow → FlowApp → ℕ → BehavioralDetector → Run Detecting
  detect_traffic_anomaly now created f other k d = ok (d, k)
  detect_traffic_anomaly now created f (http_app txs) k d =
      ok (detect_http_anomalies created f txs k d)
  detect_traffic_anomaly now created f (tls_app conn) k d =
      ok (detect_tls_anomalies created f conn k d)
  detect_traffic_anomaly now created f (dns_app conn) k d =
      ok (detect_dns_anomalies now created f conn k d)
  detect_traffic_anomaly now created f dns_over_tcp k d = fault wrong_type
