-- ===== src/Behavior/Scan.antt =====
-- `get_port_scan_tracker`, `add_port_to_tracker` and `detect_port_scan` of
-- src/behavioral_detector.c.
pub mod Window
use dpdk_based_nids.Behavior.State.{PortScanTracker, BehavioralDetector}
use dpdk_based_nids.Behavior.Trackers.{
  tracker_hash_size, is_within_window, set_chain, store_tracker, get_tracker,
}
use dpdk_based_nids.Detect.State.{AppProto}
use dpdk_based_nids.Flow.State.{Flow}
use dpdk_based_nids.Prelude.{
  ℕ, ◌+◌, ◌/◌, ◌%◌, Bool, true, false, not, List, [], ◌∷◌, ◌++◌, Option, none, some, length, ltb,
  leb, ◌==◌, ◌&&◌, if◌then◌else◌, add32, add64,
}
use dpdk_based_nids.Rules.Alert.{first_word, rule_engine_create_custom_alert}
use dpdk_based_nids.Rules.State.{high, scan, Category, Severity, DetectionRule}

abbrev pub port_scan_window : ℕ
port_scan_window = 60

abbrev pub port_scan_threshold : ℕ
port_scan_threshold = 10

abbrev pub max_tracked_ports : ℕ
max_tracked_ports = 1024

-- SYN is bit 1 of the flags and ACK bit 4.
abbrev pub has_syn : ℕ → Bool
has_syn flags = flags / 2 % 2 == 1

abbrev pub has_ack : ℕ → Bool
has_ack flags = flags / 16 % 2 == 1

unfoldable pub new_scan_tracker : ℕ → ℕ → PortScanTracker
new_scan_tracker src_ip now = record {
  src_ip = src_ip;
  ports_contacted = [];
  first_seen = now;
  last_seen = now;
  syn_count = 0;
  syn_ack_count = 0;
  is_syn_scan = false;
  alerted = false;
}

unfoldable pub is_tracked : ℕ → List ℕ → Bool
is_tracked port [] = false
is_tracked port (p ∷ ps) = if p == port then true else is_tracked port ps

-- Whether the port is new, and the ports.
unfoldable pub add_port_to_tracker : ℕ → List ℕ → Bool × List ℕ
add_port_to_tracker port ports =
    if is_tracked port ports
    then (false, ports)
    else if ltb (length ports) max_tracked_ports
    then (true, ports ++ (port ∷ []))
    else (false, ports)

-- Outside the time window everything but the address starts again.
unfoldable pub open_window : ℕ → PortScanTracker → PortScanTracker
open_window now t =
    if is_within_window now t.first_seen port_scan_window
    then t
    else record (new_scan_tracker t.src_ip now) { last_seen = t.last_seen }

-- What a SYN does to the tracker, and whether it is to raise an alert.
unfoldable pub track_syn : ℕ → ℕ → PortScanTracker → PortScanTracker × Bool
track_syn flags port t =
    let (new_port, ports) = add_port_to_tracker port t.ports_contacted in
    (
      record t {
        ports_contacted = ports;
        syn_count = add32 t.syn_count 1;
        is_syn_scan = if has_ack flags then t.is_syn_scan else true;
      },
      new_port && leb port_scan_threshold (length ports) && not t.alerted,
    )

-- The tracker when an alert would be raised, and whether it is.
unfoldable pub track_packet : ℕ → ℕ → ℕ → PortScanTracker → PortScanTracker × Bool
track_packet now flags port t =
    let t₁ = record (open_window now t) { last_seen = now } in
    if has_syn flags then track_syn flags port t₁ else (t₁, false)

-- The rest: the mark of the alert, and the count of answers.
unfoldable pub after_alert : ℕ → Bool → PortScanTracker → PortScanTracker
after_alert flags fired t = record t {
  alerted = if fired then true else t.alerted;
  syn_ack_count =
      if has_syn flags && has_ack flags then add32 t.syn_ack_count 1 else t.syn_ack_count;
}

-- A rule for an alert of this module: only its number, name, severity and category are set.
unfoldable pub alert_rule : ℕ → Severity → Category → Option (List ℕ) → DetectionRule
alert_rule rule_id severity category name = record {
  rule_id = rule_id;
  enabled = true;
  name = name;
  severity = severity;
  category = category;
  protocol = AppProto.unknown;
  conditions = [];
  check_uri = false;
  check_headers = false;
  target_header = none;
  check_query = false;
  qtype = 0;
  check_sni = false;
  check_ja3 = false;
  check_cipher = false;
  check_version = false;
  check_cert = false;
  ja3_hash = none;
}

-- "Port Scan Detected" in ASCII.
abbrev pub scan_name : List ℕ
scan_name =
    80 ∷ 111 ∷ 114 ∷ 116 ∷ 32 ∷ 83 ∷ 99 ∷ 97 ∷ 110 ∷ 32 ∷ 68 ∷ 101 ∷ 116 ∷ 101 ∷ 99 ∷ 116 ∷ 101
    ∷ 100 ∷ []

-- The detector, and the calls of the allocator.
abbrev pub Detecting : Type 0
Detecting = BehavioralDetector × ℕ

-- `jhash` is `rte_jhash` of a key, and `describe` prints the detail of an alert. `now` is the time
-- that the detection reads, and `created` the one that creating a tracker reads behind it.
module _ (grants : ℕ → Bool) (jhash : ℕ → ℕ) (describe : PortScanTracker → ℕ → List ℕ) where
  abbrev pub with_name : ℕ → List ℕ → Option (List ℕ)
  with_name k name = if grants k then some name else none

  unfoldable pub raise_scan : Bool → ℕ → Flow → PortScanTracker → ℕ → BehavioralDetector → Detecting
  raise_scan false now f t k d = (d, k)
  raise_scan true now f t k d =
      let rule = alert_rule 9000 high scan (with_name k scan_name) in
      let (e, k') =
        rule_engine_create_custom_alert grants rule f (some (describe t now)) (k + 1)
          d.rule_engine in
      (record d { rule_engine = e; scans_detected = add64 d.scans_detected 1 }, k')

  unfoldable pub scan_with :
      ℕ
      → ℕ
      → ℕ
      → Flow
      → Option PortScanTracker × List PortScanTracker × ℕ
      → BehavioralDetector
      → Detecting
  scan_with i now flags f (none, chain, k) d = (d, k)
  scan_with i now flags f (some t, chain, k) d =
      let (t', fired) = track_packet now flags f.dst_port t in
      let chain' = store_tracker (λ s. s.src_ip == t.src_ip) (after_alert flags fired t') chain in
      raise_scan fired now f t' k (record d { scan_trackers = set_chain i chain' d.scan_trackers })

  -- `tcp_flags` is `none` for NULL. 6 is IPPROTO_TCP.
  unfoldable pub detect_port_scan : ℕ → ℕ → Flow → Option ℕ → ℕ → BehavioralDetector → Detecting
  detect_port_scan now created f none k d = (d, k)
  detect_port_scan now created f (some flags) k d =
      if f.proto == 6
      then (let src_ip = first_word f.src_addr in
          let i = jhash src_ip % tracker_hash_size in
          let got =
            get_tracker grants (λ s. s.src_ip == src_ip) (new_scan_tracker src_ip created)
              (d.scan_trackers i) k in
          scan_with i now flags f got d)
      else (d, k)
