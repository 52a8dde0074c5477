-- ===== src/Tests/Behavior.antt =====
-- The detectors of src/behavioral_detector.c on packets and failures.
use dpdk_based_nids.Behavior.Brute.Failures.{Failure, count_failures, count_failures_lem}
use dpdk_based_nids.Behavior.Brute.{brute_force_threshold, new_brute_tracker}
use dpdk_based_nids.Behavior.Exfil.Volume.{
  Transfer, watch_transfers, is_night, any_night, is_much, watch_transfers_lem,
}
use dpdk_based_nids.Behavior.Exfil.{is_external_ip, new_exfil_tracker}
use dpdk_based_nids.Behavior.Scan.Window.{
  ScanPacket, scan_packets, syn_ports, AreDistinct, scan_packets_lem,
}
use dpdk_based_nids.Behavior.Scan.{port_scan_threshold, new_scan_tracker, is_tracked}
use dpdk_based_nids.Prelude.{ℕ, ◌≡◌, arith, List, [], ◌∷◌, length, leb, if◌then◌else◌}

-- SYN to the ports 22 and 80.
abbrev two_probes : List ScanPacket
two_probes =
    record { time = 100; flags = 2; port = 22 } ∷ record { time = 101; flags = 2; port = 80 } ∷ []

scan_packets_lem_example :
    let (t, alerts) = scan_packets two_probes (new_scan_tracker 7 100) in
    AreDistinct t.ports_contacted
    × ((p : ℕ) → is_tracked p t.ports_contacted ≡ is_tracked p (syn_ports two_probes))
    × (alerts ≡ (if leb port_scan_threshold (length t.ports_contacted) then 1 else 0))
scan_packets_lem_example =
    scan_packets_lem 7 100 two_probes (omega arith, (omega arith, tt)) (omega arith)

abbrev two_failures : List Failure
two_failures = record { time = 100; status = 401 } ∷ record { time = 101; status = 403 } ∷ []

count_failures_lem_example :
    let (t, alerts) = count_failures two_failures (new_brute_tracker 7 80 100) in
    (t.failed_attempts ≡ 2) × (alerts ≡ (if leb brute_force_threshold 2 then 1 else 0))
count_failures_lem_example =
    count_failures_lem 7 80 100 two_failures (omega arith, (omega arith, tt)) (omega arith)

-- 60 MB and 50 MB by day to 8.8.8.8.
abbrev two_transfers : List Transfer
two_transfers =
    record { time = 100; hour = 12; bytes = 62914560 }
    ∷ record { time = 101; hour = 12; bytes = 52428800 }
    ∷ []

watch_transfers_lem_example :
    let (t, alerts) = watch_transfers two_transfers (new_exfil_tracker 7 0x08080808 100 12) in
    (t.bytes_transferred ≡ 115343360)
    × (alerts ≡ (
        if is_much (is_external_ip 0x08080808) (any_night (is_night 12) two_transfers) 115343360
        then 1
        else 0))
watch_transfers_lem_example =
    watch_transfers_lem 7 0x08080808 100 12 two_transfers (omega arith, (omega arith, tt))
      (omega arith)
