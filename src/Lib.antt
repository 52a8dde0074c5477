-- ===== src/Lib.antt =====
-- Verification of NetDefender, a network intrusion detection system on DPDK: a shallow embedding
-- of the path of a packet from its bytes to the reassembled TCP stream, the detected protocol and
-- the alerts, with theorems about it.
--
-- The program's parts and the files that model them. A received packet is decoded
-- (src/packet_decode.c), assigned to a flow of the flow table (src/flow.c), and the flow's TCP
-- state machine decides whether its payload goes into one of the flow's two stream buffers
-- (src/stream_reassemble.c), from which the parsers of application protocols read. Which protocol
-- it is, protocol detection (src/proto_detect.c) finds from the first bytes. What the parsers find
-- (src/dns_parser.c), the rule engine (src/rule_engine.c) compares with its rules, and the
-- behavioural detection (src/behavioral_detector.c) watches ports, failures and volumes over time.
-- Both raise alerts.
--
-- - Packet: `decode_packet` and its layers in Packet/Decode.antt, over the list of the packet's
--   bytes; a pointer into the packet is an offset. Packet/Memory.antt has the reads, which are
--   faults behind the end of the memory. The parts of the packet that a union overlays are told
--   apart by the version and the protocol.
-- - Stream: src/stream_reassemble.h and src/stream_reassemble.c. State.antt has the structures,
--   Seq.antt `seq_compare` and `seq_between`, Segment.antt `segment_alloc` and `segment_free`,
--   Queue/ the queue of segments out of order (`handle_queue_overlaps`, `insert_segment_queue`,
--   `try_merge_segments`, `process_segment_queue`), Buffer.antt and Buffer/Insert.antt the
--   operations on a stream buffer. Spec.antt is the specification, Sound/ the proof that the
--   operations meet it, Delivery/ what they do in particular situations, Memory.antt the
--   statistics of memory.
-- - Flow: src/flow.h and src/flow.c. Tcp.antt has the state machine in `flow_update`, Match.antt
--   `flow_hash_calculate` and `flow_match`, Update.antt `flow_update` and `flow_release`,
--   Table.antt `flow_init`, `flow_get`, `flow_cleanup_expired` and `flow_cleanup`,
--   Table/Workers.antt the steps of `flow_get` by several workers.
-- - Detect: src/app_proto.h, src/proto_detect.h, src/proto_detect.c, src/proto_http.c,
--   src/proto_tls.c and src/proto_dns.c. Pattern.antt has `pattern_match` and
--   `try_pattern_detection`, Tls.antt and Dns.antt the two probing functions, Engine.antt the
--   probers, the port hints and `proto_detect_get_proto`, Registry.antt the registration of
--   patterns and probers, Builtin.antt `proto_detect_init`, Names.antt the names and ports of
--   src/app_proto.c.
-- - Dns: src/dns_parser.h and src/dns_parser.c. Name.antt has `parse_dns_name`, Name/Walk.antt
--   the walk along labels and pointers that names are compared with, Record.antt
--   `parse_dns_question` and `parse_dns_rr`, which give `parse_dns_name` arrays of 256 bytes,
--   Parser.antt `dns_parser_parse` and the queries.
-- - Rules: src/rule_engine.h and src/rule_engine.c, with `http_find_header` of src/http_parser.c.
--   Alert.antt has `create_alert` and the list of alerts, Check.antt the checks of a rule on a
--   transaction, Inspect.antt `rule_engine_inspect_http`, `rule_engine_inspect_dns` (on the
--   transactions of Dns) and `rule_engine_inspect_tls`. The buffer for an alert's detail is a value
--   that is absent until something has been written to it.
-- - Behavior: src/behavioral_detector.h and src/behavioral_detector.c. Trackers.antt has what the
--   tables of trackers share, Scan.antt `detect_port_scan`, Brute.antt `detect_brute_force`,
--   Exfil.antt `detect_data_exfiltration`, Anomaly.antt `detect_traffic_anomaly`, Ageing.antt the
--   ageing, Inspect.antt `behavioral_detector_inspect_packet`. Alerts go to the engine of Rules.
-- - Prelude: names shared by all parts. Tests: concrete inputs.
--
-- Conventions. Unsigned words are natural numbers with their wrap-around written out. The heap is
-- not modelled as such: a segment owns its payload, and a list stands for a chain of pointers; a
-- function that frees what its caller still uses returns that. `rte_malloc` and `calloc` are
-- functions from the number of the call to whether it succeeds, the CRC is a function on the words
-- that are hashed, and `tolower`, `isprint` and `strstr` are functions; theorems hold for all such
-- functions unless they say otherwise. Undefined behaviour is a value of `Run`, so that
-- no model hides it. Each operation is one step of one worker: the flow table's locks cover single
-- buckets, while several workers share its statistics, so that the theorems on the table are about
-- its use by one worker at a time, but for those of Flow/Table/Workers.antt, where several workers
-- interleave the test of the limit in `flow_get` and what follows it. A loop is structural
-- recursion on the list that it walks or on the number of its rounds, but for two: the loop of
-- `parse_dns_name` has 300 rounds of fuel, and ten pointers with 254 bytes of a name need fewer;
-- that over the labels of a query in `dns_probing_parser` has 256, and its offset, which each
-- round moves on, ends at 255. That both are enough is part of the theorems on them.
--
-- Not modelled: logging, printing and the statistics kept for them alone; floating point; the
-- parsers for HTTP and TLS, of whose structures only what the rule engine reads is modelled; the
-- built-in rules; timers and jobs; configuration files, DPDK ports and queues, and output, which
-- call libraries; src/list.h and src/vector.h, which are copies of other projects' code.
pub mod Prelude
pub mod Stream
pub mod Packet
pub mod Flow
pub mod Detect
pub mod Dns
pub mod Rules
pub mod Behavior
pub mod Tests
