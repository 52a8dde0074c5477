-- ===== src/Tests/Detection.antt =====
-- The detection of src/proto_detect.c on a request line.
use dpdk_based_nids.Detect.Engine.{is_unknown, Detected, proto_detect_get_proto}
use dpdk_based_nids.Detect.Pattern.{pattern_match, try_patterns}
use dpdk_based_nids.Detect.Builtin.Safe.{proto_detect_init-ends}
use dpdk_based_nids.Detect.Builtin.{proto_detect_init}
use dpdk_based_nids.Detect.Registry.{Registry, proto_detect_ctx_create}
use dpdk_based_nids.Detect.Search.{occurs_at, pattern_match_lem}
use dpdk_based_nids.Detect.State.{http, ProtoPattern, DetectCtx, default_detect}
use dpdk_based_nids.Detect.Verdict.{proto_detect_get_proto-ends, try_patterns-overread}
use dpdk_based_nids.Prelude.{
  ℕ, ◌+◌, ◌%◌, ◌==◌, ◌≤◌, ◌≡◌, ◌↔◌, refl, arith, inr, Bool, true, false, not, none, ◌&&◌, List, [],
  ◌∷◌, leb, if◌then◌else◌, ok, fault, out_of_bounds,
}
use dpdk_based_nids.Tests.Flows.{web_flow}

-- `tolower` of ASCII.
abbrev to_lower : ℕ → ℕ
to_lower b = if leb 65 b && leb b 90 then b + 32 else b

-- "GET /" and the pattern "get".
abbrev get_line : List ℕ
get_line = 71 ∷ 69 ∷ 84 ∷ 32 ∷ 47 ∷ []

abbrev get_word : List ℕ
get_word = 103 ∷ 101 ∷ 116 ∷ []

pattern_match_lem_example :
    (b : Bool) × (pattern_match to_lower get_line 0 5 get_word false ≡ ok b)
    × ((b ≡ true)
        ↔ ((i : ℕ) × (i + 3 ≤ 5) × (occurs_at to_lower get_line false (0 + i) get_word ≡ true)))
pattern_match_lem_example = pattern_match_lem to_lower get_line false 0 5 get_word (omega arith)

abbrev get_pattern : ProtoPattern
get_pattern = record {
  protocol = http;
  pattern = get_word;
  depth = 4;
  offset = 0;
  case_sensitive = false;
}

abbrev one_pattern : DetectCtx
one_pattern = record {
  patterns_ts = get_pattern ∷ [];
  patterns_tc = [];
  probers = [];
  by_pattern = 0;
  by_prober = 0;
  by_port = 0;
  failures = 0;
}

proto_detect_get_proto-ends_example :
    (r : Detected) × (proto_detect_get_proto to_lower default_detect one_pattern web_flow get_line 5
        true
      ≡ ok r)
    × (r.0 ≡ not (is_unknown r.1.protocol))
proto_detect_get_proto-ends_example =
    proto_detect_get_proto-ends to_lower default_detect one_pattern web_flow get_line 5 true
      (omega arith) (omega arith) (record { ordered = inr (omega arith); small = omega arith }, tt)
      tt tt

-- To be found from byte 5 on, within the first 2 bytes.
abbrev late_pattern : ProtoPattern
late_pattern = record get_pattern { depth = 2; offset = 5 }

try_patterns-overread_example :
    try_patterns to_lower get_line 5 (late_pattern ∷ []) one_pattern ≡ fault out_of_bounds
try_patterns-overread_example =
    try_patterns-overread to_lower get_line late_pattern [] 103 (101 ∷ 116 ∷ []) one_pattern
      (omega arith) (omega arith) refl (omega arith) refl (omega arith)

abbrev pub nothing_registered : Registry
nothing_registered = record {
  patterns_ts = [];
  patterns_tc = [];
  probers = [];
  patterns_registered = 0;
  probers_registered = 0;
  allocations = 0;
}

-- Every third allocation fails.
abbrev grudging : ℕ → Bool
grudging n = not (n % 3 == 2)

proto_detect_init-ends_example :
    let (c, r') = proto_detect_init grudging none default_detect nothing_registered in
    (d : Detected) × (proto_detect_get_proto to_lower c
        (proto_detect_ctx_create r')
        web_flow
        get_line
        5
        true
      ≡ ok d)
    × (d.0 ≡ not (is_unknown d.1.protocol))
proto_detect_init-ends_example =
    proto_detect_init-ends grudging none default_detect nothing_registered to_lower web_flow
      get_line 5 true (record { safe = tt; ts_usable = tt; tc_usable = tt }) (omega arith)
      (omega arith)
