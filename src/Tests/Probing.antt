-- ===== src/Tests/Probing.antt =====
-- The probes of src/proto_tls.c and src/proto_dns.c on a TLS record, an SSH banner and a query,
-- and a name of src/app_proto.c.
use dpdk_based_nids.Detect.Builtin.AnyPort.{detect_by_prober-any_port}
use dpdk_based_nids.Detect.Builtin.{proto_detect_init}
use dpdk_based_nids.Detect.Dns.Query.{dns_probing_parser-query}
use dpdk_based_nids.Detect.Dns.{is_bad_header, dns_probing_parser}
use dpdk_based_nids.Detect.Engine.{no_result, detect_by_prober}
use dpdk_based_nids.Detect.Names.Agree.{same_but_case, app_proto_from_string-app_proto_to_string}
use dpdk_based_nids.Detect.Names.{app_proto_to_string, app_proto_from_string}
use dpdk_based_nids.Detect.Registry.{proto_detect_ctx_create}
use dpdk_based_nids.Detect.State.{tls, dns, failed, default_detect}
use dpdk_based_nids.Detect.Tls.Accepts.{looks_tls, tls_probing_parser_lem}
use dpdk_based_nids.Detect.Tls.{tls_probing_parser}
use dpdk_based_nids.Dns.Name.RoundTrip.{encode_name}
use dpdk_based_nids.Prelude.{
  ℕ, ◌≡◌, refl, arith, true, false, none, List, [], ◌∷◌, ◌++◌, length, add64, if◌then◌else◌, ok,
}
use dpdk_based_nids.Tests.Detection.{nothing_registered}
use dpdk_based_nids.Tests.Flows.{web_flow}

-- The start of a hello in TLS 1.0.
tls_probing_parser_lem_example :
    tls_probing_parser web_flow true (22 ∷ 3 ∷ 1 ∷ 0 ∷ 4 ∷ 1 ∷ []) 6 false
    ≡ ok (if looks_tls 22 3 1 0 4 then tls else failed, false)
tls_probing_parser_lem_example =
    tls_probing_parser_lem web_flow true 22 3 1 0 4 (1 ∷ []) 6 false (omega arith) (omega arith)

-- "SSH-2.0".
detect_by_prober-any_port_example :
    let (c, r) = proto_detect_init (λ n. true) none default_detect nothing_registered in
    let ctx = proto_detect_ctx_create r in
    detect_by_prober c web_flow (83 ∷ 83 ∷ 72 ∷ 45 ∷ 50 ∷ 46 ∷ 48 ∷ []) 7 true ctx
    ≡ ok (
      true,
      record no_result { protocol = failed },
      record ctx { failures = add64 ctx.failures 1 },
    )
unfolding looks_tls proto_detect_init
detect_by_prober-any_port_example =
    detect_by_prober-any_port none default_detect nothing_registered web_flow true 83 83 72 45 50
      (46 ∷ 48 ∷ []) 7 (omega arith) (omega arith) (omega arith) refl refl

abbrev query_header : List ℕ
query_header = 0 ∷ 7 ∷ 1 ∷ 0 ∷ 0 ∷ 1 ∷ 0 ∷ 0 ∷ 0 ∷ 0 ∷ 0 ∷ 0 ∷ []

-- A query for "tk" of type A and class IN.
dns_probing_parser-query_example :
    let packet = query_header ++ (encode_name ((116 ∷ 107 ∷ []) ∷ []) ++ (0 ∷ 1 ∷ 0 ∷ 1 ∷ [])) in
    dns_probing_parser web_flow true packet (length packet) false ≡ ok (dns, false)
unfolding is_bad_header encode_name
dns_probing_parser-query_example =
    dns_probing_parser-query web_flow true false 0 7 1 0 0 1 0 0 0 0 0 0 ((116 ∷ 107 ∷ []) ∷ []) 0 1
      0 1 [] refl refl ((omega arith, omega arith), tt) (omega arith) (omega arith) refl

app_proto_from_string-app_proto_to_string_example :
    app_proto_from_string same_but_case (app_proto_to_string tls) ≡ tls
app_proto_from_string-app_proto_to_string_example =
    app_proto_from_string-app_proto_to_string same_but_case tls (λ s t. refl)
