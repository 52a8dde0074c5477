-- ===== src/Detect/Builtin/Safe.antt =====
-- Detection after `proto_detect_init`.
use dpdk_based_nids.Detect.Builtin.{
  tls_prober, dns_prober, register_both, proto_detect_register_tls, proto_detect_register_dns,
  proto_detect_init,
}
use dpdk_based_nids.Detect.Dns.Ends.{dns_probing_parser-ends}
use dpdk_based_nids.Detect.Engine.{is_unknown, Detected, proto_detect_get_proto}
use dpdk_based_nids.Detect.Registry.Usable.{
  HasUsable, register_http-HasUsable, register_prober-HasUsable,
}
use dpdk_based_nids.Detect.Registry.{
  Registry, proto_detect_register_prober, proto_detect_register_http, proto_detect_ctx_create,
}
use dpdk_based_nids.Detect.State.{ProtoProber, DetectConfig}
use dpdk_based_nids.Detect.Tls.Accepts.{tls_probing_parser-ends}
use dpdk_based_nids.Detect.Verdict.{IsSafe, proto_detect_get_proto-ends}
use dpdk_based_nids.Flow.State.{Flow}
use dpdk_based_nids.Prelude.{ℕ, ◌^◌, ◌≤◌, ◌<◌, ◌≡◌, Bool, not, List, Option, length, ok}

tls_prober-IsSafe : (port : ℕ) → IsSafe (tls_prober port)
tls_prober-IsSafe port = record { ends = tls_probing_parser-ends }

dns_prober-IsSafe : (port : ℕ) → IsSafe (dns_prober port)
dns_prober-IsSafe port = record { ends = dns_probing_parser-ends }

register_both-HasUsable :
    (grants : ℕ → Bool) (p q : ProtoProber) (r : Registry)
    → IsSafe p
    → IsSafe q
    → HasUsable r
    → HasUsable (register_both grants p q r).1
unfolding register_both
register_both-HasUsable grants p q r safe safe' h =
    register_prober-HasUsable grants q (proto_detect_register_prober grants p r).1 safe'
      (register_prober-HasUsable grants p r safe h)

proto_detect_init-HasUsable :
    (grants : ℕ → Bool) (config : Option DetectConfig) (old : DetectConfig) (r : Registry)
    → HasUsable r
    → HasUsable (proto_detect_init grants config old r).1
unfolding proto_detect_init proto_detect_register_tls proto_detect_register_dns
proto_detect_init-HasUsable grants config old r h =
    let r₁ = (proto_detect_register_http grants r).1 in
    register_both-HasUsable grants (dns_prober 53) (dns_prober 0)
      (proto_detect_register_tls grants r₁).1 (dns_prober-IsSafe 53) (dns_prober-IsSafe 0)
      (register_both-HasUsable grants (tls_prober 443) (tls_prober 0) r₁ (tls_prober-IsSafe 443)
        (tls_prober-IsSafe 0) (register_http-HasUsable grants r h))

-- After `proto_detect_init`, whichever of its allocations fail, a context created from a registry
-- that was usable before detects safely with any configuration: on data of the stated length it
-- reads only the data, ends, and returns 0 exactly if it reports a protocol or failure.
pub proto_detect_init-ends :
    (grants : ℕ → Bool) (config : Option DetectConfig) (old : DetectConfig) (r : Registry)
    (tolower : ℕ → ℕ) (f : Flow) (mem : List ℕ) (len : ℕ) (toserver : Bool)
    → HasUsable r
    → len ≤ length mem
    → len < 2 ^ 32
    → let (c, r') = proto_detect_init grants config old r in
      (d : Detected) × (proto_detect_get_proto tolower c
          (proto_detect_ctx_create r')
          f
          mem
          len
          toserver
        ≡ ok d)
      × (d.0 ≡ not (is_unknown d.1.protocol))
unfolding proto_detect_ctx_create
proto_detect_init-ends grants config old r tolower f mem len toserver h le small =
    let (c, r') = proto_detect_init grants config old r in
    let k = proto_detect_init-HasUsable grants config old r h in
    proto_detect_get_proto-ends tolower c (proto_detect_ctx_create r') f mem len toserver le small
      k.ts_usable k.tc_usable k.safe
