-- ===== src/Detect/Builtin.antt =====
-- The registration of the built-in detectors: `proto_detect_register_tls`,
-- `proto_detect_register_dns` and `proto_detect_init`.
pub mod Safe
pub mod AnyPort
use dpdk_based_nids.Detect.Dns.{dns_probing_parser}
use dpdk_based_nids.Detect.Registry.{
  Registry, Registered, proto_detect_register_prober, proto_detect_register_http,
}
use dpdk_based_nids.Detect.State.{tls, dns, ProtoProber, DetectConfig}
use dpdk_based_nids.Detect.Tls.{tls_probing_parser}
use dpdk_based_nids.Prelude.{ℕ, Bool, true, false, Option, none, some, ◌&&◌}

-- The prober for TLS on a port, or on any port for 0.
abbrev pub tls_prober : ℕ → ProtoProber
tls_prober port = record {
  protocol = tls;
  port = port;
  min_depth = 5;
  max_depth = 64;
  parser_fn = tls_probing_parser;
  to_server = true;
  to_client = true;
}

abbrev pub dns_prober : ℕ → ProtoProber
dns_prober port = record {
  protocol = dns;
  port = port;
  min_depth = 12;
  max_depth = 512;
  parser_fn = dns_probing_parser;
  to_server = true;
  to_client = true;
}

module _ (grants : ℕ → Bool) where
  -- Two probers, whether or not the first is registered.
  unfoldable pub register_both : ProtoProber → ProtoProber → Registry → Registered
  register_both p q r =
      let (done, r₁) = proto_detect_register_prober grants p r in
      let (done', r₂) = proto_detect_register_prober grants q r₁ in (done && done', r₂)

  unfoldable pub proto_detect_register_tls : Registry → Registered
  proto_detect_register_tls = register_both (tls_prober 443) (tls_prober 0)

  unfoldable pub proto_detect_register_dns : Registry → Registered
  proto_detect_register_dns = register_both (dns_prober 53) (dns_prober 0)

  abbrev pub new_config : Option DetectConfig → DetectConfig → DetectConfig
  new_config none old = old
  new_config (some c) old = c

  -- The configuration and the registry; the return value is always 0.
  unfoldable pub proto_detect_init :
      Option DetectConfig → DetectConfig → Registry → DetectConfig × Registry
  proto_detect_init config old r = (
    new_config config old,
    (proto_detect_register_dns
        (proto_detect_register_tls (proto_detect_register_http grants r).1).1).1,
  )
