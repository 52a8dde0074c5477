-- ===== src/Detect/Engine.antt =====
-- `try_prober_detection`, `try_port_detection` and `proto_detect_get_proto` of
-- src/proto_detect.c. Pointers are not NULL here, and a direction is to the server (true) or to
-- the client.
use dpdk_based_nids.Detect.Pattern.{try_pattern_detection}
use dpdk_based_nids.Detect.State.{
  AppProto, unknown, http, tls, dns, ssh, ftp, smtp, mysql, pgsql, failed, low, medium, high,
  DetectResult, ProtoProber, DetectCtx, DetectConfig,
}
use dpdk_based_nids.Flow.State.{Flow}
use dpdk_based_nids.Prelude.{
  ℕ, Bool, true, false, not, List, [], ◌∷◌, ltb, ◌==◌, ◌&&◌, ◌||◌, if◌then◌else◌, add64, Run, ok,
  ◌>>=◌,
}

abbrev pub is_unknown : AppProto → Bool
is_unknown unknown = true
is_unknown _ = false

abbrev pub is_failed : AppProto → Bool
is_failed failed = true
is_failed _ = false

-- `dst_port` to the server, `src_port` to the client.
abbrev pub port_of : Flow → Bool → ℕ
port_of f true = f.dst_port
port_of f false = f.src_port

unfoldable pub count_prober : AppProto → DetectCtx → DetectCtx
count_prober protocol ctx =
    if is_failed protocol then ctx else record ctx { by_prober = add64 ctx.by_prober 1 }

-- The three tests that skip a prober.
unfoldable pub is_tried : ProtoProber → Flow → ℕ → Bool → Bool
is_tried p f len toserver =
    (if toserver then p.to_server else p.to_client)
    && ((p.port == 0) || (p.port == port_of f toserver))
    && not (ltb len p.min_depth)

unfoldable pub probe_len : ProtoProber → ℕ → ℕ
probe_len p len = if ltb 0 p.max_depth && ltb p.max_depth len then p.max_depth else len

-- The protocol, the context and `*reverse_flow`.
abbrev pub Probed : Type 0
Probed = AppProto × DetectCtx × Bool

-- What a probing function has answered, `unknown` to go on with the next.
unfoldable pub after_probe : (Bool → Run Probed) → DetectCtx → AppProto × Bool → Run Probed
after_probe rest ctx (protocol, reverse) =
    if is_unknown protocol then rest reverse else ok (protocol, count_prober protocol ctx, reverse)

unfoldable pub try_probers :
    List ProtoProber → Flow → List ℕ → ℕ → Bool → DetectCtx → Bool → Run Probed
try_probers [] f mem len toserver ctx reverse = ok (unknown, ctx, reverse)
try_probers (p ∷ ps) f mem len toserver ctx reverse =
    if is_tried p f len toserver
    then p.parser_fn f toserver mem (probe_len p len) reverse
      >>= after_probe (try_probers ps f mem len toserver ctx) ctx
    else try_probers ps f mem len toserver ctx reverse

unfoldable pub try_prober_detection : DetectCtx → Flow → List ℕ → ℕ → Bool → Run Probed
try_prober_detection ctx f mem len toserver = try_probers ctx.probers f mem len toserver ctx false

unfoldable pub try_port_detection : Flow → Bool → AppProto
try_port_detection f toserver =
    let port = port_of f toserver in
    if (port == 80) || (port == 8080)
    then http
    else if (port == 443) || (port == 8443)
    then tls
    else if port == 53
    then dns
    else if port == 22
    then ssh
    else if port == 21
    then ftp
    else if port == 25
    then smtp
    else if port == 3306
    then mysql
    else if port == 5432
    then pgsql
    else unknown

abbrev pub no_result : DetectResult
no_result = record { protocol = unknown; confidence = low; reverse_flow = false }

-- True for the return value 0, false for -1; `*result`; the context.
abbrev pub Detected : Type 0
Detected = Bool × DetectResult × DetectCtx

-- The third method.
unfoldable pub detect_by_port : DetectConfig → Flow → Bool → DetectCtx → Detected
detect_by_port c f toserver ctx =
    let protocol = try_port_detection f toserver in
    if c.enable_port_detection && not (is_unknown protocol)
    then (
      true,
      record no_result { protocol = protocol },
      record ctx { by_port = add64 ctx.by_port 1 },
    )
    else (false, no_result, ctx)

unfoldable pub after_probers : DetectConfig → Flow → Bool → Probed → Detected
after_probers c f toserver (protocol, ctx, reverse) =
    if is_failed protocol
    then (
      true,
      record no_result { protocol = failed },
      record ctx { failures = add64 ctx.failures 1 },
    )
    else if is_unknown protocol
    then detect_by_port c f toserver ctx
    else (true, record { protocol = protocol; confidence = medium; reverse_flow = reverse }, ctx)

-- The second method, and what follows it.
unfoldable pub detect_by_prober : DetectConfig → Flow → List ℕ → ℕ → Bool → DetectCtx → Run Detected
detect_by_prober c f mem len toserver ctx =
    if c.enable_probing_parsers
    then (do r ← try_prober_detection ctx f mem len toserver; ok (after_probers c f toserver r))
    else ok (detect_by_port c f toserver ctx)

unfoldable pub after_patterns :
    DetectConfig → Flow → List ℕ → ℕ → Bool → AppProto × DetectCtx → Run Detected
after_patterns c f mem len toserver (protocol, ctx) =
    if is_unknown protocol
    then detect_by_prober c f mem len toserver ctx
    else ok (true, record no_result { protocol = protocol; confidence = high }, ctx)

-- The methods in their order, on the length that is inspected.
unfoldable pub detect : (ℕ → ℕ) → DetectConfig → DetectCtx → Flow → List ℕ → ℕ → Bool → Run Detected
detect tolower c ctx f mem len toserver =
    if ltb len 4
    then ok (false, no_result, ctx)
    else if c.enable_pattern_matching
    then (do
      r ← try_pattern_detection tolower ctx mem len toserver
      after_patterns c f mem len toserver r)
    else detect_by_prober c f mem len toserver ctx

unfoldable pub inspected : DetectConfig → ℕ → ℕ
inspected c len = if ltb c.max_inspect_depth len then c.max_inspect_depth else len

unfoldable pub proto_detect_get_proto :
    (ℕ → ℕ) → DetectConfig → DetectCtx → Flow → List ℕ → ℕ → Bool → Run Detected
proto_detect_get_proto tolower c ctx f mem len toserver =
    detect tolower c ctx f mem (inspected c len) toserver
