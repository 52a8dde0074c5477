-- ===== src/Detect/Builtin/AnyPort.antt =====
-- The prober for TLS on any port ends detection.
use dpdk_based_nids.Detect.Builtin.{
  tls_prober, dns_prober, register_both, proto_detect_register_tls, proto_detect_register_dns,
  proto_detect_init,
}
use dpdk_based_nids.Detect.Engine.{
  is_tried, probe_len, count_prober, after_probe, try_probers, try_prober_detection, no_result,
  after_probers, detect_by_prober,
}
use dpdk_based_nids.Detect.Registry.{
  Registry, register_all, add_entry, add_with_bytes, add_allocated, proto_detect_register_pattern,
  proto_detect_register_prober, proto_detect_register_http, proto_detect_ctx_create,
}
use dpdk_based_nids.Detect.State.{tls, failed, ProtoProber, DetectCtx, DetectConfig}
use dpdk_based_nids.Detect.Tls.Accepts.{looks_tls, tls_probing_parser_lem}
use dpdk_based_nids.Detect.Tls.{tls_probing_parser}
use dpdk_based_nids.Flow.State.{Flow}
use dpdk_based_nids.Prelude.{
  ℕ, ◌+◌, ◌≤◌, ◌≡◌, refl, arith, Bool, true, false, List, ◌∷◌, Option, length, ltb, add64,
  if◌then◌else◌, ok, not, ◌∙◌, ap, ◌>>=◌,
}

-- With memory for all entries, the probers for any port come before the others.
proto_detect_init-probers :
    (config : Option DetectConfig) (old : DetectConfig) (r : Registry)
    → (proto_detect_init (λ n. true) config old r).1.probers
      ≡ dns_prober 0 ∷ dns_prober 53 ∷ tls_prober 0 ∷ tls_prober 443 ∷ r.probers
unfolding proto_detect_init proto_detect_register_tls proto_detect_register_dns register_both
    proto_detect_register_prober proto_detect_register_http register_all
    proto_detect_register_pattern add_allocated add_with_bytes add_entry
proto_detect_init-probers config old r = refl

module _ (f : Flow) (mem : List ℕ) (len : ℕ) (toserver : Bool) (ctx : DetectCtx)
    (reverse : Bool) where
  try_probers-skip :
      (p : ProtoProber) (ps : List ProtoProber)
      → is_tried p f len toserver ≡ false
      → try_probers (p ∷ ps) f mem len toserver ctx reverse
        ≡ try_probers ps f mem len toserver ctx reverse
  unfolding try_probers
  try_probers-skip p ps skipped = rw skipped refl

  try_probers-failed :
      (p : ProtoProber) (ps : List ProtoProber)
      → is_tried p f len toserver ≡ true
      → p.parser_fn f toserver mem (probe_len p len) reverse ≡ ok (failed, reverse)
      → try_probers (p ∷ ps) f mem len toserver ctx reverse ≡ ok (failed, ctx, reverse)
  unfolding try_probers after_probe count_prober
  try_probers-failed p ps tried run = rw tried (rw run refl)

probe_len-short : (len : ℕ) → len ≤ 11 → probe_len (tls_prober 0) len ≡ len
unfolding probe_len
probe_len-short len short = ground arith

dns-is_tried :
    (port : ℕ) (f : Flow) (len : ℕ) (toserver : Bool)
    → len ≤ 11
    → is_tried (dns_prober port) f len toserver ≡ false
unfolding is_tried
dns-is_tried port f len toserver short =
    let too_short : not (ltb len 12) ≡ false = ground arith in rw too_short (ground (arith))

tls-is_tried :
    (f : Flow) (len : ℕ) (toserver : Bool) → 5 ≤ len → is_tried (tls_prober 0) f len toserver ≡ true
unfolding is_tried
tls-is_tried f len true long = ground arith
tls-is_tried f len false long = ground arith

-- Once every allocation of `proto_detect_init` has succeeded and no pattern matches, data of 6 to
-- 11 bytes that does not look like TLS is reported as failed, on every port and in both
-- directions: the prober for TLS on any port refuses it, and neither the prober for its own port
-- nor the port's own protocol is asked.
pub detect_by_prober-any_port :
    (config : Option DetectConfig) (old : DetectConfig) (r : Registry) (f : Flow) (toserver : Bool)
    (b₀ b₁ b₂ b₃ b₄ : ℕ) (rest : List ℕ) (len : ℕ)
    → 6 ≤ len
    → len ≤ 11
    → len ≤ 5 + length rest
    → looks_tls b₀ b₁ b₂ b₃ b₄ ≡ false
    → (proto_detect_init (λ n. true) config old r).0.enable_probing_parsers ≡ true
    → let (c, r') = proto_detect_init (λ n. true) config old r in
      let ctx = proto_detect_ctx_create r' in
      detect_by_prober c f (b₀ ∷ b₁ ∷ b₂ ∷ b₃ ∷ b₄ ∷ rest) len toserver ctx
      ≡ ok (
        true,
        record no_result { protocol = failed },
        record ctx { failures = add64 ctx.failures 1 },
      )
unfolding detect_by_prober try_prober_detection proto_detect_ctx_create after_probers
detect_by_prober-any_port config old r f toserver b₀ b₁ b₂ b₃ b₄ rest len long short held other on =
    let ctx = proto_detect_ctx_create (proto_detect_init (λ n. true) config old r).1 in
    let mem = b₀ ∷ b₁ ∷ b₂ ∷ b₃ ∷ b₄ ∷ rest in
    let size : probe_len (tls_prober 0) len ≡ len = probe_len-short len short in
    let refused : tls_probing_parser f toserver mem len false ≡ ok (failed, false) =
      tls_probing_parser_lem f toserver b₀ b₁ b₂ b₃ b₄ rest len false long held
      ∙ ap (λ b. ok (if b then tls else failed, false)) other in
    let ps = tls_prober 443 ∷ r.probers in
    let run =
      ap (λ l. try_probers l f mem len toserver ctx false) (proto_detect_init-probers config old r)
      ∙ try_probers-skip f mem len toserver ctx false (dns_prober 0)
          (dns_prober 53 ∷ tls_prober 0 ∷ ps) (dns-is_tried 0 f len toserver short)
      ∙ try_probers-skip f mem len toserver ctx false (dns_prober 53) (tls_prober 0 ∷ ps)
          (dns-is_tried 53 f len toserver short)
      ∙ try_probers-failed f mem len toserver ctx false (tls_prober 0) ps
          (tls-is_tried f len toserver (omega arith)) (rw size refused) in
    rw on (
      ap
        (λ m.
          m
          >>= (λ p. ok (after_probers (proto_detect_init (λ n. true) config old r).0 f toserver p)))
        run)
