-- ===== src/Detect/Dns/Ends.antt =====
-- The probe for DNS ends on any data.
use dpdk_based_nids.Detect.Dns.{
  is_response, is_bad_header, scan_qname, qname_fuel, after_qname, probe_message,
  dns_probing_parser,
}
use dpdk_based_nids.Flow.State.{Flow}
use dpdk_based_nids.Packet.Memory.{read8-lt, read_be16-lt}
use dpdk_based_nids.Prelude.{
  ℕ, zero, suc, ◌+◌, ◌≤◌, ◌<◌, arith, Bool, not, List, length, ltb, leb, ◌==◌, ◌&&◌, ◌||◌, Option,
  none, some, Ensures, Ensures-bind, Ensures-if,
}

module _ (mem : List ℕ) (len : ℕ) (held : len ≤ length mem) where
  scan_qname-ends :
      (n offset : ℕ)
      → 256 < offset + n
      → offset ≤ 255
      → Ensures (λ r. Unit) (scan_qname mem len n offset)
  unfolding scan_qname
  scan_qname-ends zero offset enough small = absurd (omega arith)
  scan_qname-ends (suc n) offset enough small =
      Ensures-if (λ r. Unit) (leb len offset) _ _ (λ end. tt)
        (λ inside.
          let (l, e) = read8-lt mem offset (ground (arith, inside)) in
          rw e (
            Ensures-if (λ r. Unit) (l == 0) _ _ (λ end. tt)
              (λ some_bytes.
                Ensures-if (λ r. Unit) (leb 192 l) _ _ (λ pointer. tt)
                  (λ label.
                    Ensures-if (λ r. Unit) (ltb 63 l || ltb 255 (offset + 1 + l)) _ _ (λ bad. tt)
                      (λ good.
                        scan_qname-ends n (offset + 1 + l) (omega arith) (ground (arith, good)))))))

  after_qname-ends : (r : Option (Bool × ℕ)) → Ensures (λ r. Unit) (after_qname mem len r)
  unfolding after_qname
  after_qname-ends none = tt
  after_qname-ends (some (valid_qname, offset)) =
      Ensures-if (λ r. Unit) (valid_qname && leb (offset + 4) len) _ _
        (λ inside.
          let (qtype, e) = read_be16-lt mem offset (ground (arith, inside)) in
          let (qclass, e') = read_be16-lt mem (offset + 2) (ground (arith, inside)) in
          rw (e, e') tt)
        (λ outside. tt)

  probe_message-ends : Ensures (λ r. Unit) (probe_message mem len)
  unfolding probe_message
  probe_message-ends =
      Ensures-if (λ r. Unit) (ltb len 12) _ _ (λ short. tt)
        (λ long.
          let room : 12 ≤ length mem = ground (arith, long) in
          let (flags, e₁) = read_be16-lt mem 2 (omega arith) in
          let (qd, e₂) = read_be16-lt mem 4 (omega arith) in
          let (an, e₃) = read_be16-lt mem 6 (omega arith) in
          let (ns, e₄) = read_be16-lt mem 8 (omega arith) in
          let (ar, e₅) = read_be16-lt mem 10 (omega arith) in
          rw (e₁, e₂, e₃, e₄, e₅)
            (Ensures-if (λ r. Unit) (is_bad_header flags qd an ns ar) _ _ (λ bad. tt)
              (λ good.
                Ensures-if (λ r. Unit) (not (is_response flags) && ltb 12 len) _ _
                  (λ query.
                    Ensures-bind (λ r. Unit) (λ r. Unit) (scan_qname mem len qname_fuel 12) _
                      (scan_qname-ends qname_fuel 12 (omega arith) (omega arith))
                      (λ r h. after_qname-ends r))
                  (λ other. tt))))

-- Probing any data for DNS ends within 256 rounds, and reads only the data.
pub dns_probing_parser-ends :
    (f : Flow) (toserver : Bool) (mem : List ℕ) (len : ℕ) (reverse : Bool)
    → len ≤ length mem
    → Ensures (λ r. Unit) (dns_probing_parser f toserver mem len reverse)
unfolding dns_probing_parser
dns_probing_parser-ends f toserver mem len reverse held =
    Ensures-bind (λ r. Unit) (λ r. Unit) (probe_message mem len) _ (probe_message-ends mem len held)
      (λ r h. tt)
