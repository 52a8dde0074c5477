-- ===== src/Detect/Dns.antt =====
-- `dns_probing_parser` of src/proto_dns.c.
pub mod Ends
pub mod Query
use dpdk_based_nids.Detect.State.{AppProto, unknown, dns, failed, ProbingParser}
use dpdk_based_nids.Packet.Memory.{read8, read_be16}
use dpdk_based_nids.Prelude.{
  ℕ, zero, suc, ◌+◌, ◌/◌, ◌%◌, ◌^◌, Bool, true, false, not, List, Option, none, some, ltb, leb,
  ◌==◌, ◌&&◌, ◌||◌, if◌then◌else◌, Run, ok, fault, out_of_fuel, ◌>>=◌,
}

abbrev pub is_response : ℕ → Bool
is_response flags = flags / 2 ^ 15 % 2 == 1

-- The guards on the header's fields, each of which ends the probe with a failure.
unfoldable pub is_bad_header : ℕ → ℕ → ℕ → ℕ → ℕ → Bool
is_bad_header flags qdcount ancount nscount arcount =
    ltb 5 (flags / 2 ^ 11 % 16)
    || ltb 15 (flags % 16)
    || (not (is_response flags) && (qdcount == 0))
    || (is_response flags && (qdcount == 0) && (ancount == 0))
    || ltb 100 (qdcount + ancount + nscount + arcount)

-- The loop over the labels of QNAME. It gives `valid_qname` and `offset`, or `none` for a
-- failure. It leaves as soon as the offset is greater than 255.
unfoldable pub scan_qname : List ℕ → ℕ → ℕ → ℕ → Run (Option (Bool × ℕ))
scan_qname mem len zero offset = fault out_of_fuel
scan_qname mem len (suc n) offset = if leb len offset then ok (some (false, offset)) else do
  label_len ← read8 mem offset
  if label_len == 0
      then ok (some (true, offset + 1))
      else if leb 192 label_len
      then ok (some (true, offset + 2))
      else if ltb 63 label_len || ltb 255 (offset + 1 + label_len)
      then ok none
      else scan_qname mem len n (offset + 1 + label_len)

-- Each round but the last moves the offset on, from 12 to 255 at most.
abbrev pub qname_fuel : ℕ
qname_fuel = 256

abbrev pub is_class : ℕ → Bool
is_class c = not (c == 0) && (leb c 4 || (c == 255))

-- The answer if the question has not decided.
abbrev pub by_header : Bool → ℕ → AppProto
by_header response len = if response || (len == 12) then dns else unknown

unfoldable pub after_qname : List ℕ → ℕ → Option (Bool × ℕ) → Run AppProto
after_qname mem len none = ok failed
after_qname mem len (some (valid_qname, offset)) =
    if valid_qname && leb (offset + 4) len
    then (do
      qtype ← read_be16 mem offset
      qclass ← read_be16 mem (offset + 2)
      ok (if (qtype == 0) || not (is_class qclass) then failed else dns))
    else ok (by_header false len)

unfoldable pub probe_message : List ℕ → ℕ → Run AppProto
probe_message mem len = if ltb len 12 then ok unknown else do
  flags ← read_be16 mem 2
  qdcount ← read_be16 mem 4
  ancount ← read_be16 mem 6
  nscount ← read_be16 mem 8
  arcount ← read_be16 mem 10
  if is_bad_header flags qdcount ancount nscount arcount
      then ok failed
      else if not (is_response flags) && ltb 12 len
      then scan_qname mem len qname_fuel 12 >>= after_qname mem len
      else ok (by_header (is_response flags) len)

-- `*reverse_flow` is left alone.
unfoldable pub dns_probing_parser : ProbingParser
dns_probing_parser f toserver mem len reverse = do
  protocol ← probe_message mem len
  ok (protocol, reverse)
