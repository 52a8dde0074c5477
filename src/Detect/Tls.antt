-- ===== src/Detect/Tls.antt =====
-- `tls_probing_parser` of src/proto_tls.c.
pub mod Accepts
use dpdk_based_nids.Detect.State.{AppProto, unknown, tls, failed, ProbingParser}
use dpdk_based_nids.Packet.Memory.{read8, read_be16}
use dpdk_based_nids.Prelude.{
  ℕ, Bool, List, ltb, leb, ◌==◌, ◌&&◌, ◌||◌, if◌then◌else◌, Run, ok, ◌>>=◌,
}

-- The content types, by their numbers.
abbrev pub is_content_type : ℕ → Bool
is_content_type b = leb 20 b && leb b 24

abbrev pub handshake : ℕ
handshake = 22

abbrev pub is_version : ℕ → Bool
is_version v = leb 0x0300 v && leb v 0x0304

abbrev pub max_record_len : ℕ
max_record_len = 16384

-- The six types that the source names. An unknown one gives the same answer.
abbrev pub is_handshake_type : ℕ → Bool
is_handshake_type t = (t == 1) || (t == 2) || (t == 11) || (t == 12) || (t == 13) || (t == 14)

-- The answer for data that starts with no content type: the hello of SSL 2. The highest bit of a
-- byte is set if it is at least 128.
unfoldable pub probe_sslv2 : List ℕ → ℕ → ℕ → Run AppProto
probe_sslv2 mem len first =
    if leb 128 first && leb 3 len
    then (do msg_type ← read8 mem 2; ok (if msg_type == 1 then tls else failed))
    else ok failed

unfoldable pub probe_content : List ℕ → ℕ → ℕ → Run AppProto
probe_content mem len content_type =
    if (content_type == handshake) && leb 6 len
    then (do
      handshake_type ← read8 mem 5
      ok (if is_handshake_type handshake_type then tls else tls))
    else ok (
        if (content_type == 23)
          || (content_type == 20)
          || (content_type == 21)
          || (content_type == 24)
        then tls
        else unknown)

unfoldable pub probe_record : List ℕ → ℕ → Run AppProto
probe_record mem len = if ltb len 5 then ok unknown else do
  content_type ← read8 mem 0
  version ← read_be16 mem 1
  record_len ← read_be16 mem 3
  if is_content_type content_type
      then (if is_version version && leb record_len max_record_len
          then probe_content mem len content_type
          else ok failed)
      else probe_sslv2 mem len content_type

-- `*reverse_flow` is left alone.
unfoldable pub tls_probing_parser : ProbingParser
tls_probing_parser f toserver mem len reverse = do
  protocol ← probe_record mem len
  ok (protocol, reverse)
