-- ===== src/Dns/Record.antt =====
-- `parse_dns_question` and `parse_dns_rr` of src/dns_parser.c.
pub mod Safe
use dpdk_based_nids.Dns.Name.{NameResult, name_size, parse_dns_name}
use dpdk_based_nids.Dns.State.{DnsQuestion, Parsed, unparsed, address, domain, mx, DnsRr}
use dpdk_based_nids.Packet.Memory.{read8, read_be16}
use dpdk_based_nids.Prelude.{
  ℕ, ◌+◌, ◌*◌, ◌^◌, Bool, true, false, List, Option, none, some, length, take, drop, ltb, leb, ◌==◌,
  ◌&&◌, ◌||◌, if◌then◌else◌, Run, ok, ◌>>=◌,
}

-- `rte_be_to_cpu_32` of the four bytes at an offset.
unfoldable pub read_be32 : List ℕ → ℕ → Run ℕ
read_be32 mem at = do hi ← read_be16 mem at; lo ← read_be16 mem (at + 2); ok (hi * 2 ^ 16 + lo)

-- What a section's parser gives: the bytes consumed and the record, or `none` for -1; and the
-- number of calls of DPDK's allocator so far.
abbrev pub Parse : Type 0 → Type 0
Parse A = Option (ℕ × A) × ℕ

-- `grants n` says whether the n-th call of the allocator returns memory.
module _ (isprint : ℕ → Bool) (grants : ℕ → Bool) where
  -- The two allocations behind the checks.
  unfoldable pub alloc_question : ℕ → DnsQuestion → ℕ → Parse DnsQuestion
  alloc_question consumed q k =
      if grants k
      then if grants (k + 1) then (some (consumed, q), k + 2) else (none, k + 2)
      else (none, k + 1)

  unfoldable pub question_after_name : List ℕ → ℕ → ℕ → ℕ → NameResult → Run (Parse DnsQuestion)
  question_after_name mem packet_len start k none = ok (none, k)
  question_after_name mem packet_len start k (some (consumed, name)) =
      let at = start + consumed in
      if ltb packet_len (at + 4) then ok (none, k) else do
        qtype ← read_be16 mem at
        qclass ← read_be16 mem (at + 2)
        ok (
            alloc_question (consumed + 4)
              (record { qname = name; qname_len = length name; qtype = qtype; qclass = qclass }) k)

  unfoldable pub parse_dns_question : List ℕ → ℕ → ℕ → ℕ → Run (Parse DnsQuestion)
  parse_dns_question mem packet_len start k = do
    r ← parse_dns_name isprint name_size mem packet_len start
    question_after_name mem packet_len start k r

  -- A name within the data of a record, and its copy: `none` for NULL.
  unfoldable pub copy_name : ℕ → NameResult → Option (List ℕ) × ℕ
  copy_name k none = (none, k)
  copy_name k (some (consumed, name)) = (if grants k then some name else none, k + 1)

  -- The record types whose data is parsed: A 1, NS 2, CNAME 5, PTR 12, MX 15, AAAA 28.
  unfoldable pub parse_rdata : List ℕ → ℕ → ℕ → ℕ → ℕ → ℕ → Run (Parsed × ℕ)
  parse_rdata mem packet_len type rdlength at k =
      if (type == 1) && (rdlength == 4)
      then ok (address (take 4 (drop at mem)), k)
      else if (type == 28) && (rdlength == 16)
      then ok (address (take 16 (drop at mem)), k)
      else if (type == 5) || ((type == 2) || (type == 12))
      then (do
        r ← parse_dns_name isprint name_size mem packet_len at
        let (name, k') = copy_name k r
        ok (domain name, k'))
      else if (type == 15) && leb 2 rdlength
      then (do
        preference ← read_be16 mem at
        r ← parse_dns_name isprint name_size mem packet_len (at + 2)
        let (name, k') = copy_name k r
        ok (mx preference name, k'))
      else ok (unparsed, k)

  -- Behind the two first allocations: the record has no data, or its copy is allocated.
  unfoldable pub fill_rdata : List ℕ → ℕ → ℕ → ℕ → DnsRr → ℕ → Run (Parse DnsRr)
  fill_rdata mem packet_len consumed at rr k =
      if rr.rdlength == 0
      then ok (some (consumed, rr), k)
      else if grants k
      then (do
        (parsed, k') ← parse_rdata mem packet_len rr.type rr.rdlength at (k + 1)
        ok (
          some (
            consumed,
            record rr { rdata = some (take rr.rdlength (drop at mem)); parsed = parsed },
          ),
          k',
        ))
      else ok (none, k + 1)

  unfoldable pub alloc_rr : List ℕ → ℕ → ℕ → ℕ → DnsRr → ℕ → Run (Parse DnsRr)
  alloc_rr mem packet_len consumed at rr k =
      if grants k
      then if grants (k + 1)
        then fill_rdata mem packet_len consumed at rr (k + 2)
        else ok (none, k + 2)
      else ok (none, k + 1)

  unfoldable pub rr_after_name : List ℕ → ℕ → ℕ → ℕ → NameResult → Run (Parse DnsRr)
  rr_after_name mem packet_len start k none = ok (none, k)
  rr_after_name mem packet_len start k (some (consumed, name)) =
      let at = start + consumed in
      if ltb packet_len (at + 10) then ok (none, k) else do
        type ← read_be16 mem at
        rr_class ← read_be16 mem (at + 2)
        ttl ← read_be32 mem (at + 4)
        rdlength ← read_be16 mem (at + 8)
        if ltb packet_len (at + 10 + rdlength)
            then ok (none, k)
            else alloc_rr mem packet_len (consumed + 10 + rdlength) (at + 10)
                (record {
                  name = name;
                  name_len = length name;
                  type = type;
                  rr_class = rr_class;
                  ttl = ttl;
                  rdlength = rdlength;
                  rdata = none;
                  parsed = unparsed;
                })
                k

  unfoldable pub parse_dns_rr : List ℕ → ℕ → ℕ → ℕ → Run (Parse DnsRr)
  parse_dns_rr mem packet_len start k = do
    r ← parse_dns_name isprint name_size mem packet_len start
    rr_after_name mem packet_len start k r
