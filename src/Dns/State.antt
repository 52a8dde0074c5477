-- ===== src/Dns/State.antt =====
-- The structures of src/dns_parser.h. A string is the list of its bytes.
use dpdk_based_nids.Prelude.{ℕ, Bool, List, Option}

pub record DnsQuestion : Type 0 where
  pub qname : List ℕ
  pub qname_len : ℕ
  pub qtype : ℕ
  pub qclass : ℕ

-- The union `parsed`, with the case that the record's type selects; a name is `none` for NULL.
pub data Parsed : Type 0 where
  unparsed : Parsed
  address : List ℕ → Parsed
  domain : Option (List ℕ) → Parsed
  mx : ℕ → Option (List ℕ) → Parsed

-- `rdata` is `none` for NULL.
pub record DnsRr : Type 0 where
  pub name : List ℕ
  pub name_len : ℕ
  pub type : ℕ
  pub rr_class : ℕ
  pub ttl : ℕ
  pub rdlength : ℕ
  pub rdata : Option (List ℕ)
  pub parsed : Parsed

-- The time stamps, which nothing sets, are left out.
pub record DnsTransaction : Type 0 where
  pub txid : ℕ
  pub is_response : Bool
  pub opcode : ℕ
  pub recursion_desired : Bool
  pub qdcount : ℕ
  pub questions : List DnsQuestion
  pub rcode : ℕ
  pub authoritative : Bool
  pub truncated : Bool
  pub recursion_available : Bool
  pub ancount : ℕ
  pub nscount : ℕ
  pub arcount : ℕ
  pub answers : List DnsRr
  pub authority : List DnsRr
  pub additional : List DnsRr
  pub query_len : ℕ
  pub response_len : ℕ

-- The two flags that nothing sets are left out.
pub record DnsConn : Type 0 where
  pub transactions : List DnsTransaction
  pub tx_count : ℕ
  pub queries_parsed : ℕ
  pub responses_parsed : ℕ
  pub parse_errors : ℕ
  pub nxdomain_count : ℕ
  pub a_records : ℕ
  pub aaaa_records : ℕ
  pub cname_records : ℕ
  pub txt_records : ℕ
  pub suspicious_tld : Bool
  pub high_entropy_domain : Bool
