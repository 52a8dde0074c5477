-- ===== src/Dns/Parser/Safe.antt =====
-- What `dns_parser_parse` does with any bytes.
use dpdk_based_nids.Dns.Parser.{Libc, rounds, Questions, Records, Parsing}
use dpdk_based_nids.Dns.Record.Safe.{OverlongName}
use dpdk_based_nids.Dns.State.{DnsTransaction, DnsConn}
use dpdk_based_nids.Prelude.{
  ℕ, ◌+◌, ◌≤◌, ◌≡◌, Bool, true, false, List, ◌∷◌, none, some, length, drop, add32,
}

-- The transactions, and their number, are those of another connection.
pub record SameList (old conn : DnsConn) : Type 0 where
  pub list : conn.transactions ≡ old.transactions
  pub count : conn.tx_count ≡ old.tx_count

-- A transaction has been put in front, with all the questions that its header announces, ten at
-- most, and no more records than the limits.
pub record IsAdded (old conn : DnsConn) (tx : DnsTransaction) : Type 0 where
  pub list : conn.transactions ≡ tx ∷ old.transactions
  pub count : conn.tx_count ≡ add32 old.tx_count 1
  pub questions : length tx.questions ≡ rounds tx.qdcount 10
  pub answers : length tx.answers ≤ 20
  pub authority : length tx.authority ≤ 10
  pub additional : length tx.additional ≤ 10

abbrev pub IsParsed : DnsConn → Parsing → Type 0
IsParsed old (true, k, conn) = (tx : DnsTransaction) × IsAdded old conn tx
IsParsed old (false, k, conn) = SameList old conn

-- A function on connections that leaves the transactions alone.
abbrev LeavesList : (DnsConn → DnsConn) → Type 0
LeavesList f = (old conn : DnsConn) → SameList old conn → SameList old (f conn)

abbrev AreQuestions : DnsConn → ℕ → Questions → Type 0
AreQuestions old n (none, k, conn) = SameList old conn
AreQuestions old n (some (qs, at), k, conn) = SameList old conn × (length qs ≡ n)

abbrev AreRecords : DnsConn → ℕ → Records → Type 0
AreRecords old n (rrs, at, k, conn) = SameList old conn × (length rrs ≤ n)

module _ (c : Libc) (grants : ℕ → Bool) (old : DnsConn) where
  module _ (mem : List ℕ) (packet_len : ℕ) (held : packet_len ≤ length mem) where
    abbrev W : Type 0
    W = OverlongName c.isprint mem packet_len

  -- Over TCP, in the message behind its length.
  abbrev pub OverlongIn : List ℕ → ℕ → Bool → Type 0
  OverlongIn mem len false = OverlongName c.isprint mem len
  OverlongIn mem len true = (n : ℕ) × (n + 2 ≤ len) × OverlongName c.isprint (drop 2 mem) n
