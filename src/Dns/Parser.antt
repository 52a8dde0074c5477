-- ===== src/Dns/Parser.antt =====
-- `dns_parser_parse` and the queries on its transactions, of src/dns_parser.c.
pub mod Safe
use dpdk_based_nids.Dns.Record.{Parse, parse_dns_question, parse_dns_rr}
use dpdk_based_nids.Dns.State.{DnsQuestion, DnsRr, DnsTransaction, DnsConn}
use dpdk_based_nids.Packet.Memory.{read8, read_be16}
use dpdk_based_nids.Prelude.{
  ℕ, zero, suc, ◌+◌, ◌-◌, ◌/◌, ◌%◌, ◌^◌, Bool, true, false, not, List, [], ◌∷◌, Option, none, some,
  drop, ltb, ◌==◌, ◌&&◌, ◌||◌, if◌then◌else◌, add32, add64, Run, ok, ◌>>=◌,
}

abbrev pub header_size : ℕ
header_size = 12

-- A bit of the flags, by its value.
abbrev pub has_flag : ℕ → ℕ → Bool
has_flag flags bit = flags / bit % 2 == 1

-- `.xyz`, `.top`, `.club`, `.work`, `.click`, `.country`, `.stream`, `.download`, `.loan`,
-- `.win`, `.bid`, `.gq`, `.ml`, `.cf` and `.tk` in ASCII.
abbrev pub suspicious_tlds : List (List ℕ)
suspicious_tlds =
    (46 ∷ 120 ∷ 121 ∷ 122 ∷ [])
    ∷ (46 ∷ 116 ∷ 111 ∷ 112 ∷ [])
    ∷ (46 ∷ 99 ∷ 108 ∷ 117 ∷ 98 ∷ [])
    ∷ (46 ∷ 119 ∷ 111 ∷ 114 ∷ 107 ∷ [])
    ∷ (46 ∷ 99 ∷ 108 ∷ 105 ∷ 99 ∷ 107 ∷ [])
    ∷ (46 ∷ 99 ∷ 111 ∷ 117 ∷ 110 ∷ 116 ∷ 114 ∷ 121 ∷ [])
    ∷ (46 ∷ 115 ∷ 116 ∷ 114 ∷ 101 ∷ 97 ∷ 109 ∷ [])
    ∷ (46 ∷ 100 ∷ 111 ∷ 119 ∷ 110 ∷ 108 ∷ 111 ∷ 97 ∷ 100 ∷ [])
    ∷ (46 ∷ 108 ∷ 111 ∷ 97 ∷ 110 ∷ [])
    ∷ (46 ∷ 119 ∷ 105 ∷ 110 ∷ [])
    ∷ (46 ∷ 98 ∷ 105 ∷ 100 ∷ [])
    ∷ (46 ∷ 103 ∷ 113 ∷ [])
    ∷ (46 ∷ 109 ∷ 108 ∷ [])
    ∷ (46 ∷ 99 ∷ 102 ∷ [])
    ∷ (46 ∷ 116 ∷ 107 ∷ [])
    ∷ []

unfoldable pub any_tld : (List ℕ → List ℕ → Bool) → List ℕ → List (List ℕ) → Bool
any_tld strstr domain [] = false
any_tld strstr domain (t ∷ ts) = if strstr domain t then true else any_tld strstr domain ts

unfoldable pub dot_count : List ℕ → ℕ
dot_count [] = 0
dot_count (c ∷ cs) = (if c == 46 then 1 else 0) + dot_count cs

unfoldable pub any_unprintable : (ℕ → Bool) → List ℕ → Bool
any_unprintable isprint [] = false
any_unprintable isprint (c ∷ cs) =
    if not (isprint c) && not (c == 46) then true else any_unprintable isprint cs

-- `strstr h n` stands for `strstr(h, n) != NULL`.
unfoldable pub dns_is_suspicious_domain : (List ℕ → List ℕ → Bool) → (ℕ → Bool) → List ℕ → Bool
dns_is_suspicious_domain strstr isprint domain =
    any_tld strstr domain suspicious_tlds
    || (ltb 5 (dot_count domain) || any_unprintable isprint domain)

-- C's functions, and whether `dns_calculate_entropy` of a name is greater than 4.5, which is a
-- computation in floating point.
pub record Libc : Type 0 where
  pub isprint : ℕ → Bool
  pub strstr : List ℕ → List ℕ → Bool
  pub is_high_entropy : List ℕ → Bool

unfoldable pub note_question : Libc → DnsQuestion → DnsConn → DnsConn
note_question c q conn = record conn {
  suspicious_tld = conn.suspicious_tld || dns_is_suspicious_domain c.strstr c.isprint q.qname;
  high_entropy_domain = conn.high_entropy_domain || c.is_high_entropy q.qname;
}

-- The `switch` on the type of an answer.
unfoldable pub count_record : DnsRr → DnsConn → DnsConn
count_record rr conn =
    if rr.type == 1
    then record conn { a_records = add64 conn.a_records 1 }
    else if rr.type == 28
    then record conn { aaaa_records = add64 conn.aaaa_records 1 }
    else if rr.type == 5
    then record conn { cname_records = add64 conn.cname_records 1 }
    else if rr.type == 16
    then record conn { txt_records = add64 conn.txt_records 1 }
    else conn

unfoldable pub count_error : DnsConn → DnsConn
count_error conn = record conn { parse_errors = add64 conn.parse_errors 1 }

unfoldable pub count_message : DnsTransaction → DnsConn → DnsConn
count_message tx conn =
    if tx.is_response
    then record conn {
      responses_parsed = add64 conn.responses_parsed 1;
      nxdomain_count = if tx.rcode == 3 then add64 conn.nxdomain_count 1 else conn.nxdomain_count;
    }
    else record conn { queries_parsed = add64 conn.queries_parsed 1 }

-- The rounds of a loop over `n` items and at most `limit`.
abbrev pub rounds : ℕ → ℕ → ℕ
rounds n limit = if ltb n limit then n else limit

-- The questions with the offset behind them, or `none` for an error; the calls of the allocator;
-- the connection.
abbrev pub Questions : Type 0
Questions = Option (List DnsQuestion × ℕ) × ℕ × DnsConn

abbrev pub Records : Type 0
Records = List DnsRr × ℕ × ℕ × DnsConn

-- True for the return value 0.
abbrev pub Parsing : Type 0
Parsing = Bool × ℕ × DnsConn

abbrev pub add_question : DnsQuestion → Questions → Questions
add_question q (none, k, conn) = (none, k, conn)
add_question q (some (qs, at), k, conn) = (some (q ∷ qs, at), k, conn)

abbrev pub add_record : DnsRr → Records → Records
add_record rr (rrs, at, k, conn) = (rr ∷ rrs, at, k, conn)

unfoldable pub finish : DnsTransaction → ℕ → DnsConn → Parsing
finish tx k conn = (
  true,
  k,
  record conn { transactions = tx ∷ conn.transactions; tx_count = add32 conn.tx_count 1 },
)

-- The transaction of a header; `packet_len` is its length as a query or as a response.
unfoldable pub new_transaction : ℕ → ℕ → ℕ → ℕ → ℕ → ℕ → ℕ → DnsTransaction
new_transaction txid flags qdcount ancount nscount arcount packet_len =
    let is_response = has_flag flags 0x8000 in
    record {
      txid = txid;
      is_response = is_response;
      opcode = flags / 2 ^ 11 % 16;
      recursion_desired = has_flag flags 0x0100;
      qdcount = qdcount;
      questions = [];
      rcode = flags % 16;
      authoritative = has_flag flags 0x0400;
      truncated = has_flag flags 0x0200;
      recursion_available = has_flag flags 0x0080;
      ancount = ancount;
      nscount = nscount;
      arcount = arcount;
      answers = [];
      authority = [];
      additional = [];
      query_len = if is_response then 0 else packet_len;
      response_len = if is_response then packet_len else 0;
    }

module _ (c : Libc) (grants : ℕ → Bool) where
  unfoldable pub next_question :
      (ℕ → ℕ → DnsConn → Run Questions) → ℕ → DnsConn → Parse DnsQuestion → Run Questions
  next_question rest at conn (none, k) = ok (none, k, conn)
  next_question rest at conn (some (consumed, q), k) = do
    r ← rest (at + consumed) k (note_question c q conn)
    ok (add_question q r)

  unfoldable pub question_loop : List ℕ → ℕ → ℕ → ℕ → ℕ → DnsConn → Run Questions
  question_loop mem packet_len zero at k conn = ok (some ([], at), k, conn)
  question_loop mem packet_len (suc n) at k conn = do
    p ← parse_dns_question c.isprint grants mem packet_len at k
    next_question (question_loop mem packet_len n) at conn p

  -- A record that cannot be parsed ends its section. `count` is what the section counts.
  unfoldable pub next_rr :
      (DnsRr → DnsConn → DnsConn)
      → (ℕ → ℕ → DnsConn → Run Records)
      → ℕ
      → DnsConn
      → Parse DnsRr
      → Run Records
  next_rr count rest at conn (none, k) = ok ([], at, k, conn)
  next_rr count rest at conn (some (consumed, rr), k) = do
    r ← rest (at + consumed) k (count rr conn)
    ok (add_record rr r)

  unfoldable pub rr_loop :
      (DnsRr → DnsConn → DnsConn) → List ℕ → ℕ → ℕ → ℕ → ℕ → DnsConn → Run Records
  rr_loop count mem packet_len zero at k conn = ok ([], at, k, conn)
  rr_loop count mem packet_len (suc n) at k conn = do
    p ← parse_dns_rr c.isprint grants mem packet_len at k
    next_rr count (rr_loop count mem packet_len n) at conn p

  -- The three sections of a response.
  unfoldable pub parse_response : List ℕ → ℕ → DnsTransaction → ℕ → ℕ → DnsConn → Run Parsing
  parse_response mem packet_len tx at k conn = do
    (answers, at₁, k₁, conn₁) ← rr_loop count_record mem packet_len (rounds tx.ancount 20) at k conn
    (authority, at₂, k₂, conn₂) ←
        rr_loop (λ rr conn. conn) mem packet_len (rounds tx.nscount 10) at₁ k₁ conn₁
    (additional, at₃, k₃, conn₃) ←
        rr_loop (λ rr conn. conn) mem packet_len (rounds tx.arcount 10) at₂ k₂ conn₂
    ok (
        finish (record tx { answers = answers; authority = authority; additional = additional }) k₃
          conn₃)

  unfoldable pub after_questions : List ℕ → ℕ → DnsTransaction → Questions → Run Parsing
  after_questions mem packet_len tx (none, k, conn) = ok (false, k, count_error conn)
  after_questions mem packet_len tx (some (qs, at), k, conn) =
      if tx.is_response
      then parse_response mem packet_len (record tx { questions = qs }) at k conn
      else ok (finish (record tx { questions = qs }) k conn)

  unfoldable pub parse_sections : List ℕ → ℕ → DnsTransaction → ℕ → DnsConn → Run Parsing
  parse_sections mem packet_len tx k conn = do
    qs ← question_loop mem packet_len (rounds tx.qdcount 10) header_size k (count_message tx conn)
    after_questions mem packet_len tx qs

  unfoldable pub parse_packet : List ℕ → ℕ → ℕ → DnsConn → Run Parsing
  parse_packet mem packet_len k conn =
      if ltb packet_len header_size then ok (false, k, count_error conn) else do
        txid ← read_be16 mem 0
        flags ← read_be16 mem 2
        qdcount ← read_be16 mem 4
        ancount ← read_be16 mem 6
        nscount ← read_be16 mem 8
        arcount ← read_be16 mem 10
        let tx = new_transaction txid flags qdcount ancount nscount arcount packet_len
        if grants k
            then parse_sections mem packet_len tx (k + 1) conn
            else ok (false, k + 1, count_error conn)

  -- Over TCP the message stands behind its length in two bytes.
  unfoldable pub dns_parser_parse : List ℕ → ℕ → Bool → ℕ → DnsConn → Run Parsing
  dns_parser_parse mem len false k conn = parse_packet mem len k conn
  dns_parser_parse mem len true k conn = if ltb len 2 then ok (false, k, conn) else do
    dns_len ← read_be16 mem 0
    if ltb (len - 2) dns_len then ok (false, k, conn) else parse_packet (drop 2 mem) dns_len k conn

unfoldable pub dns_get_latest_transaction : DnsConn → Option DnsTransaction
dns_get_latest_transaction conn = latest conn.transactions
  where
    latest : List DnsTransaction → Option DnsTransaction
    latest [] = none
    latest (tx ∷ txs) = some tx

unfoldable pub find_txid : ℕ → List DnsTransaction → Option DnsTransaction
find_txid txid [] = none
find_txid txid (tx ∷ txs) = if tx.txid == txid then some tx else find_txid txid txs

unfoldable pub dns_find_transaction : DnsConn → ℕ → Option DnsTransaction
dns_find_transaction conn txid = find_txid txid conn.transactions
