-- ===== src/Rules/Check.antt =====
-- `check_condition`, `check_http_rule`, `check_dns_rule` and `check_tls_rule` of
-- src/rule_engine.c, and `http_find_header` of src/http_parser.c. The transactions are not NULL.
pub mod Conditions
pub mod Looked
pub mod Matches
pub mod Strings
use dpdk_based_nids.Dns.State.{DnsQuestion, DnsTransaction}
use dpdk_based_nids.Prelude.{
  ℕ, Bool, true, false, not, List, [], ◌∷◌, ◌++◌, Option, none, some, length, take, ltb, leb, ◌==◌,
  ◌&&◌, ◌||◌, if◌then◌else◌,
}
use dpdk_based_nids.Rules.State.{
  MatchType, content, pcre, by_length, entropy, frequency, RuleCondition, DetectionRule, HttpHeader,
  HttpRequest, HttpTransaction, ClientHello, TlsConn, RuleLibc,
}

-- A check's answer, and the buffer `detail_out`: `none` as long as nothing has been written to it.
abbrev pub Checked : Type 0
Checked = Bool × Option (List ℕ)

-- `snprintf` to a buffer of a size.
abbrev pub print_to : ℕ → List ℕ → Option (List ℕ)
print_to size s = some (take size s)

-- "URI: ", ": ", "Query: ", "SNI: ", "JA3: ", ", SNI: " and "N/A".
abbrev pub uri_label : List ℕ
uri_label = 85 ∷ 82 ∷ 73 ∷ 58 ∷ 32 ∷ []

abbrev pub colon : List ℕ
colon = 58 ∷ 32 ∷ []

abbrev pub query_label : List ℕ
query_label = 81 ∷ 117 ∷ 101 ∷ 114 ∷ 121 ∷ 58 ∷ 32 ∷ []

abbrev pub sni_label : List ℕ
sni_label = 83 ∷ 78 ∷ 73 ∷ 58 ∷ 32 ∷ []

abbrev pub ja3_label : List ℕ
ja3_label = 74 ∷ 65 ∷ 51 ∷ 58 ∷ 32 ∷ []

abbrev pub and_sni_label : List ℕ
and_sni_label = 44 ∷ 32 ∷ sni_label

abbrev pub not_available : List ℕ
not_available = 78 ∷ 47 ∷ 65 ∷ []

-- "Weak cipher detected" in ASCII.
abbrev pub weak_cipher_text : List ℕ
weak_cipher_text =
    87 ∷ 101 ∷ 97 ∷ 107 ∷ 32 ∷ 99 ∷ 105 ∷ 112 ∷ 104 ∷ 101 ∷ 114 ∷ 32 ∷ 100 ∷ 101 ∷ 116 ∷ 101 ∷ 99
    ∷ 116 ∷ 101 ∷ 100 ∷ []

-- "TLS version downgrade detected" in ASCII.
abbrev pub downgrade_text : List ℕ
downgrade_text =
    84 ∷ 76 ∷ 83 ∷ 32 ∷ 118 ∷ 101 ∷ 114 ∷ 115 ∷ 105 ∷ 111 ∷ 110 ∷ 32 ∷ 100 ∷ 111 ∷ 119 ∷ 110 ∷ 103
    ∷ 114 ∷ 97 ∷ 100 ∷ 101 ∷ 32 ∷ 100 ∷ 101 ∷ 116 ∷ 101 ∷ 99 ∷ 116 ∷ 101 ∷ 100 ∷ []

-- "Certificate error: " in ASCII.
abbrev pub cert_error_text : List ℕ
cert_error_text =
    67 ∷ 101 ∷ 114 ∷ 116 ∷ 105 ∷ 102 ∷ 105 ∷ 99 ∷ 97 ∷ 116 ∷ 101 ∷ 32 ∷ 101 ∷ 114 ∷ 114 ∷ 111 ∷ 114
    ∷ 58 ∷ 32 ∷ []

-- "expired " in ASCII.
abbrev pub expired_text : List ℕ
expired_text = 101 ∷ 120 ∷ 112 ∷ 105 ∷ 114 ∷ 101 ∷ 100 ∷ 32 ∷ []

-- "self-signed" in ASCII.
abbrev pub self_signed_text : List ℕ
self_signed_text = 115 ∷ 101 ∷ 108 ∷ 102 ∷ 45 ∷ 115 ∷ 105 ∷ 103 ∷ 110 ∷ 101 ∷ 100 ∷ []

abbrev pub or_else : Option (List ℕ) → List ℕ → List ℕ
or_else none s = s
or_else (some t) s = t

module _ (c : RuleLibc) where
  -- The haystack is not NULL.
  unfoldable pub string_contains : List ℕ → Option (List ℕ) → Bool → Bool
  string_contains haystack none case_sensitive = false
  string_contains haystack (some needle) case_sensitive =
      if case_sensitive then c.strstr haystack needle else c.strcasestr haystack needle

  unfoldable pub matches_type : MatchType → RuleCondition → List ℕ → Bool
  matches_type content cond s = string_contains s cond.pattern cond.case_sensitive
  matches_type by_length cond s =
      leb cond.min_length (length s)
      && (not (ltb 0 cond.max_length) || leb (length s) cond.max_length)
  matches_type entropy cond s =
      let e = c.calculate_entropy s in
      c.double_le cond.min_entropy e && c.double_le e cond.max_entropy
  matches_type _ cond s = false

  -- Neither argument is NULL.
  unfoldable pub check_condition : RuleCondition → List ℕ → Bool
  check_condition cond s =
      if cond.negated then not (matches_type cond.type cond s) else matches_type cond.type cond s

  -- The loops over the conditions, which end at the first that fails.
  unfoldable pub all_match : List RuleCondition → List ℕ → Bool
  all_match [] s = true
  all_match (cond ∷ conds) s = if check_condition cond s then all_match conds s else false

  -- Such a loop, with what stands around it: `all_conditions_match` and the buffer.
  unfoldable pub examine : List RuleCondition → List ℕ → List ℕ → Checked → Checked
  examine conds label s (so_far, detail) =
      let all = so_far && all_match conds s in
      (all, if all then print_to 255 (label ++ s) else detail)

  abbrev pub examine_value : List RuleCondition → List ℕ → Option (List ℕ) → Checked → Checked
  examine_value conds label none r = r
  examine_value conds label (some s) r = examine conds label s r

  abbrev pub has_name : Option (List ℕ) → List ℕ → Bool
  has_name none name = false
  has_name (some n) name = c.strcasecmp n name

  unfoldable pub http_find_header : List HttpHeader → List ℕ → Option HttpHeader
  http_find_header [] name = none
  http_find_header (h ∷ hs) name = if has_name h.name name then some h else http_find_header hs name

  abbrev pub value_of : Option HttpHeader → Option (List ℕ)
  value_of none = none
  value_of (some h) = h.value

  -- The part on the URI.
  unfoldable pub examine_uri : DetectionRule → HttpRequest → Checked → Checked
  examine_uri rule req r =
      if rule.check_uri then examine_value rule.conditions uri_label req.uri r else r

  -- The part on a header.
  unfoldable pub examine_header : Option (List ℕ) → DetectionRule → HttpRequest → Checked → Checked
  examine_header none rule req r = r
  examine_header (some target) rule req r =
      if rule.check_headers
      then examine_value rule.conditions (target ++ colon)
          (value_of (http_find_header req.headers target)) r
      else r

  unfoldable pub examine_request : DetectionRule → Option HttpRequest → Checked → Checked
  examine_request rule none r = r
  examine_request rule (some req) r =
      examine_header rule.target_header rule req (examine_uri rule req r)

  unfoldable pub check_http_rule : DetectionRule → HttpTransaction → Option (List ℕ) → Checked
  check_http_rule rule tx detail =
      if rule.enabled then examine_request rule tx.request (true, detail) else (false, detail)

  -- The part on the first question.
  unfoldable pub examine_query : DetectionRule → List DnsQuestion → Option (List ℕ) → Checked
  examine_query rule [] detail = (true, detail)
  examine_query rule (q ∷ qs) detail =
      if not (rule.qtype == 0) && not (q.qtype == rule.qtype)
      then (false, detail)
      else examine rule.conditions query_label q.qname (true, detail)

  unfoldable pub check_dns_rule : DetectionRule → DnsTransaction → Option (List ℕ) → Checked
  check_dns_rule rule tx detail =
      if rule.enabled
      then (if rule.check_query then examine_query rule tx.questions detail else (true, detail))
      else (false, detail)

  abbrev pub is_content : MatchType → Bool
  is_content content = true
  is_content _ = false

  abbrev pub differs : Bool → Bool → Bool
  differs true b = not b
  differs false b = b

  -- The loop over the conditions, which ends at the first that holds.
  unfoldable pub any_sni : List RuleCondition → List ℕ → Bool
  any_sni [] sni = false
  any_sni (cond ∷ conds) sni =
      if is_content cond.type
        && differs (string_contains sni cond.pattern cond.case_sensitive) cond.negated
      then true
      else any_sni conds sni

  unfoldable pub to_hex : List ℕ → List ℕ
  to_hex [] = []
  to_hex (b ∷ bs) = c.hex_byte b ++ to_hex bs

  -- The checks on the client's hello: what is printed if one holds.
  abbrev pub check_sni : DetectionRule → Option (List ℕ) → Option (List ℕ)
  check_sni rule none = none
  check_sni rule (some sni) =
      if rule.check_sni && any_sni rule.conditions sni
      then print_to 511 (sni_label ++ sni)
      else none

  abbrev pub check_ja3 : DetectionRule → Option (List ℕ) → ClientHello → Option (List ℕ)
  check_ja3 rule none hello = none
  check_ja3 rule (some hash) hello =
      let hex = to_hex hello.ja3_hash in
      if rule.check_ja3 && c.strcasestr hex hash
      then print_to 511 (ja3_label ++ (hex ++ (and_sni_label ++ or_else hello.sni not_available)))
      else none

  abbrev pub first_some : Option (List ℕ) → Option (List ℕ) → Option (List ℕ)
  first_some none o = o
  first_some (some s) o = some s

  unfoldable pub check_hello : DetectionRule → Option ClientHello → Option (List ℕ)
  check_hello rule none = none
  check_hello rule (some hello) =
      first_some (check_sni rule hello.sni) (check_ja3 rule rule.ja3_hash hello)

  -- The checks on the flags of the connection.
  unfoldable pub check_flags : DetectionRule → TlsConn → Option (List ℕ)
  check_flags rule conn =
      if rule.check_cipher && conn.weak_cipher
      then print_to 511 weak_cipher_text
      else if rule.check_version && conn.version_downgrade
      then print_to 511 downgrade_text
      else if rule.check_cert && (conn.expired_cert || conn.self_signed_cert)
      then print_to 511 (
          cert_error_text
          ++ ((if conn.expired_cert then expired_text else [])
              ++ (if conn.self_signed_cert then self_signed_text else [])))
      else none

  abbrev pub answer : Option (List ℕ) → Option (List ℕ) → Checked
  answer none detail = (false, detail)
  answer (some printed) detail = (true, some printed)

  unfoldable pub check_tls_rule : DetectionRule → TlsConn → Option (List ℕ) → Checked
  check_tls_rule rule conn detail =
      if rule.enabled
      then answer (first_some (check_hello rule conn.client_hello) (check_flags rule conn)) detail
      else (false, detail)
