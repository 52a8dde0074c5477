-- ===== src/Tests/Alerts.antt =====
-- The engine of src/rule_engine.c with the built-in rules 1003, 2002 and 3001.
use dpdk_based_nids.Detect.State.{http, dns, tls}
use dpdk_based_nids.Dns.State.{DnsQuestion, DnsTransaction}
use dpdk_based_nids.Prelude.{
  ℕ, ◌≡◌, ◌↔◌, refl, arith, Bool, true, false, ◌==◌, List, [], ◌∷◌, none, some, take, length, leb,
  ok, fault, uninitialised,
}
use dpdk_based_nids.Rules.Alert.Counted.{IsCounted, create_alert-newest}
use dpdk_based_nids.Rules.Alert.{rule_engine_init, rule_engine_add_rule, create_alert}
use dpdk_based_nids.Rules.Check.Looked.{looked_at}
use dpdk_based_nids.Rules.Check.Matches.{AllHold, check_http_rule_iff}
use dpdk_based_nids.Rules.Check.Strings.{UriOf, HeaderOf, IsAbout}
use dpdk_based_nids.Rules.Check.{check_http_rule, check_dns_rule}
use dpdk_based_nids.Rules.Inspect.Counts.{matching, HasCounted, rule_engine_inspect_http-HasCounted}
use dpdk_based_nids.Rules.Inspect.Queries.{rule_engine_inspect_dns-HasCounted}
use dpdk_based_nids.Rules.Inspect.Unwritten.{rule_engine_inspect_dns-unwritten}
use dpdk_based_nids.Rules.Inspect.{
  is_http, is_dns, Inspected, rule_engine_inspect_http, rule_engine_inspect_dns,
}
use dpdk_based_nids.Rules.State.{
  medium, web_attack, malware, content, RuleCondition, DetectionRule, Alert, RuleEngine,
  HttpTransaction, TlsConn, RuleLibc,
}
use dpdk_based_nids.Tests.Flows.{web_flow}

-- A substring test that only looks at the start.
abbrev starts : List ℕ → List ℕ → Bool
starts s [] = true
starts [] (b ∷ t) = false
starts (a ∷ s) (b ∷ t) = if_same (a == b) (starts s t)
  where
    if_same : Bool → Bool → Bool
    if_same true r = r
    if_same false r = false

abbrev rule_libc : RuleLibc
rule_libc = record {
  strstr = starts;
  strcasestr = starts;
  strcasecmp = starts;
  calculate_entropy = length;
  double_le = leb;
  hex_byte = λ b. b ∷ [];
}

-- "<a" for "<script".
abbrev script : RuleCondition
script = record {
  type = content;
  pattern = some (60 ∷ 97 ∷ []);
  case_sensitive = false;
  negated = false;
  min_length = 0;
  max_length = 0;
  min_entropy = 0;
  max_entropy = 0;
}

abbrev uri_rule : DetectionRule
uri_rule = record {
  rule_id = 1003;
  enabled = true;
  name = some (88 ∷ 83 ∷ 83 ∷ []);
  severity = medium;
  category = web_attack;
  protocol = http;
  conditions = script ∷ [];
  check_uri = true;
  check_headers = false;
  target_header = none;
  check_query = false;
  qtype = 0;
  check_sni = false;
  check_ja3 = false;
  check_cipher = false;
  check_version = false;
  check_cert = false;
  ja3_hash = none;
}

abbrev name_rule : DetectionRule
name_rule = record uri_rule {
  rule_id = 2002;
  category = malware;
  protocol = dns;
  check_uri = false;
  check_query = true;
}

abbrev cipher_rule : DetectionRule
cipher_rule = record uri_rule {
  rule_id = 3001;
  protocol = tls;
  check_uri = false;
  check_cipher = true;
}

abbrev engine : RuleEngine
engine = rule_engine_add_rule name_rule (rule_engine_add_rule uri_rule rule_engine_init)

engine-IsCounted : IsCounted engine
unfolding rule_engine_init rule_engine_add_rule
engine-IsCounted = record {
  count = refl;
  bounded = omega arith;
  some_room = omega arith;
  narrow = omega arith;
}

create_alert-newest_example :
    (a : Alert) × (a.rule_id ≡ 1003)
    × (a.severity ≡ medium)
    × ((create_alert (λ n. true) uri_rule web_flow (some (1 ∷ [])) 0 engine).0.alerts
        ≡ take engine.max_alerts (a ∷ engine.alerts))
create_alert-newest_example =
    create_alert-newest (λ n. true) uri_rule web_flow (some (1 ∷ [])) 0 engine engine-IsCounted refl

-- A request for "<a".
abbrev script_request : HttpTransaction
script_request = record { request = some (record { uri = some (60 ∷ 97 ∷ []); headers = [] }) }

script_request-IsAbout : IsAbout rule_libc uri_rule script_request.request ((60 ∷ 97 ∷ []) ∷ [])
script_request-IsAbout = (
  (60 ∷ 97 ∷ []) ∷ [],
  [],
  UriOf.its_uri (60 ∷ 97 ∷ []) refl refl refl,
  HeaderOf.unchecked refl refl,
  refl,
)

check_http_rule_iff_example :
    ((check_http_rule rule_libc uri_rule script_request none).0 ≡ true)
    ↔ ((true ≡ true) × AllHold rule_libc (script ∷ []) ((60 ∷ 97 ∷ []) ∷ []))
check_http_rule_iff_example =
    check_http_rule_iff rule_libc uri_rule script_request none ((60 ∷ 97 ∷ []) ∷ [])
      script_request-IsAbout

rule_engine_inspect_http-HasCounted_example :
    (r : Inspected) × (rule_engine_inspect_http
        (λ n. true)
        rule_libc
        web_flow
        script_request
        0
        engine
      ≡ ok r)
    × HasCounted
        (λ n. true)
        engine.alerts_generated
        (matching
          (λ rule. (check_http_rule rule_libc rule script_request none).0)
          is_http
          engine.rules)
        r
unfolding rule_engine_init rule_engine_add_rule looked_at
rule_engine_inspect_http-HasCounted_example =
    rule_engine_inspect_http-HasCounted rule_libc (λ n. true) web_flow script_request 0 engine
      engine-IsCounted ((λ h. absurd (ground (arith, h))), ((λ h. omega arith), tt))

abbrev weak_conn : TlsConn
weak_conn = record {
  client_hello = none;
  weak_cipher = true;
  version_downgrade = false;
  expired_cert = false;
  self_signed_cert = false;
}

abbrev question : DnsQuestion
question = record { qname = 60 ∷ 97 ∷ []; qname_len = 2; qtype = 1; qclass = 1 }

abbrev empty_response : DnsTransaction
empty_response = record {
  txid = 7;
  is_response = true;
  opcode = 0;
  recursion_desired = true;
  qdcount = 0;
  questions = [];
  rcode = 0;
  authoritative = false;
  truncated = false;
  recursion_available = true;
  ancount = 0;
  nscount = 0;
  arcount = 0;
  answers = [];
  authority = [];
  additional = [];
  query_len = 0;
  response_len = 12;
}

abbrev answered : DnsTransaction
answered = record empty_response { qdcount = 1; questions = question ∷ [] }

rule_engine_inspect_dns-HasCounted_example :
    (r : Inspected) × (rule_engine_inspect_dns (λ n. true) rule_libc web_flow answered 0 engine
      ≡ ok r)
    × HasCounted
        (λ n. true)
        engine.alerts_generated
        (matching (λ rule. (check_dns_rule rule_libc rule answered none).0) is_dns engine.rules)
        r
unfolding rule_engine_init rule_engine_add_rule
rule_engine_inspect_dns-HasCounted_example =
    rule_engine_inspect_dns-HasCounted rule_libc (λ n. true) web_flow answered question [] refl 0
      engine engine-IsCounted ((λ h. refl), ((λ h. absurd (ground (arith, h))), tt))

rule_engine_inspect_dns-unwritten_example :
    rule_engine_inspect_dns (λ n. true) rule_libc web_flow empty_response 0 engine
    ≡ fault uninitialised
unfolding rule_engine_init rule_engine_add_rule
rule_engine_inspect_dns-unwritten_example =
    rule_engine_inspect_dns-unwritten (λ n. true) rule_libc web_flow empty_response 0 engine
      name_rule (uri_rule ∷ []) refl refl refl refl refl
