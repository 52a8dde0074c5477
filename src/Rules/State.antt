-- ===== src/Rules/State.antt =====
-- The structures of src/rule_engine.h, and what the engine reads of a transaction. A string is
-- the list of its bytes, `none` for NULL.
use dpdk_based_nids.Detect.State.{AppProto}
use dpdk_based_nids.Prelude.{ℕ, Bool, List, Option}

pub data Severity : Type 0 where
  info low medium high critical : Severity

pub data Category : Type 0 where
  unknown web_attack malware policy_violation recon dos data_leak anomaly scan : Category
  brute_force exfiltration crypto : Category

pub data MatchType : Type 0 where
  content pcre by_length entropy frequency : MatchType

-- A `double` is its 64 bits.
pub record RuleCondition : Type 0 where
  pub type : MatchType
  pub pattern : Option (List ℕ)
  pub case_sensitive : Bool
  pub negated : Bool
  pub min_length : ℕ
  pub max_length : ℕ
  pub min_entropy : ℕ
  pub max_entropy : ℕ

-- The members that no check reads (`description`, `check_body`, `check_method` and
-- `check_response`) are left out. The members of `http`, `dns` and `tls` have their names.
pub record DetectionRule : Type 0 where
  pub rule_id : ℕ
  pub enabled : Bool
  pub name : Option (List ℕ)
  pub severity : Severity
  pub category : Category
  pub protocol : AppProto
  pub conditions : List RuleCondition
  pub check_uri : Bool
  pub check_headers : Bool
  pub target_header : Option (List ℕ)
  pub check_query : Bool
  pub qtype : ℕ
  pub check_sni : Bool
  pub check_ja3 : Bool
  pub check_cipher : Bool
  pub check_version : Bool
  pub check_cert : Bool
  pub ja3_hash : Option (List ℕ)

-- The time stamp is left out.
pub record Alert : Type 0 where
  pub alert_id : ℕ
  pub rule_id : ℕ
  pub severity : Severity
  pub category : Category
  pub protocol : AppProto
  pub message : Option (List ℕ)
  pub detail : Option (List ℕ)
  pub src_ip : ℕ
  pub dst_ip : ℕ
  pub src_port : ℕ
  pub dst_port : ℕ

-- The engine with its statistics; the newest rule and the newest alert come first. JSON output
-- is left out.
pub record RuleEngine : Type 0 where
  pub rules : List DetectionRule
  pub alerts : List Alert
  pub alert_id_counter : ℕ
  pub rules_loaded : ℕ
  pub rules_enabled : ℕ
  pub packets_inspected : ℕ
  pub alerts_generated : ℕ
  pub alerts_by_severity : Severity → ℕ
  pub max_alerts : ℕ
  pub alert_count : ℕ

-- What is read of `http_transaction_t`.
pub record HttpHeader : Type 0 where
  pub name : Option (List ℕ)
  pub value : Option (List ℕ)

pub record HttpRequest : Type 0 where
  pub uri : Option (List ℕ)
  pub headers : List HttpHeader

pub record HttpTransaction : Type 0 where
  pub request : Option HttpRequest

-- What is read of `tls_conn_t`.
pub record ClientHello : Type 0 where
  pub sni : Option (List ℕ)
  pub ja3_hash : List ℕ

pub record TlsConn : Type 0 where
  pub client_hello : Option ClientHello
  pub weak_cipher : Bool
  pub version_downgrade : Bool
  pub expired_cert : Bool
  pub self_signed_cert : Bool

-- C's string functions, as predicates that stand for a result other than NULL or for 0; the
-- entropy of a string and the order on doubles, which are computations in floating point; and the
-- two hexadecimal digits of a byte, which `snprintf` writes.
pub record RuleLibc : Type 0 where
  pub strstr : List ℕ → List ℕ → Bool
  pub strcasestr : List ℕ → List ℕ → Bool
  pub strcasecmp : List ℕ → List ℕ → Bool
  pub calculate_entropy : List ℕ → ℕ
  pub double_le : ℕ → ℕ → Bool
  pub hex_byte : ℕ → List ℕ
