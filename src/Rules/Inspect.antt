-- ===== src/Rules/Inspect.antt =====
-- `rule_engine_inspect_http`, `rule_engine_inspect_dns` and `rule_engine_inspect_tls` of
-- src/rule_engine.c. The arguments are not NULL.
pub mod Counts
pub mod Queries
pub mod Unwritten
use dpdk_based_nids.Detect.State.{AppProto, http, dns, tls}
use dpdk_based_nids.Dns.State.{DnsTransaction}
use dpdk_based_nids.Flow.State.{Flow}
use dpdk_based_nids.Prelude.{
  ℕ, ◌+◌, Bool, true, false, List, [], ◌∷◌, Option, none, some, if◌then◌else◌, add64, Run, ok,
  fault, uninitialised, ◌>>=◌,
}
use dpdk_based_nids.Rules.Alert.{create_alert}
use dpdk_based_nids.Rules.Check.{Checked, check_http_rule, check_dns_rule, check_tls_rule}
use dpdk_based_nids.Rules.State.{DetectionRule, RuleEngine, HttpTransaction, TlsConn, RuleLibc}

abbrev pub is_http : AppProto → Bool
is_http http = true
is_http _ = false

abbrev pub is_dns : AppProto → Bool
is_dns dns = true
is_dns _ = false

abbrev pub is_tls : AppProto → Bool
is_tls tls = true
is_tls _ = false

-- The number of alerts, the engine, and the calls of the allocator.
abbrev pub Inspected : Type 0
Inspected = ℕ × RuleEngine × ℕ

abbrev pub one_more : Inspected → Inspected
one_more (n, e, k) = (n + 1, e, k)

abbrev pub count_inspected : RuleEngine → RuleEngine
count_inspected e = record e { packets_inspected = add64 e.packets_inspected 1 }

module _ (grants : ℕ → Bool) where
  -- `create_alert` with the buffer: it reads the string there once it has memory for the alert.
  unfoldable pub alert_from :
      DetectionRule → Flow → Option (List ℕ) → ℕ → RuleEngine → Run (RuleEngine × ℕ)
  alert_from rule f (some detail) k e = ok (create_alert grants rule f (some detail) k e)
  alert_from rule f none k e = if grants k then fault uninitialised else ok (e, k + 1)

  -- What follows a check of a rule. The rules that follow get the buffer as it is.
  unfoldable pub after_check :
      (Option (List ℕ) → ℕ → RuleEngine → Run Inspected)
      → DetectionRule
      → Flow
      → ℕ
      → RuleEngine
      → Checked
      → Run Inspected
  after_check rest rule f k e (false, detail) = rest detail k e
  after_check rest rule f k e (true, detail) = do
    (e', k') ← alert_from rule f detail k e
    r ← rest detail k' e'
    ok (one_more r)

  -- The loop over the rules.
  unfoldable pub inspect_rules :
      (DetectionRule → Option (List ℕ) → Checked)
      → (AppProto → Bool)
      → Flow
      → List DetectionRule
      → Option (List ℕ)
      → ℕ
      → RuleEngine
      → Run Inspected
  inspect_rules check is_meant f [] detail k e = ok (0, e, k)
  inspect_rules check is_meant f (rule ∷ rules) detail k e =
      if is_meant rule.protocol
      then after_check (inspect_rules check is_meant f rules) rule f k e (check rule detail)
      else inspect_rules check is_meant f rules detail k e

  unfoldable pub rule_engine_inspect_http :
      RuleLibc → Flow → HttpTransaction → ℕ → RuleEngine → Run Inspected
  rule_engine_inspect_http c f tx k e =
      inspect_rules (λ rule. check_http_rule c rule tx) is_http f e.rules none k (count_inspected e)

  unfoldable pub rule_engine_inspect_dns :
      RuleLibc → Flow → DnsTransaction → ℕ → RuleEngine → Run Inspected
  rule_engine_inspect_dns c f tx k e =
      inspect_rules (λ rule. check_dns_rule c rule tx) is_dns f e.rules none k (count_inspected e)

  unfoldable pub rule_engine_inspect_tls :
      RuleLibc → Flow → TlsConn → ℕ → RuleEngine → Run Inspected
  rule_engine_inspect_tls c f conn k e =
      inspect_rules (λ rule. check_tls_rule c rule conn) is_tls f e.rules none k (count_inspected e)
