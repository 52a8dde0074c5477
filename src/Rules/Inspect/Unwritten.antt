-- ===== src/Rules/Inspect/Unwritten.antt =====
-- Rules that match without having written to their buffer.
use dpdk_based_nids.Dns.State.{DnsTransaction}
use dpdk_based_nids.Flow.State.{Flow}
use dpdk_based_nids.Prelude.{
  ℕ, ◌≡◌, refl, ap, ◌∙◌, Bool, true, false, List, [], ◌∷◌, Option, none, fault, uninitialised,
  if◌then◌else◌,
}
use dpdk_based_nids.Rules.Check.{Checked, examine_query, check_dns_rule}
use dpdk_based_nids.Rules.Inspect.{
  is_dns, alert_from, after_check, inspect_rules, count_inspected, rule_engine_inspect_dns,
}
use dpdk_based_nids.Rules.State.{DetectionRule, RuleEngine, RuleLibc}

-- An enabled DNS rule matches a transaction without questions, whatever its conditions.
check_dns_rule-unasked :
    (c : RuleLibc) (rule : DetectionRule) (tx : DnsTransaction) (d : Option (List ℕ))
    → rule.enabled ≡ true
    → tx.questions ≡ []
    → check_dns_rule c rule tx d ≡ (true, d)
unfolding check_dns_rule examine_query
check_dns_rule-unasked c rule tx d on unasked = rw on (rw unasked (go rule.check_query (true, d)))
  where
    go : (b : Bool) (r : Checked) → (if b then r else r) ≡ r
    go true r = refl
    go false r = refl

-- If the first rule is an enabled DNS rule, inspecting a message without questions, with memory
-- for an alert, reads the buffer for the detail before anything has been written to it.
pub rule_engine_inspect_dns-unwritten :
    (grants : ℕ → Bool) (c : RuleLibc) (f : Flow) (tx : DnsTransaction) (k : ℕ) (e : RuleEngine)
    (rule : DetectionRule) (rules : List DetectionRule)
    → e.rules ≡ rule ∷ rules
    → is_dns rule.protocol ≡ true
    → rule.enabled ≡ true
    → tx.questions ≡ []
    → grants k ≡ true
    → rule_engine_inspect_dns grants c f tx k e ≡ fault uninitialised
unfolding rule_engine_inspect_dns inspect_rules after_check alert_from
rule_engine_inspect_dns-unwritten grants c f tx k e rule rules first meant on unasked got =
    let check : DetectionRule → Option (List ℕ) → Checked = λ r. check_dns_rule c r tx in
    let rest = inspect_rules grants check is_dns f rules in
    let e' = count_inspected e in
    ap (λ l. inspect_rules grants check is_dns f l none k e') first
    ∙ rw meant (
        ap (after_check grants rest rule f k e') (check_dns_rule-unasked c rule tx none on unasked)
        ∙ rw got refl)
