-- ===== src/Rules/Inspect/Queries.antt =====
-- Inspecting DNS messages with questions.
use dpdk_based_nids.Dns.State.{DnsQuestion, DnsTransaction}
use dpdk_based_nids.Flow.State.{Flow}
use dpdk_based_nids.Prelude.{
  ℕ, ◌≡◌, refl, sym, ◌∙◌, arith, Bool, true, false, ◌==◌, List, [], ◌∷◌, Option, none, some, All,
  if◌then◌else◌, ok, Ensures-ok,
}
use dpdk_based_nids.Rules.Alert.Counted.{IsCounted}
use dpdk_based_nids.Rules.Check.Looked.{examine-IsLooked, filtered}
use dpdk_based_nids.Rules.Check.{Checked, query_label, examine, examine_query, check_dns_rule}
use dpdk_based_nids.Rules.Inspect.Counts.{
  matching, HasCounted, Writes, inspect_rules-HasCounted, count_inspected-IsCounted,
}
use dpdk_based_nids.Rules.Inspect.{
  is_dns, Inspected, inspect_rules, count_inspected, rule_engine_inspect_dns,
}
use dpdk_based_nids.Rules.State.{DetectionRule, RuleEngine, RuleLibc}

module _ (c : RuleLibc) where
  -- The answer to a question does not depend on the buffer, and a match writes to it.
  examine_query_lem :
      (rule : DetectionRule) (q : DnsQuestion) (qs : List DnsQuestion) (d : Option (List ℕ))
      → ((examine_query c rule (q ∷ qs) d).0 ≡ (examine_query c rule (q ∷ qs) none).0)
        × ((examine_query c rule (q ∷ qs) d).0 ≡ true
            → (s : List ℕ) × ((examine_query c rule (q ∷ qs) d).1 ≡ some s))
  unfolding examine_query
  examine_query_lem rule q qs d =
      let a = rule.qtype == 0 in
      let b = q.qtype == rule.qtype in
      let look = λ (o : Option (List ℕ)).
        filtered c a b rule.conditions q.qname o
          (examine c rule.conditions query_label q.qname (true, o))
          (examine-IsLooked c rule.conditions query_label q.qname (true, o)) in
      ((look d).0 ∙ sym ((look none).0), (look d).1)

  check_dns_rule_lem :
      (rule : DetectionRule) (tx : DnsTransaction) (q : DnsQuestion) (qs : List DnsQuestion)
      (d : Option (List ℕ))
      → tx.questions ≡ q ∷ qs
      → ((check_dns_rule c rule tx d).0 ≡ (check_dns_rule c rule tx none).0)
        × (rule.check_query ≡ true
            → (check_dns_rule c rule tx d).0 ≡ true
            → (s : List ℕ) × ((check_dns_rule c rule tx d).1 ≡ some s))
  unfolding check_dns_rule
  check_dns_rule_lem rule tx q qs d asked = rw asked (go rule.enabled rule.check_query)
    where
      go :
          (b k : Bool)
          → let run : Option (List ℕ) → Checked = λ o.
            if b then (if k then examine_query c rule (q ∷ qs) o else (true, o)) else (false, o) in
            ((run d).0 ≡ (run none).0)
            × (k ≡ true → (run d).0 ≡ true → (s : List ℕ) × ((run d).1 ≡ some s))
      go true true = let (same, written) = examine_query_lem rule q qs d in (same, λ e. written)
      go true false = (refl, λ e. absurd (ground (arith, e)))
      go false k = (refl, λ e h. absurd (ground (arith, h)))

  module _ (grants : ℕ → Bool) (f : Flow) (tx : DnsTransaction) (q : DnsQuestion)
      (qs : List DnsQuestion) (asked : tx.questions ≡ q ∷ qs) where
    check_dns_rule_decides :
        (rule : DetectionRule) (d : Option (List ℕ))
        → (check_dns_rule c rule tx d).0 ≡ (check_dns_rule c rule tx none).0
    check_dns_rule_decides rule d = (check_dns_rule_lem rule tx q qs d asked).0

    check_dns_rule-Writes :
        (rules : List DetectionRule)
        → All (λ rule. is_dns rule.protocol ≡ true → rule.check_query ≡ true) rules
        → All
            (Writes grants
              (λ rule. check_dns_rule c rule tx)
              (λ rule. (check_dns_rule c rule tx none).0)
              is_dns
              f
              check_dns_rule_decides)
            rules
    check_dns_rule-Writes [] w = tt
    check_dns_rule-Writes (rule ∷ rules) w = (
      λ meant d h. (check_dns_rule_lem rule tx q qs d asked).1 (w.0 meant) h,
      check_dns_rule-Writes rules w.1,
    )

    -- If each DNS rule checks the query, inspecting a message with a question ends without
    -- undefined behaviour, whichever allocations fail. It returns the number of DNS rules that
    -- match, and keeps the number of alerts right and within the limit. The number of alerts that
    -- it generates is what it returns, less those that failed, and none fails unless an allocation
    -- does.
    pub rule_engine_inspect_dns-HasCounted :
        (k : ℕ) (e : RuleEngine)
        → IsCounted e
        → All (λ rule. is_dns rule.protocol ≡ true → rule.check_query ≡ true) e.rules
        → (r : Inspected) × (rule_engine_inspect_dns grants c f tx k e ≡ ok r)
          × HasCounted grants e.alerts_generated
              (matching (λ rule. (check_dns_rule c rule tx none).0) is_dns e.rules)
              r
    unfolding rule_engine_inspect_dns
    rule_engine_inspect_dns-HasCounted k e h w =
        let check : DetectionRule → Option (List ℕ) → Checked = λ rule. check_dns_rule c rule tx in
        let m : DetectionRule → Bool = λ rule. (check_dns_rule c rule tx none).0 in
        Ensures-ok (HasCounted grants e.alerts_generated (matching m is_dns e.rules))
          (inspect_rules grants check is_dns f e.rules none k (count_inspected e))
          (inspect_rules-HasCounted grants check m is_dns f check_dns_rule_decides e.rules none k
            (count_inspected e) (check_dns_rule-Writes e.rules w) (count_inspected-IsCounted e h))
