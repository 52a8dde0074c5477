-- ===== src/Rules/Check/Matches.antt =====
-- When a rule matches, said without the buffer.
use dpdk_based_nids.Dns.State.{DnsQuestion, DnsTransaction}
use dpdk_based_nids.Prelude.{
  ℕ, ◌≡◌, ◌<◌, ◌↔◌, All, refl, sym, ◌∙◌, arith, Bool, true, false, List, [], ◌∷◌, Option, some,
  length, ◌==◌, ◌&&◌, ◌||◌, if◌then◌else◌,
}
use dpdk_based_nids.Rules.Check.Conditions.{Satisfies, check_condition_iff}
use dpdk_based_nids.Rules.Check.Strings.{IsAbout, looked_at-IsAbout}
use dpdk_based_nids.Rules.Check.Looked.{
  and_left, and_right, if_and, looked_at, hold_of, examine-IsLooked, request-IsLooked, filtered,
}
use dpdk_based_nids.Rules.Check.{
  Checked, query_label, check_condition, all_match, examine, examine_request, check_http_rule,
  examine_query, check_dns_rule,
}
use dpdk_based_nids.Rules.State.{RuleCondition, DetectionRule, HttpTransaction, RuleLibc}

-- A check that only an enabled rule gets.
guarded :
    (b : Bool) (r : Checked) (d : Option (List ℕ)) (x : Bool) (A : Type 0)
    → r.0 ≡ x
    → ((x ≡ true) ↔ A)
    → ((if b then r else (false, d)).0 ≡ true) ↔ ((b ≡ true) × A)
guarded true r d x A e (to, from) = (λ h. (refl, to (sym e ∙ h)), λ (_, a). e ∙ from a)
guarded false r d x A e (to, from) =
    (λ h. absurd (ground (arith, h)), λ (h, _). absurd (ground (arith, h)))

and_both : (a b : Bool) → a ≡ true → b ≡ true → (a && b) ≡ true
and_both true b e h = h
and_both false b e h = e

module _ (c : RuleLibc) where
  -- All strings satisfy all conditions.
  abbrev pub AllHold : List RuleCondition → List (List ℕ) → Type 0
  AllHold conds ss = All (λ s. All (λ cond. Satisfies c cond s) conds) ss

  all_match_iff :
      (conds : List RuleCondition) (s : List ℕ)
      → (all_match c conds s ≡ true) ↔ All (λ cond. Satisfies c cond s) conds
  unfolding all_match
  all_match_iff [] s = (λ h. tt, λ h. refl)
  all_match_iff (cond ∷ conds) s =
      let (to, from) = all_match_iff conds s in
      let (meets, holds) = check_condition_iff c cond s in
      (
        λ h.
            let (a, b) = if_and (check_condition c cond s) (all_match c conds s) h in
            (meets a, to b),
        λ h. rw (holds h.0) (from h.1),
      )

  hold_of_iff :
      (conds : List RuleCondition) (ss : List (List ℕ))
      → (hold_of c conds ss ≡ true) ↔ AllHold conds ss
  unfolding hold_of
  hold_of_iff conds [] = (λ h. tt, λ h. refl)
  hold_of_iff conds (s ∷ ss) =
      let (to, from) = all_match_iff conds s in
      let (to', from') = hold_of_iff conds ss in
      (
        λ h. (
          to (and_left (all_match c conds s) (hold_of c conds ss) h),
          to' (and_right (all_match c conds s) (hold_of c conds ss) h),
        ),
        λ h. rw (from h.0, from' h.1) refl,
      )

  -- An HTTP rule matches a transaction exactly if it is enabled and all its conditions are
  -- satisfied, negated ones by not being so, by all the strings that it is about: the URI, if it
  -- checks that and there is one, and the value of the first header with the target's name, if it
  -- checks headers, has a target, and there is such a value. A rule that checks headers without a
  -- target is about no header.
  pub check_http_rule_iff :
      (rule : DetectionRule) (tx : HttpTransaction) (d : Option (List ℕ)) (strings : List (List ℕ))
      → IsAbout c rule tx.request strings
      → ((check_http_rule c rule tx d).0 ≡ true)
        ↔ ((rule.enabled ≡ true) × AllHold rule.conditions strings)
  unfolding check_http_rule
  check_http_rule_iff rule tx d strings about =
      rw (looked_at-IsAbout c rule tx.request strings about) at (
        guarded rule.enabled (examine_request c rule tx.request (true, d)) d
          (hold_of c rule.conditions (looked_at c rule tx.request))
          (AllHold rule.conditions (looked_at c rule tx.request))
          (request-IsLooked c rule tx.request (true, d)).answered
          (hold_of_iff rule.conditions (looked_at c rule tx.request)))

  -- Its buffer has been written if there is such a string.
  pub check_http_rule-written :
      (rule : DetectionRule) (tx : HttpTransaction) (d : Option (List ℕ))
      → (check_http_rule c rule tx d).0 ≡ true
      → 0 < length (looked_at c rule tx.request)
      → (s : List ℕ) × ((check_http_rule c rule tx d).1 ≡ some s)
  unfolding check_http_rule
  check_http_rule-written rule tx d = enabled_case rule.enabled
    where
      enabled_case :
          (b : Bool)
          → let r = if b then examine_request c rule tx.request (true, d) else (false, d) in
            r.0 ≡ true → 0 < length (looked_at c rule tx.request) → (s : List ℕ) × (r.1 ≡ some s)
      enabled_case true h pos = (request-IsLooked c rule tx.request (true, d)).written h pos
      enabled_case false h pos = absurd (ground (arith, h))

  -- The condition on a DNS rule: the type of the first question passes the filter, and all
  -- conditions hold of its name.
  abbrev pub AskedAndHold : DetectionRule → List DnsQuestion → Type 0
  AskedAndHold rule [] = Unit
  AskedAndHold rule (q ∷ qs) =
      (((rule.qtype == 0) || (q.qtype == rule.qtype)) ≡ true)
      × AllHold rule.conditions (q.qname ∷ [])

  examine_query_iff :
      (rule : DetectionRule) (qs : List DnsQuestion) (d : Option (List ℕ))
      → ((examine_query c rule qs d).0 ≡ true) ↔ AskedAndHold rule qs
  unfolding examine_query
  examine_query_iff rule [] d = (λ h. tt, λ h. refl)
  examine_query_iff rule (q ∷ qs) d =
      let a = rule.qtype == 0 in
      let b = q.qtype == rule.qtype in
      let (e, _) =
        filtered c a b rule.conditions q.qname d
          (examine c rule.conditions query_label q.qname (true, d))
          (examine-IsLooked c rule.conditions query_label q.qname (true, d)) in
      let (to, from) = hold_of_iff rule.conditions (q.qname ∷ []) in
      (
        λ h.
            let k = sym e ∙ h in
            (
              and_left (a || b) (hold_of c rule.conditions (q.qname ∷ [])) k,
              to (and_right (a || b) (hold_of c rule.conditions (q.qname ∷ [])) k),
            ),
        λ (asked, held).
            e ∙ and_both (a || b) (hold_of c rule.conditions (q.qname ∷ [])) asked (from held),
      )

  -- A DNS rule matches a transaction exactly if it is enabled and either does not check the query,
  -- or the transaction has no question, or its first question has the rule's type, if that is not
  -- 0, and a name of which all the rule's conditions hold.
  pub check_dns_rule_iff :
      (rule : DetectionRule) (tx : DnsTransaction) (d : Option (List ℕ))
      → ((check_dns_rule c rule tx d).0 ≡ true)
        ↔ ((rule.enabled ≡ true) × ((rule.check_query ≡ true) → AskedAndHold rule tx.questions))
  unfolding check_dns_rule
  check_dns_rule_iff rule tx d = go rule.enabled rule.check_query
    where
      go :
          (b k : Bool)
          → ((if b
                then (if k then examine_query c rule tx.questions d else (true, d))
                else (false, d)).0
              ≡ true)
            ↔ ((b ≡ true) × ((k ≡ true) → AskedAndHold rule tx.questions))
      go false k = (λ h. absurd (ground (arith, h)), λ (h, _). absurd (ground (arith, h)))
      go true false = (λ h. (refl, λ e. absurd (ground (arith, e))), λ h. refl)
      go true true =
          let (to, from) = examine_query_iff rule tx.questions d in
          (λ h. (refl, λ e. to h), λ (_, h). from (h refl))
