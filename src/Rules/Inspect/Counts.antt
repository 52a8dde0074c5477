-- ===== src/Rules/Inspect/Counts.antt =====
-- An inspection counts the rules that match, and keeps the count of the alerts.
use dpdk_based_nids.Detect.State.{AppProto}
use dpdk_based_nids.Flow.State.{Flow}
use dpdk_based_nids.Prelude.{
  ℕ, ◌+◌, ◌<◌, ◌≡◌, refl, sym, ap, ◌∙◌, arith, Bool, true, false, Bool-cases, inl, inr, ◌&&◌, List,
  [], ◌∷◌, Option, none, some, All, length, if◌then◌else◌, Run, ok, Ensures, Ensures-bind,
  Ensures-ok,
}
use dpdk_based_nids.Rules.Alert.Counted.{IsCounted, create_alert-IsCounted}
use dpdk_based_nids.Rules.Alert.Made.{Made, none-Made, append-Made, create_alert-Made}
use dpdk_based_nids.Rules.Check.Looked.{looked_at, request-IsLooked}
use dpdk_based_nids.Rules.Check.Matches.{check_http_rule-written}
use dpdk_based_nids.Rules.Check.{
  Checked, examine_request, check_http_rule, first_some, answer, check_hello, check_flags,
  check_tls_rule,
}
use dpdk_based_nids.Rules.Inspect.{
  is_http, is_tls, Inspected, alert_from, after_check, inspect_rules, count_inspected,
  rule_engine_inspect_http, rule_engine_inspect_tls,
}
use dpdk_based_nids.Rules.State.{DetectionRule, RuleEngine, HttpTransaction, TlsConn, RuleLibc}

abbrev pub count_if : Bool → ℕ → ℕ
count_if true n = n + 1
count_if false n = n

-- The number of rules for the protocol that match.
unfoldable pub matching : (DetectionRule → Bool) → (AppProto → Bool) → List DetectionRule → ℕ
matching m is_meant [] = 0
matching m is_meant (rule ∷ rules) =
    count_if (is_meant rule.protocol && m rule) (matching m is_meant rules)

-- What an inspection ends with.
abbrev pub HasCounted : (ℕ → Bool) → ℕ → ℕ → Inspected → Type 0
HasCounted grants old n (alerts, e, k) =
    (alerts ≡ n) × IsCounted e × Made grants n old e.alerts_generated

module _ (grants : ℕ → Bool) (check : DetectionRule → Option (List ℕ) → Checked)
    (m : DetectionRule → Bool) (is_meant : AppProto → Bool) (f : Flow)
    (decides : (rule : DetectionRule) (d : Option (List ℕ)) → (check rule d).0 ≡ m rule) where
  -- The rule writes to the buffer when it matches.
  abbrev pub Writes : DetectionRule → Type 0
  Writes rule =
      is_meant rule.protocol ≡ true
      → (d : Option (List ℕ)) → (check rule d).0 ≡ true
      → (s : List ℕ) × ((check rule d).1 ≡ some s)

  after_check-HasCounted :
      (rule : DetectionRule) (n k : ℕ) (e : RuleEngine)
      (rest : Option (List ℕ) → ℕ → RuleEngine → Run Inspected) (r : Checked)
      → (r.0 ≡ true → (s : List ℕ) × (r.1 ≡ some s))
      → IsCounted e
      → ((d : Option (List ℕ)) (k : ℕ) (e : RuleEngine)
          → IsCounted e
          → Ensures (HasCounted grants e.alerts_generated n) (rest d k e))
      → Ensures
          (HasCounted grants e.alerts_generated (count_if r.0 n))
          (after_check grants rest rule f k e r)
  unfolding after_check alert_from
  after_check-HasCounted rule n k e rest (false, d) w h go = go d k e h
  after_check-HasCounted rule n k e rest (true, d) w h go =
      let (s, written) = w refl in
      let made = create_alert-Made grants rule f (some s) k e in
      let next : 1 + n ≡ n + 1 = omega arith in
      Ensures-bind (λ r. IsCounted r.0 × Made grants 1 e.alerts_generated r.0.alerts_generated)
        (HasCounted grants e.alerts_generated (n + 1)) (alert_from grants rule f d k e) _
        (rw written (create_alert-IsCounted grants rule f (some s) k e h, made))
        (λ (e', k') (c, one).
          Ensures-bind (HasCounted grants e'.alerts_generated n)
            (HasCounted grants e.alerts_generated (n + 1)) (rest d k' e') _ (go d k' e' c)
            (λ (i, e'', k'') (counted, kept, more). (
              ap (λ x. x + 1) counted,
              kept,
              rw next at (
                  append-Made grants 1 n e.alerts_generated e'.alerts_generated e''.alerts_generated
                    one more),
            )))

  pub inspect_rules-HasCounted :
      (rules : List DetectionRule) (d : Option (List ℕ)) (k : ℕ) (e : RuleEngine)
      → All Writes rules
      → IsCounted e
      → Ensures
          (HasCounted grants e.alerts_generated (matching m is_meant rules))
          (inspect_rules grants check is_meant f rules d k e)
  unfolding inspect_rules matching
  inspect_rules-HasCounted [] d k e w h = (refl, h, none-Made grants e.alerts_generated)
  inspect_rules-HasCounted (rule ∷ rules) d k e w h = elim (Bool-cases (is_meant rule.protocol)) [
    | inl meant ↦
        rw (meant, sym (decides rule d))
          (after_check-HasCounted rule (matching m is_meant rules) k e
            (inspect_rules grants check is_meant f rules) (check rule d) (w.0 meant d) h
            (λ d' k' e' h'. inspect_rules-HasCounted rules d' k' e' w.1 h'))
    | inr other ↦ rw other (inspect_rules-HasCounted rules d k e w.1 h)
  ]

pub count_inspected-IsCounted : (e : RuleEngine) → IsCounted e → IsCounted (count_inspected e)
count_inspected-IsCounted e h = record {
  count = h.count;
  bounded = h.bounded;
  some_room = h.some_room;
  narrow = h.narrow;
}

module _ (c : RuleLibc) (grants : ℕ → Bool) (f : Flow) where
  check_http_rule_decides :
      (tx : HttpTransaction) (rule : DetectionRule) (d : Option (List ℕ))
      → (check_http_rule c rule tx d).0 ≡ (check_http_rule c rule tx none).0
  unfolding check_http_rule
  check_http_rule_decides tx rule d = go rule.enabled
    where
      go :
          (b : Bool)
          → (if b then examine_request c rule tx.request (true, d) else (false, d)).0
            ≡ (if b then examine_request c rule tx.request (true, none) else (false, none)).0
      go true =
          (request-IsLooked c rule tx.request (true, d)).answered
          ∙ sym ((request-IsLooked c rule tx.request (true, none)).answered)
      go false = refl

  check_http_rule-Writes :
      (tx : HttpTransaction) (rules : List DetectionRule)
      → All (λ rule. is_http rule.protocol ≡ true → 0 < length (looked_at c rule tx.request)) rules
      → All
          (Writes grants
            (λ rule. check_http_rule c rule tx)
            (λ rule. (check_http_rule c rule tx none).0)
            is_http
            f
            (check_http_rule_decides tx))
          rules
  check_http_rule-Writes tx [] w = tt
  check_http_rule-Writes tx (rule ∷ rules) w = (
    (λ meant d h. check_http_rule-written c rule tx d h (w.0 meant)),
    check_http_rule-Writes tx rules w.1,
  )

  -- If each HTTP rule names a string that the transaction has, inspecting the transaction ends
  -- without undefined behaviour, whichever allocations fail. It returns the number of HTTP rules
  -- that match, and keeps the number of alerts right and within the limit. The number of alerts
  -- that it generates is what it returns, less those that failed, and none fails unless an
  -- allocation does.
  pub rule_engine_inspect_http-HasCounted :
      (tx : HttpTransaction) (k : ℕ) (e : RuleEngine)
      → IsCounted e
      → All
          (λ rule. is_http rule.protocol ≡ true → 0 < length (looked_at c rule tx.request))
          e.rules
      → (r : Inspected) × (rule_engine_inspect_http grants c f tx k e ≡ ok r)
        × HasCounted grants e.alerts_generated
            (matching (λ rule. (check_http_rule c rule tx none).0) is_http e.rules)
            r
  unfolding rule_engine_inspect_http
  rule_engine_inspect_http-HasCounted tx k e h w =
      let check : DetectionRule → Option (List ℕ) → Checked = λ rule. check_http_rule c rule tx in
      let m : DetectionRule → Bool = λ rule. (check_http_rule c rule tx none).0 in
      Ensures-ok (HasCounted grants e.alerts_generated (matching m is_http e.rules))
        (inspect_rules grants check is_http f e.rules none k (count_inspected e))
        (inspect_rules-HasCounted grants check m is_http f (check_http_rule_decides tx) e.rules none
          k (count_inspected e) (check_http_rule-Writes tx e.rules w)
          (count_inspected-IsCounted e h))

  -- A TLS rule that matches has written to its buffer.
  tls_answer :
      (conn : TlsConn) (rule : DetectionRule) (d : Option (List ℕ))
      → ((check_tls_rule c rule conn d).0 ≡ (check_tls_rule c rule conn none).0)
        × ((check_tls_rule c rule conn d).0 ≡ true
            → (s : List ℕ) × ((check_tls_rule c rule conn d).1 ≡ some s))
  unfolding check_tls_rule
  tls_answer conn rule d =
      go rule.enabled
        (first_some c (check_hello c rule conn.client_hello) (check_flags c rule conn))
    where
      go :
          (b : Bool) (o : Option (List ℕ))
          → let r = if b then answer c o d else (false, d) in
            (r.0 ≡ (if b then answer c o none else (false, none)).0)
            × (r.0 ≡ true → (s : List ℕ) × (r.1 ≡ some s))
      go true none = (refl, λ h. absurd (ground (arith, h)))
      go true (some s) = (refl, λ h. (s, refl))
      go false o = (refl, λ h. absurd (ground (arith, h)))

  check_tls_rule_decides :
      (conn : TlsConn) (rule : DetectionRule) (d : Option (List ℕ))
      → (check_tls_rule c rule conn d).0 ≡ (check_tls_rule c rule conn none).0
  check_tls_rule_decides conn rule d = (tls_answer conn rule d).0

  check_tls_rule-Writes :
      (conn : TlsConn) (rules : List DetectionRule)
      → All
          (Writes grants
            (λ rule. check_tls_rule c rule conn)
            (λ rule. (check_tls_rule c rule conn none).0)
            is_tls
            f
            (check_tls_rule_decides conn))
          rules
  check_tls_rule-Writes conn [] = tt
  check_tls_rule-Writes conn (rule ∷ rules) =
      ((λ meant d h. (tls_answer conn rule d).1 h), check_tls_rule-Writes conn rules)

  -- Inspecting a TLS connection ends without undefined behaviour, whatever the rules and whichever
  -- allocations fail; it returns the number of TLS rules that match, keeps the number of alerts
  -- right and within the limit, and generates as many unless allocations fail.
  pub rule_engine_inspect_tls-HasCounted :
      (conn : TlsConn) (k : ℕ) (e : RuleEngine)
      → IsCounted e
      → (r : Inspected) × (rule_engine_inspect_tls grants c f conn k e ≡ ok r)
        × HasCounted grants e.alerts_generated
            (matching (λ rule. (check_tls_rule c rule conn none).0) is_tls e.rules)
            r
  unfolding rule_engine_inspect_tls
  rule_engine_inspect_tls-HasCounted conn k e h =
      let check : DetectionRule → Option (List ℕ) → Checked = λ rule. check_tls_rule c rule conn in
      let m : DetectionRule → Bool = λ rule. (check_tls_rule c rule conn none).0 in
      Ensures-ok (HasCounted grants e.alerts_generated (matching m is_tls e.rules))
        (inspect_rules grants check is_tls f e.rules none k (count_inspected e))
        (inspect_rules-HasCounted grants check m is_tls f (check_tls_rule_decides conn) e.rules none
          k (count_inspected e) (check_tls_rule-Writes conn e.rules)
          (count_inspected-IsCounted e h))
