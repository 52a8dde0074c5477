-- ===== src/Rules/Alert.antt =====
-- The engine's rules and alerts: `rule_engine_init`, `rule_engine_add_rule`, `create_alert`,
-- `rule_engine_create_custom_alert` and `rule_engine_clear_alerts`.
pub mod Counted
pub mod Made
use dpdk_based_nids.Flow.State.{Flow}
use dpdk_based_nids.Prelude.{
  ℕ, ◌+◌, Bool, true, false, List, [], ◌∷◌, Option, none, some, ltb, if◌then◌else◌, add32, sub32,
  add64,
}
use dpdk_based_nids.Rules.State.{
  Severity, info, low, medium, high, critical, DetectionRule, Alert, RuleEngine,
}

-- MAX_ALERTS_DEFAULT.
abbrev pub max_alerts_default : ℕ
max_alerts_default = 1000

-- The engine once it has been allocated.
unfoldable pub rule_engine_init : RuleEngine
rule_engine_init = record {
  rules = [];
  alerts = [];
  alert_id_counter = 0;
  rules_loaded = 0;
  rules_enabled = 0;
  packets_inspected = 0;
  alerts_generated = 0;
  alerts_by_severity = λ s. 0;
  max_alerts = max_alerts_default;
  alert_count = 0;
}

-- The arguments are not NULL, and the return value is 0.
unfoldable pub rule_engine_add_rule : DetectionRule → RuleEngine → RuleEngine
rule_engine_add_rule rule e = record e {
  rules = rule ∷ e.rules;
  rules_loaded = add64 e.rules_loaded 1;
  rules_enabled = if rule.enabled then add64 e.rules_enabled 1 else e.rules_enabled;
}

abbrev pub same_severity : Severity → Severity → Bool
same_severity info info = true
same_severity low low = true
same_severity medium medium = true
same_severity high high = true
same_severity critical critical = true
same_severity _ _ = false

abbrev pub first_word : List ℕ → ℕ
first_word [] = 0
first_word (w ∷ ws) = w

-- The list without its last element.
unfoldable pub remove_last : List Alert → List Alert
remove_last [] = []
remove_last (a ∷ []) = []
remove_last (a ∷ b ∷ rest) = a ∷ remove_last (b ∷ rest)

-- The oldest alert is removed if it is not the only one, which has no `prev`.
unfoldable pub remove_oldest : RuleEngine → List Alert → RuleEngine
remove_oldest e (a ∷ b ∷ rest) = record e {
  alerts = remove_last (a ∷ b ∷ rest);
  alert_count = sub32 e.alert_count 1;
}
remove_oldest e _ = e

unfoldable pub limit_alerts : RuleEngine → RuleEngine
limit_alerts e = if ltb e.max_alerts e.alert_count then remove_oldest e e.alerts else e

unfoldable pub count_alert : Severity → RuleEngine → RuleEngine
count_alert severity e = record e {
  alerts_generated = add64 e.alerts_generated 1;
  alerts_by_severity = λ s.
      if same_severity s severity then add64 (e.alerts_by_severity s) 1 else e.alerts_by_severity s;
}

-- A copy of a string, `none` also without memory, and the calls of the allocator.
abbrev pub copy_string : (ℕ → Bool) → Option (List ℕ) → ℕ → Option (List ℕ) × ℕ
copy_string grants none k = (none, k)
copy_string grants (some s) k = (if grants k then some s else none, k + 1)

abbrev pub add_alert : Alert → RuleEngine → RuleEngine
add_alert a e = record e { alerts = a ∷ e.alerts; alert_count = add32 e.alert_count 1 }

unfoldable pub new_alert : DetectionRule → Flow → Option (List ℕ) → Option (List ℕ) → ℕ → Alert
new_alert rule f message detail id = record {
  alert_id = id;
  rule_id = rule.rule_id;
  severity = rule.severity;
  category = rule.category;
  protocol = rule.protocol;
  message = message;
  detail = detail;
  src_ip = if f.flags.ipv4 then first_word f.src_addr else 0;
  dst_ip = if f.flags.ipv4 then first_word f.dst_addr else 0;
  src_port = f.src_port;
  dst_port = f.dst_port;
}

-- The engine and the calls of the allocator. `detail` is a string or NULL.
unfoldable pub create_alert :
    (ℕ → Bool) → DetectionRule → Flow → Option (List ℕ) → ℕ → RuleEngine → RuleEngine × ℕ
create_alert grants rule f detail k e =
    if grants k
    then (let (message, k₁) = copy_string grants rule.name (k + 1) in
        let (copy, k₂) = copy_string grants detail k₁ in
        let id = add32 e.alert_id_counter 1 in
        let e₁ =
          add_alert (new_alert rule f message copy id) (record e { alert_id_counter = id }) in
        (count_alert rule.severity (limit_alerts e₁), k₂))
    else (e, k + 1)

-- The arguments are not NULL, and the return value is 0.
unfoldable pub rule_engine_create_custom_alert :
    (ℕ → Bool) → DetectionRule → Flow → Option (List ℕ) → ℕ → RuleEngine → RuleEngine × ℕ
rule_engine_create_custom_alert = create_alert

unfoldable pub rule_engine_clear_alerts : RuleEngine → RuleEngine
rule_engine_clear_alerts e = record e { alerts = []; alert_count = 0 }
