-- ===== src/Rules/Alert/Counted.antt =====
-- The engine keeps a right count of its alerts, and no more than its limit.
use dpdk_based_nids.Flow.State.{Flow}
use dpdk_based_nids.Prelude.{
  ℕ, suc, ◌+◌, ◌-◌, ◌^◌, ◌≤◌, ◌<◌, ◌≡◌, refl, arith, Bool, true, false, List, [], ◌∷◌, Option, ltb,
  length, take, length-take, take_all, ltb→lt, ap, sym, ◌∙◌, if◌then◌else◌, add32,
}
use dpdk_based_nids.Rules.Alert.{
  remove_last, remove_oldest, limit_alerts, count_alert, add_alert, new_alert, create_alert,
  copy_string,
}
use dpdk_based_nids.Rules.State.{Severity, DetectionRule, Alert, RuleEngine}

-- The limit is not 0 and the count cannot wrap around.
pub record IsCounted (e : RuleEngine) : Type 0 where
  pub count : e.alert_count ≡ length e.alerts
  pub bounded : length e.alerts ≤ e.max_alerts
  pub some_room : 0 < e.max_alerts
  pub narrow : e.max_alerts < 2 ^ 32 - 1

-- Removing the last element keeps the others.
remove_last-take :
    (a : Alert) (rest : List Alert) → remove_last (a ∷ rest) ≡ take (length rest) (a ∷ rest)
unfolding remove_last
remove_last-take a [] = refl
remove_last-take a (b ∷ rest) = ap (◌∷◌ a) (remove_last-take b rest)

-- The alerts, their number and the limit after the limit has been applied.
abbrev HoldsNewest : RuleEngine → List Alert → ℕ → Type 0
HoldsNewest e l limit =
    (e.alerts ≡ take limit l) × (e.alert_count ≡ length (take limit l)) × (e.max_alerts ≡ limit)

remove_oldest-HoldsNewest :
    (e : RuleEngine) (l : List Alert)
    → e.alerts ≡ l
    → e.alert_count ≡ length l
    → length l ≡ e.max_alerts + 1
    → 0 < e.max_alerts
    → e.max_alerts < 2 ^ 32 - 1
    → HoldsNewest (remove_oldest e l) l e.max_alerts
unfolding remove_oldest
remove_oldest-HoldsNewest e [] s count full room narrow = absurd (omega arith)
remove_oldest-HoldsNewest e (a ∷ []) s count full room narrow = absurd (omega arith)
remove_oldest-HoldsNewest e (a ∷ b ∷ rest) s count full room narrow =
    let size : length (b ∷ rest) ≡ e.max_alerts = omega arith in
    let kept : remove_last (a ∷ b ∷ rest) ≡ take e.max_alerts (a ∷ b ∷ rest) =
      remove_last-take a (b ∷ rest) ∙ ap (λ n. take n (a ∷ b ∷ rest)) size in
    (kept, omega (arith, length-take e.max_alerts (a ∷ b ∷ rest), count, full, narrow), refl)

if-HoldsNewest :
    (b : Bool) (x y : RuleEngine) (l : List Alert) (limit : ℕ)
    → (b ≡ true → HoldsNewest x l limit)
    → (b ≡ false → HoldsNewest y l limit)
    → HoldsNewest (if b then x else y) l limit
if-HoldsNewest true x y l limit h k = h refl
if-HoldsNewest false x y l limit h k = k refl

limit_alerts-HoldsNewest :
    (a : Alert) (e : RuleEngine)
    → IsCounted e
    → HoldsNewest (limit_alerts (add_alert a e)) (a ∷ e.alerts) e.max_alerts
unfolding limit_alerts
limit_alerts-HoldsNewest a e h =
    let count : add32 e.alert_count 1 ≡ suc (length e.alerts) =
      omega (arith, h.count, h.bounded, h.narrow) in
    if-HoldsNewest (ltb e.max_alerts (add32 e.alert_count 1)) _ _ (a ∷ e.alerts) e.max_alerts
      (λ full.
        let over = ltb→lt e.max_alerts (add32 e.alert_count 1) full in
        remove_oldest-HoldsNewest (add_alert a e) (a ∷ e.alerts) refl count
          (omega (arith, count, over, h.bounded)) h.some_room h.narrow)
      (λ fits.
        let all = take_all (a ∷ e.alerts) e.max_alerts (ground (arith, count, fits)) in
        (sym all, count ∙ ap length (sym all), refl))

-- Where there is memory for the alert, the engine then has the new alert and, before it, the
-- newest of the alerts it had, as many as its limit allows.
pub create_alert-newest :
    (grants : ℕ → Bool) (rule : DetectionRule) (f : Flow) (detail : Option (List ℕ)) (k : ℕ)
    (e : RuleEngine)
    → IsCounted e
    → grants k ≡ true
    → (a : Alert) × (a.rule_id ≡ rule.rule_id)
      × (a.severity ≡ rule.severity)
      × ((create_alert grants rule f detail k e).0.alerts ≡ take e.max_alerts (a ∷ e.alerts))
unfolding create_alert count_alert new_alert
create_alert-newest grants rule f detail k e h got =
    let (message, k₁) = copy_string grants rule.name (k + 1) in
    let (copy, k₂) = copy_string grants detail k₁ in
    let id = add32 e.alert_id_counter 1 in
    let a = new_alert rule f message copy id in
    let counted : IsCounted (record e { alert_id_counter = id }) = record {
      count = h.count;
      bounded = h.bounded;
      some_room = h.some_room;
      narrow = h.narrow;
    } in
    (
      a,
      refl,
      refl,
      rw got (limit_alerts-HoldsNewest a (record e { alert_id_counter = id }) counted).0,
    )

HoldsNewest-IsCounted :
    (e : RuleEngine) (l : List Alert) (limit : ℕ)
    → HoldsNewest e l limit
    → 0 < limit
    → limit < 2 ^ 32 - 1
    → IsCounted e
HoldsNewest-IsCounted e l limit (kept, count, same) room narrow = record {
  count = count ∙ ap length (sym kept);
  bounded = rw (kept, same) (omega (arith, length-take limit l));
  some_room = rw same room;
  narrow = rw same narrow;
}

if-IsCounted :
    (b : Bool) (x y : RuleEngine × ℕ)
    → IsCounted x.0
    → IsCounted y.0
    → IsCounted (if b then x else y).0
if-IsCounted true x y h k = h
if-IsCounted false x y h k = k

count_alert-IsCounted : (s : Severity) (e : RuleEngine) → IsCounted e → IsCounted (count_alert s e)
unfolding count_alert
count_alert-IsCounted s e h = record {
  count = h.count;
  bounded = h.bounded;
  some_room = h.some_room;
  narrow = h.narrow;
}

-- With memory or without, creating an alert keeps the count right and within the limit.
pub create_alert-IsCounted :
    (grants : ℕ → Bool) (rule : DetectionRule) (f : Flow) (detail : Option (List ℕ)) (k : ℕ)
    (e : RuleEngine)
    → IsCounted e
    → IsCounted (create_alert grants rule f detail k e).0
unfolding create_alert
create_alert-IsCounted grants rule f detail k e h =
    let (message, k₁) = copy_string grants rule.name (k + 1) in
    let (copy, k₂) = copy_string grants detail k₁ in
    let id = add32 e.alert_id_counter 1 in
    let a = new_alert rule f message copy id in
    let e₁ : RuleEngine = record e { alert_id_counter = id } in
    let counted : IsCounted e₁ = record {
      count = h.count;
      bounded = h.bounded;
      some_room = h.some_room;
      narrow = h.narrow;
    } in
    if-IsCounted (grants k) _ (e, k + 1)
      (count_alert-IsCounted rule.severity (limit_alerts (add_alert a e₁)) (
        HoldsNewest-IsCounted (limit_alerts (add_alert a e₁)) (a ∷ e.alerts) e.max_alerts
          (limit_alerts-HoldsNewest a e₁ counted) h.some_room h.narrow))
      h
