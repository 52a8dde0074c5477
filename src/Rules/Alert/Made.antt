-- ===== src/Rules/Alert/Made.antt =====
-- How many of the alerts that are asked for are made.
use dpdk_based_nids.Flow.State.{Flow}
use dpdk_based_nids.Prelude.{
  ℕ, ◌+◌, ◌%◌, ◌^◌, ◌≡◌, ◌⊎◌, refl, arith, Bool, false, Bool-cases, inl, inr, List, [], ◌∷◌, Option,
  ltb,
}
use dpdk_based_nids.Rules.Alert.{remove_oldest, limit_alerts, count_alert, create_alert}
use dpdk_based_nids.Rules.State.{DetectionRule, Alert, RuleEngine}

-- Of `n` alerts, `made` have been generated between two values of `alerts_generated`, and the others
-- have failed, which takes an allocation that failed.
pub record Made (grants : ℕ → Bool) (n old new : ℕ) : Type 0 where
  pub made : ℕ
  pub failed : ℕ
  pub sum : made + failed ≡ n
  pub generated : new % 2 ^ 64 ≡ (old + made) % 2 ^ 64
  pub cause : (failed ≡ 0) ⊎ ((j : ℕ) × (grants j ≡ false))

either_cause : {A : Type 0} (m n : ℕ) → (m ≡ 0) ⊎ A → (n ≡ 0) ⊎ A → (m + n ≡ 0) ⊎ A
either_cause m n (inr a) q = inr a
either_cause m n (inl e) (inr a) = inr a
either_cause m n (inl e) (inl d) = inl (omega arith)

module _ (grants : ℕ → Bool) where
  pub none-Made : (g : ℕ) → Made grants 0 g g
  none-Made g = record {
    made = 0;
    failed = 0;
    sum = refl;
    generated = omega arith;
    cause = inl refl;
  }

  pub append-Made :
      (m n old mid new : ℕ)
      → Made grants m old mid
      → Made grants n mid new
      → Made grants (m + n) old new
  append-Made m n old mid new a b = record {
    made = a.made + b.made;
    failed = a.failed + b.failed;
    sum = omega (arith, a.sum, b.sum);
    generated = omega (arith, a.generated, b.generated);
    cause = either_cause a.failed b.failed a.cause b.cause;
  }

  remove_oldest-generated :
      (e : RuleEngine) (alerts : List Alert)
      → (remove_oldest e alerts).alerts_generated ≡ e.alerts_generated
  unfolding remove_oldest
  remove_oldest-generated e [] = refl
  remove_oldest-generated e (a ∷ []) = refl
  remove_oldest-generated e (a ∷ b ∷ rest) = refl

  limit_alerts-generated : (e : RuleEngine) → (limit_alerts e).alerts_generated ≡ e.alerts_generated
  unfolding limit_alerts
  limit_alerts-generated e = elim (Bool-cases (ltb e.max_alerts e.alert_count)) [
    | inl over ↦ rw over (remove_oldest-generated e e.alerts)
    | inr fits ↦ rw fits refl
  ]

  -- One alert is made, or fails with its first allocation.
  pub create_alert-Made :
      (rule : DetectionRule) (f : Flow) (detail : Option (List ℕ)) (k : ℕ) (e : RuleEngine)
      → Made grants 1 e.alerts_generated (create_alert grants rule f detail k e).0.alerts_generated
  unfolding create_alert count_alert
  create_alert-Made rule f detail k e = elim (Bool-cases (grants k)) [
    | inl got ↦ rw got (record {
      made = 1;
      failed = 0;
      sum = refl;
      generated = rw (limit_alerts-generated _) (omega arith);
      cause = inl refl;
    })
    | inr refused ↦ rw refused (record {
      made = 0;
      failed = 1;
      sum = refl;
      generated = omega arith;
      cause = inr (k, refused);
    })
  ]
