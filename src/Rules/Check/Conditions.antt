-- ===== src/Rules/Check/Conditions.antt =====
-- When a condition of a rule holds of a string, said without the tests of the code.
use dpdk_based_nids.Prelude.{
  ℕ, ◌≤◌, ◌≡◌, ◌⊎◌, ◌↔◌, refl, arith, inl, inr, Bool, true, false, not, Bool-cases, List, Option,
  none, some, length, ltb, leb, ◌&&◌, ◌||◌, if◌then◌else◌,
}
use dpdk_based_nids.Rules.Check.{string_contains, matches_type, check_condition}
use dpdk_based_nids.Rules.State.{
  MatchType, content, pcre, by_length, entropy, frequency, RuleCondition, RuleLibc,
}

not_iff : {A : Type 0} (b : Bool) → ((b ≡ true) ↔ A) → (not b ≡ true) ↔ (¬ A)
not_iff true (to, from) = (λ h. absurd (ground (arith, h)), λ no. absurd (no (to refl)))
not_iff false (to, from) = (λ h. λ a. absurd (ground (arith, from a)), λ no. refl)

both_iff : (a b : Bool) → ((a && b) ≡ true) ↔ ((a ≡ true) × (b ≡ true))
both_iff true b = (λ h. (refl, h), λ (_, h). h)
both_iff false b = (λ h. absurd (ground (arith, h)), λ (h, _). h)

module _ (c : RuleLibc) where
  -- The string has the pattern in it. A condition without a pattern holds of none.
  abbrev pub HasPattern : Option (List ℕ) → Bool → List ℕ → Type 0
  HasPattern none case_sensitive s = ⊥
  HasPattern (some pattern) true s = c.strstr s pattern ≡ true
  HasPattern (some pattern) false s = c.strcasestr s pattern ≡ true

  -- What a condition says of a string, by its type. Regular expressions and frequencies never
  -- hold, and a greatest length of 0 is no bound.
  abbrev pub Meets : MatchType → RuleCondition → List ℕ → Type 0
  Meets content cond s = HasPattern cond.pattern cond.case_sensitive s
  Meets pcre cond s = ⊥
  Meets by_length cond s =
      (cond.min_length ≤ length s) × ((cond.max_length ≡ 0) ⊎ (length s ≤ cond.max_length))
  Meets entropy cond s =
      (c.double_le cond.min_entropy (c.calculate_entropy s) ≡ true)
      × (c.double_le (c.calculate_entropy s) cond.max_entropy ≡ true)
  Meets frequency cond s = ⊥

  abbrev Signed : Bool → Type 0 → Type 0
  Signed false A = A
  Signed true A = ¬ A

  -- A negated condition is satisfied where what it says is not so.
  abbrev pub Satisfies : RuleCondition → List ℕ → Type 0
  Satisfies cond s = Signed cond.negated (Meets cond.type cond s)

  string_contains_iff :
      (s : List ℕ) (pattern : Option (List ℕ)) (case_sensitive : Bool)
      → (string_contains c s pattern case_sensitive ≡ true) ↔ HasPattern pattern case_sensitive s
  unfolding string_contains
  string_contains_iff s none case_sensitive = (λ h. absurd (ground (arith, h)), λ h. absurd h)
  string_contains_iff s (some pattern) true = (λ h. h, λ h. h)
  string_contains_iff s (some pattern) false = (λ h. h, λ h. h)

  within_iff :
      (n low high : ℕ)
      → ((leb low n && (not (ltb 0 high) || leb n high)) ≡ true)
        ↔ ((low ≤ n) × ((high ≡ 0) ⊎ (n ≤ high)))
  within_iff n low high = (
    λ h. (
      ground (arith, h),
      elim (Bool-cases (ltb 0 high)) [
        | inl bounded ↦ inr (ground (arith, h, bounded))
        | inr unbounded ↦ inl (ground (arith, unbounded))
      ],
    ),
    λ (above, below). elim below [
      | inl unbounded ↦ ground (arith, above, unbounded)
      | inr bounded ↦ ground (arith, above, bounded)
    ],
  )

  matches_type_iff :
      (type : MatchType) (cond : RuleCondition) (s : List ℕ)
      → (matches_type c type cond s ≡ true) ↔ Meets type cond s
  unfolding matches_type
  matches_type_iff content cond s = string_contains_iff s cond.pattern cond.case_sensitive
  matches_type_iff pcre cond s = (λ h. absurd (ground (arith, h)), λ h. absurd h)
  matches_type_iff by_length cond s = within_iff (length s) cond.min_length cond.max_length
  matches_type_iff entropy cond s =
      both_iff (c.double_le cond.min_entropy (c.calculate_entropy s))
        (c.double_le (c.calculate_entropy s) cond.max_entropy)
  matches_type_iff frequency cond s = (λ h. absurd (ground (arith, h)), λ h. absurd h)

  pub check_condition_iff :
      (cond : RuleCondition) (s : List ℕ) → (check_condition c cond s ≡ true) ↔ Satisfies cond s
  unfolding check_condition
  check_condition_iff cond s =
      by_sign cond.negated (matches_type c cond.type cond s) (Meets cond.type cond s)
        (matches_type_iff cond.type cond s)
    where
      by_sign :
          (negated b : Bool) (A : Type 0)
          → ((b ≡ true) ↔ A)
          → ((if negated then not b else b) ≡ true) ↔ Signed negated A
      by_sign false b A e = e
      by_sign true b A e = not_iff b e
