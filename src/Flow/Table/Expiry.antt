-- ===== src/Flow/Table/Expiry.antt =====
-- What `flow_cleanup_expired` removes and what it counts.
use dpdk_based_nids.Flow.State.{Flow, FlowTable}
use dpdk_based_nids.Flow.Table.{
  set_bucket, is_expired, Sweep, remove_flow, sweep_chain, sweep_from, first_sweep, after_sweep,
  flow_cleanup_expired,
}
use dpdk_based_nids.Prelude.{
  ℕ, zero, suc, ◌+◌, ◌-◌, ◌%◌, ◌⊎◌, sub32, All, sym, ◌^◌, ◌≤◌, ◌<◌, ◌≡◌, refl, ap, ◌∙◌, arith, inl,
  inr, true, false, Bool-cases, List, [], ◌∷◌, length, ◌==◌, if◌then◌else◌,
}

-- The flow was seen at most 2^32 seconds ago, and not in the future.
abbrev pub IsRecent : ℕ → Flow → Type 0
IsRecent now f = (f.last_ts ≤ now) × (now < f.last_ts + 2 ^ 32)

-- A chain before and after the sweep: a flow goes if it is not in use and was last seen more than
-- its timeout ago, all others stay in their order.
pub data Swept (now : ℕ) : List Flow → List Flow → Type 0 where
  at_end : Swept now [] []
  kept :
      {f : Flow} {chain rest : List Flow}
      → (0 < f.use_cnt) ⊎ (now ≤ f.last_ts + f.timeout_policy)
      → Swept now chain rest
      → Swept now (f ∷ chain) (f ∷ rest)
  taken :
      {f : Flow} {chain rest : List Flow}
      → f.use_cnt ≡ 0
      → f.last_ts + f.timeout_policy < now
      → Swept now chain rest
      → Swept now (f ∷ chain) rest

-- The number of flows in `n` buckets from index `i` on.
unfoldable pub total : ℕ → ℕ → (ℕ → List Flow) → ℕ
total zero i buckets = 0
total (suc n) i buckets = length (buckets i) + total n (i + 1) buckets

-- What has been removed, and what is active, along a sweep that turns `before` flows to `after`.
pub record Counts (before after : ℕ) (w w' : Sweep) : Type 0 where
  pub removed : w'.removed + after ≡ w.removed + before
  pub active : w'.stats.flows_active + before ≡ w.stats.flows_active + after

-- The age in 32 bits is the true one.
age_lem :
    (now : ℕ) (f : Flow)
    → IsRecent now f
    → sub32 (now % 2 ^ 32) (f.last_ts % 2 ^ 32) ≡ now - f.last_ts
age_lem now f h = omega arith

is_expired-goes :
    (now : ℕ) (f : Flow)
    → IsRecent now f
    → is_expired now f ≡ true
    → (f.use_cnt ≡ 0) × (f.last_ts + f.timeout_policy < now)
unfolding is_expired
is_expired-goes now f h e = let age = age_lem now f h in (ground (arith, e), ground (arith, e, age))

is_expired-stays :
    (now : ℕ) (f : Flow)
    → IsRecent now f
    → is_expired now f ≡ false
    → (0 < f.use_cnt) ⊎ (now ≤ f.last_ts + f.timeout_policy)
unfolding is_expired
is_expired-stays now f h e =
    let age = age_lem now f h in
    elim (Bool-cases (f.use_cnt == 0)) [
      | inl unused ↦ inr (ground (arith, e, age, unused))
      | inr used ↦ inl (ground (arith, used))
    ]

sweep_chain-Swept :
    (now : ℕ) (chain : List Flow) (w : Sweep)
    → All (IsRecent now) chain
    → Swept now chain (sweep_chain now chain w).0
unfolding sweep_chain
sweep_chain-Swept now [] w h = at_end
sweep_chain-Swept now (f ∷ rest) w h = elim (Bool-cases (is_expired now f)) [
  | inl gone ↦
      let (unused, old) = is_expired-goes now f h.0 gone in
      rw gone (taken unused old (sweep_chain-Swept now rest (remove_flow f w) h.1))
  | inr here ↦ rw here (kept (is_expired-stays now f h.0 here) (sweep_chain-Swept now rest w h.1))
]

sweep_chain-shorter :
    (now : ℕ) (chain : List Flow) (w : Sweep) → length (sweep_chain now chain w).0 ≤ length chain
unfolding sweep_chain
sweep_chain-shorter now [] w = omega arith
sweep_chain-shorter now (f ∷ rest) w = elim (Bool-cases (is_expired now f)) [
  | inl gone ↦ rw gone (omega (arith, sweep_chain-shorter now rest (remove_flow f w)))
  | inr stays ↦ rw stays (omega (arith, sweep_chain-shorter now rest w))
]

sweep_chain-Counts :
    (now : ℕ) (chain : List Flow) (w : Sweep)
    → length chain ≤ w.stats.flows_active
    → w.stats.flows_active < 2 ^ 64
    → let r = sweep_chain now chain w in Counts (length chain) (length r.0) w r.1
unfolding sweep_chain remove_flow
sweep_chain-Counts now [] w le word = record { removed = refl; active = refl }
sweep_chain-Counts now (f ∷ rest) w le word = elim (Bool-cases (is_expired now f)) [
  | inl gone ↦
      let h = sweep_chain-Counts now rest (remove_flow f w) (omega arith) (omega arith) in
      rw gone (record { removed = omega (arith, h.removed); active = omega (arith, h.active) })
  | inr stays ↦
      let h = sweep_chain-Counts now rest w (omega arith) word in
      rw stays (record { removed = omega (arith, h.removed); active = omega (arith, h.active) })
]

pub total-set_bucket_below :
    (n k i : ℕ) (chain : List Flow) (t : FlowTable)
    → i < k
    → total n k (set_bucket i chain t).buckets ≡ total n k t.buckets
unfolding total set_bucket
total-set_bucket_below zero k i chain t lt = refl
total-set_bucket_below (suc n) k i chain t lt =
    let away : (k == i) ≡ false = ground arith in
    rw (away, total-set_bucket_below n (k + 1) i chain t (omega arith)) refl

set_bucket-away :
    (i j : ℕ) (chain : List Flow) (t : FlowTable)
    → (j == i) ≡ false
    → (set_bucket i chain t).buckets j ≡ t.buckets j
unfolding set_bucket
set_bucket-away i j chain t away = rw away refl

-- The buckets of a range are swept, the others stay.
sweep_from-below :
    (now n i j : ℕ) (t : FlowTable) (w : Sweep)
    → j < i
    → (sweep_from now n i t w).0.buckets j ≡ t.buckets j
unfolding sweep_from
sweep_from-below now zero i j t w lt = refl
sweep_from-below now (suc n) i j t w lt =
    let r = sweep_chain now (t.buckets i) w in
    sweep_from-below now n (i + 1) j (set_bucket i r.0 t) r.1 (omega arith)
    ∙ set_bucket-away i j r.0 t (ground arith)

set_bucket-here :
    (i : ℕ) (chain : List Flow) (t : FlowTable) → (set_bucket i chain t).buckets i ≡ chain
unfolding set_bucket
set_bucket-here i chain t = let here : (i == i) ≡ true = ground arith in rw here refl

sweep_from-config :
    (now n i : ℕ) (t : FlowTable) (w : Sweep) → (sweep_from now n i t w).0.config ≡ t.config
unfolding sweep_from set_bucket
sweep_from-config now zero i t w = refl
sweep_from-config now (suc n) i t w =
    let r = sweep_chain now (t.buckets i) w in
    sweep_from-config now n (i + 1) (set_bucket i r.0 t) r.1

sweep_from-Counts :
    (now n i : ℕ) (t : FlowTable) (w : Sweep)
    → total n i t.buckets ≤ w.stats.flows_active
    → w.stats.flows_active < 2 ^ 64
    → let r = sweep_from now n i t w in Counts (total n i t.buckets) (total n i r.0.buckets) w r.1
unfolding sweep_from total
sweep_from-Counts now zero i t w le word = record { removed = refl; active = refl }
sweep_from-Counts now (suc n) i t w le word =
    let r = sweep_chain now (t.buckets i) w in
    let h = sweep_chain-Counts now (t.buckets i) w (omega arith) word in
    let t₁ = set_bucket i r.0 t in
    let rest = total-set_bucket_below n (i + 1) i r.0 t (omega arith) in
    let k =
      sweep_from-Counts now n (i + 1) t₁ r.1 (omega (arith, rest, h.active))
        (omega (arith, h.active, sweep_chain-shorter now (t.buckets i) w)) in
    let here =
      ap length (sweep_from-below now n (i + 1) i t₁ r.1 (omega arith) ∙ set_bucket-here i r.0 t) in
    record {
      removed = omega (arith, h.removed, k.removed, rest, here);
      active = omega (arith, h.active, k.active, rest, here);
    }

sweep_from-Swept :
    (now n i j : ℕ) (t : FlowTable) (w : Sweep)
    → i ≤ j
    → j < i + n
    → All (IsRecent now) (t.buckets j)
    → Swept now (t.buckets j) ((sweep_from now n i t w).0.buckets j)
unfolding sweep_from
sweep_from-Swept now zero i j t w le lt h = absurd (omega arith)
sweep_from-Swept now (suc n) i j t w le lt h =
    let r = sweep_chain now (t.buckets i) w in
    let t₁ = set_bucket i r.0 t in
    elim (Bool-cases (j == i)) [
      | inl here ↦
          let e : i ≡ j = ground arith in
          let k = sweep_from-below now n (i + 1) i t₁ r.1 (omega arith) ∙ set_bucket-here i r.0 t in
          rw (sym e, k) (sweep_chain-Swept now (t.buckets i) w (rw e h))
      | inr away ↦ rw (set_bucket-away i j r.0 t away) at (
          sweep_from-Swept now n (i + 1) j t₁ r.1 (ground arith) (omega arith)
            (rw (set_bucket-away i j r.0 t away) h))
    ]

-- `flows_active` is the number of flows in the table.
pub record IsCounted (t : FlowTable) : Type 0 where
  pub counted : t.stats.flows_active ≡ total t.config.hash_size 0 t.buckets
  pub word : t.stats.flows_active < 2 ^ 64

abbrev IsSwept : ℕ → FlowTable → ℕ × FlowTable → Type 0
IsSwept now t r =
    ((j : ℕ) → j < t.config.hash_size → Swept now (t.buckets j) (r.1.buckets j))
    × (r.0 + r.1.stats.flows_active ≡ t.stats.flows_active)
    × IsCounted r.1

cleanup_live :
    (now : ℕ) (t : FlowTable)
    → t.live ≡ true
    → flow_cleanup_expired now t
      ≡ after_sweep (sweep_from now t.config.hash_size 0 t (first_sweep t))
unfolding flow_cleanup_expired
cleanup_live now t live =
    ap
      (λ b.
        if b then after_sweep (sweep_from now t.config.hash_size 0 t (first_sweep t)) else (0, t))
      live

after_sweep-IsSwept :
    (now : ℕ) (t : FlowTable)
    → IsCounted t
    → ((j : ℕ) → j < t.config.hash_size → All (IsRecent now) (t.buckets j))
    → IsSwept now t (after_sweep (sweep_from now t.config.hash_size 0 t (first_sweep t)))
after_sweep-IsSwept now t c recent =
    let n = t.config.hash_size in
    let k = sweep_from-Counts now n 0 t (first_sweep t) (omega (arith, c.counted)) c.word in
    let e = sweep_from-config now n 0 t (first_sweep t) in
    (
      (λ j lt.
          sweep_from-Swept now n 0 j t (first_sweep t) (omega arith) (omega arith) (recent j lt)),
      omega (arith, k.removed, k.active, c.counted),
      record {
        counted = rw e (omega (arith, k.active, c.counted));
        word = omega (arith, k.removed, k.active, c.counted, c.word);
      },
    )

-- While no other thread uses the table, whose count of active flows is right, and no flow was last
-- seen in the future or 2^32 seconds ago, the sweep takes out of each bucket the flows that are not
-- in use and were last seen more than their timeout ago, and leaves all others in their order. What
-- it returns is the number of flows that it took out, and the count of active flows is right
-- afterwards.
pub flow_cleanup_expired-IsCounted :
    (now : ℕ) (t : FlowTable)
    → t.live ≡ true
    → IsCounted t
    → ((j : ℕ) → j < t.config.hash_size → All (IsRecent now) (t.buckets j))
    → let (removed, t') = flow_cleanup_expired now t in
      ((j : ℕ) → j < t.config.hash_size → Swept now (t.buckets j) (t'.buckets j))
      × (removed + t'.stats.flows_active ≡ t.stats.flows_active)
      × IsCounted t'
flow_cleanup_expired-IsCounted now t live c recent =
    rw (cleanup_live now t live) (after_sweep-IsSwept now t c recent)
