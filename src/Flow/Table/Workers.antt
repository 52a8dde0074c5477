-- ===== src/Flow/Table/Workers.antt =====
-- `flow_get` of src/flow.c by several workers over one table, interleaved in any order. A worker
-- tests `max_flows`, and counts the new flow later, under a lock that covers one bucket only. Each
-- of the two is taken as one step, also the increments of the shared statistics, and the order of
-- the steps is left open, which allows all that the locks allow.
use Prim.Native.Nat.{bit_and}
use dpdk_based_nids.Flow.Match.{flow_hash_calculate}
use dpdk_based_nids.Flow.State.{Flow, FlowPacket, FlowTable}
use dpdk_based_nids.Flow.Table.Count.{session_for-Untouched}
use dpdk_based_nids.Flow.Table.{find_flow, set_bucket, count_created, insert_flow}
use dpdk_based_nids.Prelude.{
  ℕ, ◌+◌, ◌-◌, ◌^◌, ◌≤◌, ◌<◌, ◌≡◌, ◌⊎◌, ◌∙◌, arith, Bool, true, false, List, [], ◌∷◌, Option, none,
  some, length, leb, ◌==◌,
}

-- A worker is outside `flow_get`, or behind the test of the limit for a packet at a time.
pub data Worker : Type 0 where
  outside : Worker
  creating : (now : ℕ) (p : FlowPacket) → Worker

-- The number of workers behind the test.
unfoldable pub creators : List Worker → ℕ
creators [] = 0
creators (outside ∷ ws) = creators ws
creators (creating now p ∷ ws) = creators ws + 1

module _ (alloc grants : ℕ → Bool) (crc : List ℕ → ℕ) where
  abbrev pub index : FlowPacket → FlowTable → ℕ
  index p t = bit_and (flow_hash_calculate crc p) (t.config.hash_size - 1)

  abbrev pub found : FlowPacket → FlowTable → Option (Flow × List Flow)
  found p t = find_flow (flow_hash_calculate crc p) p (t.buckets (index p t))

  -- One step of one worker: it finds its flow, or the table is full, or it passes the test, and
  -- then creates the flow.
  pub data Turn (t : FlowTable) : Worker → FlowTable → Worker → Type 0 where
    hit :
        (p : FlowPacket) (f : Flow) (chain : List Flow)
        → found p t ≡ some (f, chain)
        → Turn t outside (set_bucket (index p t) chain t) outside
    full :
        (p : FlowPacket)
        → found p t ≡ none
        → leb t.config.max_flows t.stats.flows_active ≡ true
        → Turn t outside t outside
    pass :
        (now : ℕ) (p : FlowPacket)
        → found p t ≡ none
        → leb t.config.max_flows t.stats.flows_active ≡ false
        → Turn t outside t (creating now p)
    insert :
        (now : ℕ) (p : FlowPacket)
        → Turn t
            (creating now p)
            (insert_flow alloc grants now p (flow_hash_calculate crc p) (index p t) t).1
            outside

  -- One of the workers takes a step.
  pub data Step (t t' : FlowTable) : List Worker → List Worker → Type 0 where
    here : (w w' : Worker) (ws : List Worker) → Turn t w t' w' → Step t t' (w ∷ ws) (w' ∷ ws)
    there : (w : Worker) (ws ws' : List Worker) → Step t t' ws ws' → Step t t' (w ∷ ws) (w ∷ ws')

  pub data Reach (t : FlowTable) (ws : List Worker) : FlowTable → List Worker → Type 0 where
    start : Reach t ws t ws
    later :
        (t₁ t₂ : FlowTable) (ws₁ ws₂ : List Worker)
        → Reach t ws t₁ ws₁
        → Step t₁ t₂ ws₁ ws₂
        → Reach t ws t₂ ws₂

  -- What a step does to the number of active flows and of workers behind the test: together they
  -- do not grow, or a worker has passed the test.
  record Effect (t t' : FlowTable) (n n' : ℕ) : Type 0 where
    config_eq : t'.config ≡ t.config
    effect :
        (t'.stats.flows_active + n' ≤ t.stats.flows_active + n)
        ⊎ (t'.stats.flows_active < t.config.max_flows)

  -- Each worker but one can be behind the test when the last flow below the limit is created.
  record IsShared (t₀ : FlowTable) (n : ℕ) (t : FlowTable) (ws : List Worker) : Type 0 where
    config_eq : t.config ≡ t₀.config
    workers : length ws ≡ n
    bounded : t.stats.flows_active + creators ws + 1 ≤ t₀.config.max_flows + n

  insert_flow-counts :
      (now : ℕ) (p : FlowPacket) (hash i : ℕ) (t : FlowTable)
      → alloc t.callocs ≡ true
      → t.stats.flows_active + 1 < 2 ^ 64
      → let t' = (insert_flow alloc grants now p hash i t).1 in
        t'.stats.flows_active ≡ t.stats.flows_active + 1
  unfolding insert_flow count_created set_bucket
  insert_flow-counts now p hash i t fine word =
      let u = session_for-Untouched alloc grants p (record t { callocs = t.callocs + 1 }) in
      rw fine (rw (u.stats_eq) (omega arith))

  -- Two workers exceed the limit by one: with one flow below it, and two packets of no flow in
  -- different buckets, both pass the test before either counts its flow. No allocation is to fail.
  pub max_flows-exceeded :
      (now : ℕ) (p q : FlowPacket) (t : FlowTable)
      → t.stats.flows_active + 1 ≡ t.config.max_flows
      → t.config.max_flows + 1 < 2 ^ 64
      → found p t ≡ none
      → found q t ≡ none
      → (index p t == index q t) ≡ false
      → ((k : ℕ) → alloc k ≡ true)
      → (t' : FlowTable) × Reach t (outside ∷ outside ∷ []) t' (outside ∷ outside ∷ [])
        × (t'.stats.flows_active ≡ t.config.max_flows + 1)
  max_flows-exceeded now p q t last word new_p new_q apart granted =
      let room : leb t.config.max_flows t.stats.flows_active ≡ false = ground (arith, last) in
      let t₁ = (insert_flow alloc grants now p (flow_hash_calculate crc p) (index p t) t).1 in
      let t₂ = (insert_flow alloc grants now q (flow_hash_calculate crc q) (index q t₁) t₁).1 in
      let a =
        insert_flow-counts now p (flow_hash_calculate crc p) (index p t) t (granted t.callocs)
          (omega arith) in
      let b =
        insert_flow-counts now q (flow_hash_calculate crc q) (index q t₁) t₁ (granted t₁.callocs)
          (omega (arith, a)) in
      let one = creating now p in
      let two = creating now q in
      let s₁ : Reach t (outside ∷ outside ∷ []) t (one ∷ outside ∷ []) =
        later t t _ _ start (here outside one (outside ∷ []) (pass now p new_p room)) in
      let s₂ : Reach t (outside ∷ outside ∷ []) t (one ∷ two ∷ []) =
        later t t _ _ s₁
          (there one (outside ∷ []) (two ∷ []) (here outside two [] (pass now q new_q room))) in
      let s₃ : Reach t (outside ∷ outside ∷ []) t₁ (outside ∷ two ∷ []) =
        later t t₁ _ _ s₂ (here one outside (two ∷ []) (insert now p)) in
      let s₄ : Reach t (outside ∷ outside ∷ []) t₂ (outside ∷ outside ∷ []) =
        later t₁ t₂ _ _ s₃
          (there outside (two ∷ []) (outside ∷ []) (here two outside [] (insert now q))) in
      (t₂, s₄, b ∙ omega (arith, a, last))
