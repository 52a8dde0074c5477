-- ===== src/Flow/Table/Count.antt =====
-- `flow_get` keeps the count of active flows right, and within `max_flows`.
use mathlib.Core.Path.{subst}
use Prim.Native.Nat.{min, bit_and, digits, bit_and-bitwise}
use dpdk_based_nids.Flow.Match.{flow_hash_calculate}
use dpdk_based_nids.Flow.State.{TcpSession, Flow, FlowPacket, FlowTable}
use dpdk_based_nids.Flow.Table.Expiry.{total, total-set_bucket_below, IsCounted}
use dpdk_based_nids.Flow.Table.{
  behind, is_hit, find_flow, set_bucket, new_session, session_for, count_created, insert_flow,
  create_flow, got, flow_get,
}
use dpdk_based_nids.Prelude.{
  ℕ, zero, suc, ◌+◌, ◌-◌, ◌/◌, ◌^◌, ◌≤◌, ◌<◌, ◌≡◌, refl, ap, arith, inl, inr, Bool, Bool-cases,
  List, [], ◌∷◌, Option, none, some, length, leb, ◌==◌,
}

digits-le : (n a b : ℕ) → digits (λ b. zero) min n a b ≤ b
digits-le zero zero b = omega arith
digits-le zero (suc a) b = omega arith
digits-le (suc n) zero b = omega arith
digits-le (suc n) (suc a) b = omega (arith, digits-le n (suc a / 2) (b / 2))

bit_and-le : (a b : ℕ) → bit_and a b ≤ b
bit_and-le a b = omega (arith, bit_and-bitwise a b, digits-le a a b)

total-set_bucket :
    (n k i : ℕ) (chain : List Flow) (t : FlowTable)
    → k ≤ i
    → i < k + n
    → total n k (set_bucket i chain t).buckets + length (t.buckets i)
      ≡ total n k t.buckets + length chain
unfolding total set_bucket
total-set_bucket zero k i chain t le lt = absurd (omega arith)
total-set_bucket (suc n) k i chain t le lt = elim (Bool-cases (k == i)) [
  | inl here ↦
      let e : k ≡ i = ground arith in
      let rest = total-set_bucket_below n (k + 1) i chain t (omega arith) in
      let same : length (t.buckets k) ≡ length (t.buckets i) = ap (λ j. length (t.buckets j)) e in
      rw here (omega (arith, rest, same))
  | inr away ↦
      let rest = total-set_bucket n (k + 1) i chain t (ground arith) (omega arith) in
      rw away (omega (arith, rest))
]

abbrev HasLength : ℕ → Option (Flow × List Flow) → Type 0
HasLength n none = Unit
HasLength n (some (f, chain)) = length chain ≡ n

behind-length :
    (f : Flow) (n : ℕ) (o : Option (Flow × List Flow))
    → HasLength n o
    → HasLength (n + 1) (behind f o)
behind-length f n none h = tt
behind-length f n (some (hit, chain)) h = omega (arith, h)

find_flow-length :
    (hash : ℕ) (p : FlowPacket) (chain : List Flow)
    → HasLength (length chain) (find_flow hash p chain)
unfolding find_flow
find_flow-length hash p [] = tt
find_flow-length hash p (f ∷ chain) = elim (Bool-cases (is_hit hash p f)) [
  | inl hit ↦ rw hit refl
  | inr miss ↦ rw miss (
      subst (λ n. HasLength n (behind f (find_flow hash p chain))) (omega arith)
        (behind-length f (length chain) (find_flow hash p chain) (find_flow-length hash p chain)))
]

-- The table is counted and within its limit.
pub record IsBounded (t : FlowTable) : Type 0 where
  pub counted : IsCounted t
  pub within : t.stats.flows_active ≤ t.config.max_flows

module _ (alloc grants : ℕ → Bool) where
  pub record Untouched (t : FlowTable) (r : Option TcpSession × FlowTable) : Type 0 where
    pub config_eq : r.1.config ≡ t.config
    pub stats_eq : r.1.stats ≡ t.stats
    pub buckets_eq : r.1.buckets ≡ t.buckets

  new_session-Untouched : (t : FlowTable) → Untouched t (new_session alloc grants t)
  unfolding new_session
  new_session-Untouched t = elim (Bool-cases (alloc t.callocs)) [
    | inl a ↦ rw a (record { config_eq = refl; stats_eq = refl; buckets_eq = refl })
    | inr b ↦ rw b (record { config_eq = refl; stats_eq = refl; buckets_eq = refl })
  ]

  pub session_for-Untouched :
      (p : FlowPacket) (t : FlowTable) → Untouched t (session_for alloc grants p t)
  unfolding session_for
  session_for-Untouched p t = elim (Bool-cases (p.ip_proto == 6)) [
    | inl tcp ↦ rw tcp (new_session-Untouched t)
    | inr other ↦ rw other (record { config_eq = refl; stats_eq = refl; buckets_eq = refl })
  ]

  abbrev Kept : FlowTable → Option Flow × FlowTable → Type 0
  Kept t r = IsBounded r.1 × (r.1.config ≡ t.config)

  -- A chain of the same length.
  same_length-Kept :
      (i : ℕ) (chain : List Flow) (t : FlowTable)
      → i < t.config.hash_size
      → length chain ≡ length (t.buckets i)
      → IsBounded t
      → IsBounded (set_bucket i chain t)
  unfolding set_bucket
  same_length-Kept i chain t lt e b =
      let sum = total-set_bucket t.config.hash_size 0 i chain t (omega arith) (omega arith) in
      record {
        counted = record {
          counted = omega (arith, sum, b.counted.counted, e);
          word = b.counted.word;
        };
        within = b.within;
      }

  -- One flow more at the head of a chain, in a table `t₁` with the chains and counts of `t`.
  longer-Kept :
      (i : ℕ) (f : Flow) (t : FlowTable) (r : Option TcpSession × FlowTable)
      → i < t.config.hash_size
      → t.stats.flows_active < t.config.max_flows
      → t.config.max_flows < 2 ^ 32
      → IsBounded t
      → Untouched t r
      → Kept t (some f, count_created (set_bucket i (f ∷ t.buckets i) r.1))
  unfolding count_created set_bucket
  longer-Kept i f t r lt room small b u =
      let sum =
        total-set_bucket t.config.hash_size 0 i (f ∷ t.buckets i) t (omega arith) (omega arith) in
      (
        record {
          counted = record {
            counted =
                rw (u.config_eq, u.stats_eq, u.buckets_eq) (omega (arith, sum, b.counted.counted));
            word = rw u.stats_eq (omega arith);
          };
          within = rw (u.config_eq, u.stats_eq) (omega arith);
        },
        u.config_eq,
      )

  create_flow-Kept :
      (now : ℕ) (p : FlowPacket) (hash i : ℕ) (t : FlowTable)
      → i < t.config.hash_size
      → t.config.max_flows < 2 ^ 32
      → IsBounded t
      → Kept t (create_flow alloc grants now p hash i t)
  unfolding create_flow insert_flow
  create_flow-Kept now p hash i t lt small b =
      elim (Bool-cases (leb t.config.max_flows t.stats.flows_active)) [
        | inl full ↦ rw full (b, refl)
        | inr room ↦
            let t₀ : FlowTable = record t { callocs = t.callocs + 1 } in
            let b₀ : IsBounded t₀ = record {
              counted = record { counted = b.counted.counted; word = b.counted.word };
              within = b.within;
            } in
            elim (Bool-cases (alloc t.callocs)) [
              | inr failed ↦ rw (room, failed) (b₀, refl)
              | inl fine ↦
                  rw (room, fine)
                    (longer-Kept i _ t₀ (session_for alloc grants p t₀) lt (ground arith) small b₀
                      (session_for-Untouched p t₀))
            ]
      ]

  got-Kept :
      (now : ℕ) (p : FlowPacket) (hash i : ℕ) (t : FlowTable) (o : Option (Flow × List Flow))
      → i < t.config.hash_size
      → t.config.max_flows < 2 ^ 32
      → IsBounded t
      → HasLength (length (t.buckets i)) o
      → Kept t (got alloc grants now p hash i t o)
  unfolding set_bucket
  got-Kept now p hash i t none lt small b h = create_flow-Kept now p hash i t lt small b
  got-Kept now p hash i t (some (f, chain)) lt small b h = (same_length-Kept i chain t lt h b, refl)

  -- While no other thread uses the table, `flow_get` keeps the count of active flows equal to the
  -- number of flows in the table, and at most `max_flows`, in every case. The table is to have at
  -- least one bucket, and `max_flows` to be a word of 32 bits.
  pub flow_get-IsBounded :
      (crc : List ℕ → ℕ) (now : ℕ) (p : FlowPacket) (t : FlowTable)
      → 0 < t.config.hash_size
      → t.config.max_flows < 2 ^ 32
      → IsBounded t
      → IsBounded (flow_get alloc grants crc now p t).1
        × ((flow_get alloc grants crc now p t).1.config ≡ t.config)
  unfolding flow_get
  flow_get-IsBounded crc now p t some_buckets small b =
      let hash = flow_hash_calculate crc p in
      let i = bit_and hash (t.config.hash_size - 1) in
      got-Kept now p hash i t (find_flow hash p (t.buckets i))
        (omega (arith, bit_and-le hash (t.config.hash_size - 1))) small b
        (find_flow-length hash p (t.buckets i))
