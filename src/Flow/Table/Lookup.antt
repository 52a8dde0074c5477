-- ===== src/Flow/Table/Lookup.antt =====
-- Which flow `flow_get` finds for the packets behind the first one.
use Prim.Native.Nat.{bit_and}
use dpdk_based_nids.Flow.Match.Symmetric.{same_words_refl}
use dpdk_based_nids.Flow.Match.{first_word, same_ends, hash_input, flow_hash_calculate, flow_match}
use dpdk_based_nids.Flow.State.{TcpSession, Flow, FlowPacket, FlowConfig, FlowTable}
use dpdk_based_nids.Flow.Table.{
  take_reference, behind, is_hit, find_flow, address_of, set_bucket, new_session, new_flow,
  session_for, count_created, insert_flow, create_flow, got, flow_get,
}
use dpdk_based_nids.Prelude.{
  ℕ, ◌+◌, ◌-◌, ◌≡◌, ◌⊎◌, refl, ◌∙◌, arith, inl, inr, Bool, true, false, Bool-cases, List, [], ◌∷◌,
  Option, none, some, leb, ◌==◌,
}

abbrev pub IsIp : FlowPacket → Type 0
IsIp p = (p.ip_version ≡ 4) ⊎ (p.ip_version ≡ 6)

-- Two packets between the same ends in the same direction.
pub record SameEnds (p q : FlowPacket) : Type 0 where
  pub version : q.ip_version ≡ p.ip_version
  pub src : q.src_ip ≡ p.src_ip
  pub dst : q.dst_ip ≡ p.dst_ip
  pub proto : q.ip_proto ≡ p.ip_proto
  pub sport : q.src_port ≡ p.src_port
  pub dport : q.dst_port ≡ p.dst_port

flow_match-SameEnds : (f : Flow) (p q : FlowPacket) → SameEnds p q → flow_match f q ≡ flow_match f p
unfolding flow_match
flow_match-SameEnds f p q s = rw (s.version, s.src, s.dst, s.proto, s.sport, s.dport) refl

flow_hash_calculate-SameEnds :
    (crc : List ℕ → ℕ) (p q : FlowPacket)
    → SameEnds p q
    → flow_hash_calculate crc q ≡ flow_hash_calculate crc p
unfolding flow_hash_calculate hash_input
flow_hash_calculate-SameEnds crc p q s =
    rw (s.version, s.src, s.dst, s.proto, s.sport, s.dport) refl

eq_refl : (n : ℕ) → (n == n) ≡ true
eq_refl n = ground arith

module _ (hash : ℕ) (p : FlowPacket) where
  -- A new flow is hit by its packet.
  new_flow-is_hit :
      (id now : ℕ) (c : FlowConfig) (tcp : Option TcpSession)
      → IsIp p
      → is_hit hash p (new_flow id now hash p c tcp) ≡ true
  unfolding is_hit flow_match same_ends new_flow address_of
  new_flow-is_hit id now c tcp (inl v4) = rw v4 (
      simp (
        eq_refl hash,
        eq_refl p.ip_proto,
        eq_refl p.src_port,
        eq_refl p.dst_port,
        eq_refl (first_word p.src_ip),
        eq_refl (first_word p.dst_ip),
      ))
  new_flow-is_hit id now c tcp (inr v6) = rw v6 (
      simp (
        eq_refl hash,
        eq_refl p.ip_proto,
        eq_refl p.src_port,
        eq_refl p.dst_port,
        same_words_refl p.src_ip,
        same_words_refl p.dst_ip,
      ))

module _ (hash : ℕ) (p q : FlowPacket) (same : (f : Flow) → is_hit hash q f ≡ is_hit hash p f) where
  abbrev pub FoundAgain : Option (Flow × List Flow) → Type 0
  FoundAgain none = Unit
  FoundAgain (some (f, chain)) =
      (rest : List Flow) × (find_flow hash q chain ≡ some (take_reference f, rest))

  behind-again :
      (f : Flow) (o : Option (Flow × List Flow))
      → is_hit hash q f ≡ false
      → FoundAgain o
      → FoundAgain (behind f o)
  unfolding find_flow
  behind-again f none miss h = tt
  behind-again f (some (hit, chain)) miss (rest, e) = (f ∷ rest, rw miss (rw e refl))

  find_flow-again : (chain : List Flow) → FoundAgain (find_flow hash p chain)
  unfolding find_flow is_hit flow_match
  find_flow-again [] = tt
  find_flow-again (f ∷ chain) = elim (Bool-cases (is_hit hash p f)) [
    | inl hit ↦ rw hit (take_reference (take_reference f) ∷ chain, rw (same f ∙ hit) refl)
    | inr miss ↦
        rw miss (behind-again f (find_flow hash p chain) (same f ∙ miss) (find_flow-again chain))
  ]

module _ (alloc grants : ℕ → Bool) where
  abbrev KeepsConfig : FlowTable → Option TcpSession × FlowTable → Type 0
  KeepsConfig t r = (r.1.config ≡ t.config)

  new_session-config : (t : FlowTable) → KeepsConfig t (new_session alloc grants t)
  unfolding new_session
  new_session-config t = elim (Bool-cases (alloc t.callocs)) [
    | inl a ↦ rw a refl
    | inr b ↦ rw b refl
  ]

  session_for-config :
      (p : FlowPacket) (t : FlowTable) → KeepsConfig t (session_for alloc grants p t)
  unfolding session_for
  session_for-config p t = elim (Bool-cases (p.ip_proto == 6)) [
    | inl tcp ↦ rw tcp (new_session-config t)
    | inr other ↦ rw other refl
  ]

  module _ (crc : List ℕ → ℕ) (now later : ℕ) (p q : FlowPacket) (ip : IsIp p)
      (same : (f : Flow) → flow_match f q ≡ flow_match f p)
      (same_hash : flow_hash_calculate crc q ≡ flow_hash_calculate crc p) where
    same_hit : (hash : ℕ) (f : Flow) → is_hit hash q f ≡ is_hit hash p f
    unfolding is_hit
    same_hit hash f = rw (same f) refl

    -- The second packet finds the flow of the first, and none is created.
    abbrev pub Again : Option Flow × FlowTable → Type 0
    Again (none, t) = Unit
    Again (some f, t) =
        (f' : Flow) × ((flow_get alloc grants crc later q t).0 ≡ some f')
        × (f'.id ≡ f.id)
        × ((flow_get alloc grants crc later q t).1.stats ≡ t.stats)

    abbrev index : FlowTable → ℕ
    index t = bit_and (flow_hash_calculate crc p) (t.config.hash_size - 1)

    at_index :
        (f : Flow) (chain : List Flow) (t : FlowTable) (i : ℕ)
        → FoundAgain (flow_hash_calculate crc p) p q (same_hit _) (some (f, chain))
        → i ≡ index t
        → Again (some f, set_bucket i chain t)
    unfolding flow_get set_bucket
    at_index f chain t i (rest, e) at =
        let here : (index t == i) ≡ true = rw at (eq_refl _) in
        rw (same_hash, here, e) (take_reference f, refl, refl, refl)

    create_flow-Again :
        (t : FlowTable)
        → Again (create_flow alloc grants now p (flow_hash_calculate crc p) (index t) t)
    unfolding create_flow insert_flow count_created find_flow set_bucket
    create_flow-Again t = elim (Bool-cases (leb t.config.max_flows t.stats.flows_active)) [
      | inl full ↦ rw full tt
      | inr room ↦ elim (Bool-cases (alloc t.callocs)) [
        | inr failed ↦ rw (room, failed) tt
        | inl fine ↦
            let hash = flow_hash_calculate crc p in
            let (tcp, t₁) = session_for alloc grants p (record t { callocs = t.callocs + 1 }) in
            let f = new_flow t.callocs now hash p t.config tcp in
            let hit = new_flow-is_hit hash p t.callocs now t.config tcp ip in
            rw (room, fine)
              (at_index f (f ∷ t.buckets (index t)) (count_created t₁) (index t)
                (take_reference f ∷ t.buckets (index t), rw (same_hit hash f ∙ hit) refl)
                (rw (session_for-config p (record t { callocs = t.callocs + 1 })) refl))
      ]
    ]

    got-Again :
        (t : FlowTable) (o : Option (Flow × List Flow))
        → FoundAgain (flow_hash_calculate crc p) p q (same_hit _) o
        → Again (got alloc grants now p (flow_hash_calculate crc p) (index t) t o)
    got-Again t none h = create_flow-Again t
    got-Again t (some (f, chain)) h = at_index f chain t (index t) h refl

    get-Again : (t : FlowTable) → Again (flow_get alloc grants crc now p t)
    unfolding flow_get
    get-Again t =
        got-Again t (find_flow (flow_hash_calculate crc p) p (t.buckets (index t)))
          (find_flow-again (flow_hash_calculate crc p) p q (same_hit _) (t.buckets (index t)))

  -- Where `flow_get` gives a flow for an IP packet, and no other thread uses the table before the
  -- next packet with the same ends in the same direction, whatever else that packet has, then it
  -- gives the same flow for the next packet, and creates none.
  pub flow_get-again :
      (crc : List ℕ → ℕ) (now later : ℕ) (p q : FlowPacket) (t t' : FlowTable) (f : Flow)
      → IsIp p
      → SameEnds p q
      → flow_get alloc grants crc now p t ≡ (some f, t')
      → (f' : Flow) × ((flow_get alloc grants crc later q t').0 ≡ some f')
        × (f'.id ≡ f.id)
        × ((flow_get alloc grants crc later q t').1.stats ≡ t'.stats)
  flow_get-again crc now later p q t t' f ip same e = rw e at (
      get-Again crc now later p q ip (λ f. flow_match-SameEnds f p q same)
        (flow_hash_calculate-SameEnds crc p q same) t)
