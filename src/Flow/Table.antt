-- ===== src/Flow/Table.antt =====
-- The flow table of src/flow.c: `flow_init`, `flow_get`, `flow_free`, `flow_cleanup_expired`,
-- `flow_cleanup`, `flow_get_stats`.
pub mod Lookup
pub mod Expiry
pub mod Count
pub mod Workers
use Prim.Native.Nat.{bit_and}
use dpdk_based_nids.Flow.Match.{first_word, flow_hash_calculate, flow_match}
use dpdk_based_nids.Flow.State.{
  tcp_none, TcpSession, FlowFlags, Flow, FlowPacket, FlowConfig, FlowStats, FlowTable,
}
use dpdk_based_nids.Prelude.{
  ℕ, zero, suc, ◌+◌, ◌-◌, ◌*◌, ◌%◌, ◌^◌, Bool, true, false, not, List, [], ◌∷◌, Option, none, some,
  ltb, leb, ◌==◌, ◌&&◌, ◌||◌, if◌then◌else◌, add64, sub64, sub32, to_u16,
}
use dpdk_based_nids.Stream.Buffer.{stream_buffer_free}
use dpdk_based_nids.Stream.Segment.{rte_malloc}
use dpdk_based_nids.Stream.State.{StreamBuffer, Reassembler, zeroed}

abbrev pub no_stats : FlowStats
no_stats = record { flows_created = 0; flows_removed = 0; flows_timeout = 0; flows_active = 0 }

abbrev pub config_of : ℕ → ℕ → FlowConfig
config_of hash_size max_flows = record {
  hash_size = hash_size;
  max_flows = max_flows;
  timeout_new = 30;
  timeout_est = 3600;
  flow_memcap = 512 * 1024 * 1024;
}

-- `alloc n` says whether the n-th call of `calloc` returns memory. The second part is true for the
-- return value 0; with -1 for want of memory the configuration is set all the same.
unfoldable pub flow_init : (ℕ → Bool) → ℕ → ℕ → FlowTable → FlowTable × Bool
flow_init alloc hash_size max_flows t =
    if (hash_size == 0) || not (bit_and hash_size (hash_size - 1) == 0)
    then (t, false)
    else (let t₁ = record t {
      config = config_of hash_size max_flows;
      stats = no_stats;
      callocs = t.callocs + 1;
    } in
        if alloc t.callocs
        then (record t₁ { live = true; buckets = λ i. [] }, true)
        else (record t₁ { live = false; buckets = λ i. [] }, false))

-- One more user, in 16 bits.
abbrev pub take_reference : Flow → Flow
take_reference f = record f { use_cnt = to_u16 (f.use_cnt + 1) }

-- A hit behind other flows of the chain.
abbrev pub behind : Flow → Option (Flow × List Flow) → Option (Flow × List Flow)
behind f none = none
behind f (some (hit, rest)) = some (hit, f ∷ rest)

unfoldable pub is_hit : ℕ → FlowPacket → Flow → Bool
is_hit hash p f = (f.flow_hash == hash) && flow_match f p

-- The search along the chain: the flow found and the chain with its new reference.
unfoldable pub find_flow : ℕ → FlowPacket → List Flow → Option (Flow × List Flow)
find_flow hash p [] = none
find_flow hash p (f ∷ rest) =
    if is_hit hash p f
    then some (take_reference f, take_reference f ∷ rest)
    else behind f (find_flow hash p rest)

-- The addresses of a new flow: four words, all 0 before they are set.
unfoldable pub address_of : ℕ → List ℕ → List ℕ
address_of version ip =
    if version == 4
    then first_word ip ∷ 0 ∷ 0 ∷ 0 ∷ []
    else if version == 6
    then ip
    else 0 ∷ 0 ∷ 0 ∷ 0 ∷ []

abbrev pub allocate_zeroed : Bool → Option StreamBuffer
allocate_zeroed true = some zeroed
allocate_zeroed false = none

unfoldable pub set_bucket : ℕ → List Flow → FlowTable → FlowTable
set_bucket i chain t = record t { buckets = λ j. if j == i then chain else t.buckets j }

unfoldable pub new_flow : ℕ → ℕ → ℕ → FlowPacket → FlowConfig → Option TcpSession → Flow
new_flow id now hash p c tcp = record {
  id = id;
  src_addr = address_of p.ip_version p.src_ip;
  dst_addr = address_of p.ip_version p.dst_ip;
  src_port = p.src_port;
  dst_port = p.dst_port;
  proto = p.ip_proto;
  flags = record {
    ipv4 = p.ip_version == 4;
    ipv6 = p.ip_version == 6;
    to_src_seen = false;
    to_dst_seen = false;
  };
  flow_hash = hash;
  start_ts = now;
  last_ts = now;
  timeout_policy = c.timeout_new;
  tcp = tcp;
  toserver_pkt_cnt = 0;
  toclient_pkt_cnt = 0;
  toserver_byte_cnt = 0;
  toclient_byte_cnt = 0;
  use_cnt = 1;
}

unfoldable pub count_created : FlowTable → FlowTable
count_created t = record t {
  stats = record (t.stats) {
    flows_created = add64 t.stats.flows_created 1;
    flows_active = add64 t.stats.flows_active 1;
  };
}

module _ (alloc grants : ℕ → Bool) where
  -- The session of a new flow and its two buffers, each of which may fail.
  unfoldable pub new_session : FlowTable → Option TcpSession × FlowTable
  unfolding rte_malloc
  new_session t =
      let t₁ = record t { callocs = t.callocs + 1 } in
      let (up, g₁) = rte_malloc grants t.reassembler in
      let (down, g₂) = rte_malloc grants g₁ in
      if alloc t.callocs
      then (
        some (record {
          state = tcp_none;
          seg_cnt = 0;
          byte_cnt = 0;
          toserver_sb = allocate_zeroed up;
          toclient_sb = allocate_zeroed down;
        }),
        record t₁ { reassembler = g₂ },
      )
      else (none, t₁)

  -- The session is allocated for TCP only.
  unfoldable pub session_for : FlowPacket → FlowTable → Option TcpSession × FlowTable
  session_for p t = if p.ip_proto == 6 then new_session t else (none, t)

  -- What follows the test of the limit: a new flow at index `i`.
  unfoldable pub insert_flow : ℕ → FlowPacket → ℕ → ℕ → FlowTable → Option Flow × FlowTable
  insert_flow now p hash i t =
      if alloc t.callocs
      then (let (tcp, t₁) = session_for p (record t { callocs = t.callocs + 1 }) in
          let f = new_flow t.callocs now hash p t.config tcp in
          (some f, count_created (set_bucket i (f ∷ t.buckets i) t₁)))
      else (none, record t { callocs = t.callocs + 1 })

  -- The branch for a new flow.
  unfoldable pub create_flow : ℕ → FlowPacket → ℕ → ℕ → FlowTable → Option Flow × FlowTable
  create_flow now p hash i t =
      if leb t.config.max_flows t.stats.flows_active then (none, t) else insert_flow now p hash i t

  abbrev pub got :
      ℕ → FlowPacket → ℕ → ℕ → FlowTable → Option (Flow × List Flow) → Option Flow × FlowTable
  got now p hash i t none = create_flow now p hash i t
  got now p hash i t (some (f, chain)) = (some f, set_bucket i chain t)

  -- `none` is NULL. The table is allocated here.
  unfoldable pub flow_get : (List ℕ → ℕ) → ℕ → FlowPacket → FlowTable → Option Flow × FlowTable
  flow_get crc now p t =
      let hash = flow_hash_calculate crc p in
      let i = bit_and hash (t.config.hash_size - 1) in
      got now p hash i t (find_flow hash p (t.buckets i))

-- `stream_buffer_free` of the buffers that are there; the parsers of the application layer are
-- not part of the model.
abbrev pub free_buffer : Option StreamBuffer → Reassembler → Reassembler
free_buffer none g = g
free_buffer (some sb) g = (stream_buffer_free sb g).1

abbrev pub free_session : Option TcpSession → Reassembler → Reassembler
free_session none g = g
free_session (some s) g = free_buffer s.toclient_sb (free_buffer s.toserver_sb g)

unfoldable pub flow_free : Flow → Reassembler → Reassembler
flow_free f g = if f.proto == 6 then free_session f.tcp g else g

-- `age` is the difference of two times in seconds, cut to 32 bits.
unfoldable pub is_expired : ℕ → Flow → Bool
is_expired now f =
    (f.use_cnt == 0) && ltb f.timeout_policy (sub32 (now % 2 ^ 32) (f.last_ts % 2 ^ 32))

-- `removed`, the statistics and the reassembly's state along the sweep.
pub record Sweep : Type 0 where
  pub removed : ℕ
  pub stats : FlowStats
  pub reassembler : Reassembler

unfoldable pub remove_flow : Flow → Sweep → Sweep
remove_flow f w = record {
  removed = w.removed + 1;
  stats = record (w.stats) {
    flows_removed = add64 w.stats.flows_removed 1;
    flows_timeout = add64 w.stats.flows_timeout 1;
    flows_active = sub64 w.stats.flows_active 1;
  };
  reassembler = flow_free f w.reassembler;
}

abbrev pub sweep_flow : Bool → Flow → (Sweep → List Flow × Sweep) → Sweep → List Flow × Sweep
sweep_flow true f rest w = rest (remove_flow f w)
sweep_flow false f rest w = let (kept, w') = rest w in (f ∷ kept, w')

unfoldable pub sweep_chain : ℕ → List Flow → Sweep → List Flow × Sweep
sweep_chain now [] w = ([], w)
sweep_chain now (f ∷ rest) w = sweep_flow (is_expired now f) f (sweep_chain now rest) w

-- The loop over the `n` buckets from index `i` on.
unfoldable pub sweep_from : ℕ → ℕ → ℕ → FlowTable → Sweep → FlowTable × Sweep
sweep_from now zero i t w = (t, w)
sweep_from now (suc n) i t w =
    let (chain, w') = sweep_chain now (t.buckets i) w in
    sweep_from now n (i + 1) (set_bucket i chain t) w'

abbrev pub first_sweep : FlowTable → Sweep
first_sweep t = record { removed = 0; stats = t.stats; reassembler = t.reassembler }

abbrev pub after_sweep : FlowTable × Sweep → ℕ × FlowTable
after_sweep (t, w) = (w.removed, record t { stats = w.stats; reassembler = w.reassembler })

-- The number of flows removed, and the table.
unfoldable pub flow_cleanup_expired : ℕ → FlowTable → ℕ × FlowTable
flow_cleanup_expired now t =
    if t.live then after_sweep (sweep_from now t.config.hash_size 0 t (first_sweep t)) else (0, t)

-- `flow_cleanup` frees every flow of every bucket, and the statistics stay.
unfoldable pub free_chain : List Flow → Reassembler → Reassembler
free_chain [] g = g
free_chain (f ∷ rest) g = free_chain rest (flow_free f g)

unfoldable pub free_from : ℕ → ℕ → (ℕ → List Flow) → Reassembler → Reassembler
free_from zero i buckets g = g
free_from (suc n) i buckets g = free_from n (i + 1) buckets (free_chain (buckets i) g)

unfoldable pub flow_cleanup : FlowTable → FlowTable
flow_cleanup t =
    if t.live
    then record t {
      live = false;
      buckets = λ i. [];
      reassembler = free_from t.config.hash_size 0 t.buckets t.reassembler;
    }
    else t

abbrev pub flow_get_stats : FlowTable → FlowStats
flow_get_stats t = t.stats
