-- ===== src/Flow/Match.antt =====
-- `flow_hash_calculate` and `flow_match` of src/flow.c.
pub mod Symmetric
use dpdk_based_nids.Flow.State.{Flow, FlowPacket}
use dpdk_based_nids.Prelude.{
  ℕ, ◌+◌, ◌*◌, ◌%◌, ◌^◌, Bool, true, false, List, [], ◌∷◌, ◌++◌, ◌==◌, ◌&&◌, ◌||◌, if◌then◌else◌,
}

-- `addr_data32[0]` of an address.
abbrev pub first_word : List ℕ → ℕ
first_word [] = 0
first_word (w ∷ ws) = w

-- `memcmp` of two addresses gives 0.
abbrev pub same_words : List ℕ → List ℕ → Bool
same_words [] [] = true
same_words [] (b ∷ bs) = false
same_words (a ∷ ws) [] = false
same_words (a ∷ ws) (b ∷ bs) = (a == b) && same_words ws bs

-- The words of `data`.
unfoldable pub hash_input : FlowPacket → List ℕ
hash_input p =
    let tail = (p.src_port * 2 ^ 16 + p.dst_port) ∷ p.ip_proto ∷ [] in
    if p.ip_version == 4
    then first_word p.src_ip ∷ first_word p.dst_ip ∷ tail
    else if p.ip_version == 6
    then p.src_ip ++ (p.dst_ip ++ tail)
    else tail

-- `crc` stands for `rte_hash_crc` on words, with the initial value 0.
unfoldable pub flow_hash_calculate : (List ℕ → ℕ) → FlowPacket → ℕ
unfolding hash_input
flow_hash_calculate crc p = crc (hash_input p) % 2 ^ 32

-- The conjunction that both directions evaluate, on the packet's ends in one order or the other.
-- The flag is for comparing the first word of the addresses only.
unfoldable pub same_ends : Bool → Flow → List ℕ → List ℕ → ℕ → ℕ → Bool
same_ends true f src dst src_port dst_port =
    (first_word f.src_addr == first_word src)
    && (first_word f.dst_addr == first_word dst)
    && (f.src_port == src_port)
    && (f.dst_port == dst_port)
same_ends false f src dst src_port dst_port =
    same_words f.src_addr src
    && same_words f.dst_addr dst
    && (f.src_port == src_port)
    && (f.dst_port == dst_port)

abbrev pub matches_ends : Bool → Flow → FlowPacket → Bool
matches_ends first f p =
    same_ends first f p.src_ip p.dst_ip p.src_port p.dst_port
    || same_ends first f p.dst_ip p.src_ip p.dst_port p.src_port

unfoldable pub flow_match : Flow → FlowPacket → Bool
unfolding same_ends
flow_match f p =
    if f.proto == p.ip_proto
    then if f.flags.ipv4 && (if p.ip_version == 4 then false else true)
      then false
      else if f.flags.ipv6 && (if p.ip_version == 6 then false else true)
      then false
      else if p.ip_version == 4
      then matches_ends true f p
      else if p.ip_version == 6
      then matches_ends false f p
      else false
    else false
