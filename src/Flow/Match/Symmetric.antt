-- ===== src/Flow/Match/Symmetric.antt =====
-- Matching of a packet in both directions.
use dpdk_based_nids.Flow.Match.{same_words, same_ends, matches_ends, flow_match}
use dpdk_based_nids.Flow.State.{Flow, FlowPacket}
use dpdk_based_nids.Prelude.{ℕ, ◌≡◌, refl, arith, Bool, true, false, List, [], ◌∷◌, ◌||◌}

-- The same packet in the other direction.
abbrev pub reversed : FlowPacket → FlowPacket
reversed p = record p {
  src_ip = p.dst_ip;
  dst_ip = p.src_ip;
  src_port = p.dst_port;
  dst_port = p.src_port;
}

or_comm : (a b : Bool) → (a || b) ≡ (b || a)
or_comm true true = refl
or_comm true false = refl
or_comm false true = refl
or_comm false false = refl

matches_ends-reversed :
    (first : Bool) (f : Flow) (p : FlowPacket)
    → matches_ends first f (reversed p) ≡ matches_ends first f p
matches_ends-reversed first f p =
    or_comm (same_ends first f p.dst_ip p.src_ip p.dst_port p.src_port)
      (same_ends first f p.src_ip p.dst_ip p.src_port p.dst_port)

-- A flow matches a packet exactly if it matches the packet with its two ends exchanged, for both
-- IP versions.
pub flow_match-reversed : (f : Flow) (p : FlowPacket) → flow_match f (reversed p) ≡ flow_match f p
unfolding flow_match
flow_match-reversed f p = rw (matches_ends-reversed true f p, matches_ends-reversed false f p) refl

pub same_words_refl : (ws : List ℕ) → same_words ws ws ≡ true
same_words_refl [] = refl
same_words_refl (w ∷ ws) = ground (arith, same_words_refl ws)
