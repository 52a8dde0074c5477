-- ===== src/Behavior/Exfil/Private.antt =====
-- Private addresses that IS_EXTERNAL_IP takes for external ones.
use dpdk_based_nids.Behavior.Exfil.{is_external_ip}
use dpdk_based_nids.Prelude.{ℕ, ◌+◌, ◌*◌, ◌<◌, ◌≡◌, arith, true}

-- The word of the address a.b.c.d, whose bytes are in the order of the network, on a machine that
-- stores the lowest byte first.
abbrev pub word_of : ℕ → ℕ → ℕ → ℕ → ℕ
word_of a b c d = a + 256 * b + 65536 * c + 16777216 * d

-- Every address of the private network 192.168.0.0/16 counts as external.
pub is_external_ip-private :
    (c d : ℕ) → c < 256 → d < 256 → is_external_ip (word_of 192 168 c d) ≡ true
unfolding is_external_ip
is_external_ip-private c d hc hd = ground arith
