-- ===== src/Dns/Name/Walk.antt =====
-- The names of a packet, as a walk along its labels and pointers, without the parser's limits.
use dpdk_based_nids.Dns.Name.Writes.{dotted, shown}
use dpdk_based_nids.Dns.Name.{NameResult}
use dpdk_based_nids.Prelude.{
  ℕ, ◌+◌, ◌*◌, ◌%◌, ◌≤◌, ◌<◌, ◌≡◌, Bool, List, [], ◌++◌, none, some, get_elem?, length,
}

module _ (isprint : ℕ → Bool) (mem : List ℕ) (packet_len start : ℕ) where
  -- Where a walk from `start` can stand, behind how many pointers, and what it has spelled.
  pub data Walk : ℕ → ℕ → List ℕ → Type 0 where
    begin : Walk start 0 []
    label :
        (at jumps n : ℕ) (out : List ℕ)
        → Walk at jumps out
        → get_elem? mem at ≡ some n
        → 0 < n
        → n ≤ 63
        → at + 1 + n ≤ packet_len
        → Walk (at + 1 + n) jumps (dotted out ++ shown isprint mem (at + 1) n)
    pointer :
        (at jumps high low : ℕ) (out : List ℕ)
        → Walk at jumps out
        → get_elem? mem at ≡ some high
        → get_elem? mem (at + 1) ≡ some low
        → 192 ≤ high
        → at + 2 ≤ packet_len
        → Walk (high % 64 * 256 + low) (jumps + 1) out

  -- A walk over ten pointers at most has spelled the name and stands at a length of 0.
  pub record Spells (name : List ℕ) : Type 0 where
    pub at : ℕ
    pub jumps : ℕ
    pub walk : Walk at jumps name
    pub few : jumps ≤ 10
    pub terminator : get_elem? mem at ≡ some 0
    pub inside : at < packet_len

  -- A walk over ten pointers at most has spelled 254 bytes at most, and stands at a label of the
  -- packet that makes them more than 256.
  pub record Overlong : Type 0 where
    pub at : ℕ
    pub jumps : ℕ
    pub out : List ℕ
    pub n : ℕ
    pub walk : Walk at jumps out
    pub few : jumps ≤ 10
    pub so_far : length out ≤ 254
    pub size : get_elem? mem at ≡ some n
    pub short : n ≤ 63
    pub inside : at + 1 + n ≤ packet_len
    pub over : 256 < length (dotted out) + n

  -- A name of at most 254 bytes that the packet spells, whose encoding lies within the packet.
  abbrev pub IsName : NameResult → Type 0
  IsName none = Unit
  IsName (some (c, name)) = (0 < c) × (start + c ≤ packet_len) × (length name ≤ 254) × Spells name
