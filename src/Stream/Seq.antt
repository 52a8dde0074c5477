-- ===== src/Stream/Seq.antt =====
-- Serial numbers: `seq_compare` and `seq_between` of src/stream_reassemble.h.
pub mod Order
use dpdk_based_nids.Prelude.{
  ℕ, ◌+◌, ◌-◌, ◌%◌, ◌^◌, Ordering, Bool, true, false, ◌&&◌, ◌==◌, leb, if◌then◌else◌, sub32,
}

-- -1, 0 and 1 are `lt`, `eq` and `gt`; bit 31 of a word below 2 ^ 32 is set if it is at least
-- 2 ^ 31.
unfoldable pub seq_compare : ℕ → ℕ → Ordering
seq_compare seq1 seq2 =
    if seq1 == seq2
    then Ordering.eq
    else if leb (2 ^ 31) (sub32 seq1 seq2)
    then Ordering.lt
    else Ordering.gt

-- The comparisons of such a result with 0.
abbrev pub is_lt : Ordering → Bool
is_lt Ordering.lt = true
is_lt Ordering.eq = false
is_lt Ordering.gt = false

abbrev pub is_le : Ordering → Bool
is_le Ordering.lt = true
is_le Ordering.eq = true
is_le Ordering.gt = false

abbrev pub is_gt : Ordering → Bool
is_gt Ordering.lt = false
is_gt Ordering.eq = false
is_gt Ordering.gt = true

abbrev pub is_ge : Ordering → Bool
is_ge Ordering.lt = false
is_ge Ordering.eq = true
is_ge Ordering.gt = true

unfoldable pub seq_between : ℕ → ℕ → ℕ → Bool
unfolding seq_compare
seq_between seq start end = is_ge (seq_compare seq start) && is_lt (seq_compare seq end)
