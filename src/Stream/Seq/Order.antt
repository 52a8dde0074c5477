-- ===== src/Stream/Seq/Order.antt =====
-- What serial comparison decides: the order of stream positions less than 2 ^ 31 apart.
use dpdk_based_nids.Prelude.{
  ℕ, Ordering, false, refl, ◌+◌, ◌%◌, ◌^◌, ◌≤◌, ◌<◌, true, ◌≡◌, ◌↔◌, ◌⊎◌, arith, sub32,
}
use dpdk_based_nids.Stream.Seq.{seq_compare, seq_between, is_lt, is_le, is_ge, is_gt}

module _ (p q : ℕ) (near : p < q + 2 ^ 31) (far : q < p + 2 ^ 31) where
  lt_iff : (is_lt (seq_compare (p % 2 ^ 32) (q % 2 ^ 32)) ≡ true) ↔ (p < q)
  unfolding seq_compare
  lt_iff = ((λ e. ground arith), (λ e. ground arith))

  le_iff : (is_le (seq_compare (p % 2 ^ 32) (q % 2 ^ 32)) ≡ true) ↔ (p ≤ q)
  unfolding seq_compare
  le_iff = ((λ e. ground arith), (λ e. ground arith))

  -- For stream positions `p` and `q` less than 2 ^ 31 apart, `seq_compare` on their 32-bit
  -- sequence numbers is below 0 exactly if `p` comes before `q`, and at most 0 exactly if `q`
  -- does not come before `p`, also across the wrap-around.
  pub seq_compare_lem :
      ((is_lt (seq_compare (p % 2 ^ 32) (q % 2 ^ 32)) ≡ true) ↔ (p < q))
      × ((is_le (seq_compare (p % 2 ^ 32) (q % 2 ^ 32)) ≡ true) ↔ (p ≤ q))
  seq_compare_lem = (lt_iff, le_iff)

-- For positions within 2 ^ 31 of each other, `seq_between` decides whether a position lies in
-- the half-open interval.
pub seq_between_lem :
    (p start end : ℕ)
    → start ≤ end
    → end < start + 2 ^ 31
    → p < start + 2 ^ 31
    → end < p + 2 ^ 31
    → (seq_between (p % 2 ^ 32) (start % 2 ^ 32) (end % 2 ^ 32) ≡ true) ↔ ((start ≤ p) × (p < end))
unfolding seq_between
seq_between_lem p start end a b c d = ((λ e. ground arith), (λ e. ground arith))

-- What each outcome says of the difference of two words.
module _ (a b : ℕ) (ha : a < 2 ^ 32) (hb : b < 2 ^ 32) where
  pub gt_bounds : is_gt (seq_compare a b) ≡ true → (0 < sub32 a b) × (sub32 a b < 2 ^ 31)
  unfolding seq_compare
  gt_bounds e = (ground arith, ground arith)

  pub lt_bounds : is_lt (seq_compare a b) ≡ true → 2 ^ 31 ≤ sub32 a b
  unfolding seq_compare
  lt_bounds e = ground arith

  pub ge_bounds : is_ge (seq_compare a b) ≡ true → sub32 a b < 2 ^ 31
  unfolding seq_compare
  ge_bounds e = ground arith

  pub le_bounds : is_le (seq_compare a b) ≡ true → (a ≡ b) ⊎ (2 ^ 31 ≤ sub32 a b)
  unfolding seq_compare
  le_bounds e = ground arith

pub gt_of_not_le : (o : Ordering) → is_le o ≡ false → is_gt o ≡ true
gt_of_not_le Ordering.lt e = cc
gt_of_not_le Ordering.eq e = cc
gt_of_not_le Ordering.gt e = refl
