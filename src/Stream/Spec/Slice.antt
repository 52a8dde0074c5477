-- ===== src/Stream/Spec/Slice.antt =====
-- The sender's stream as a function from 32-bit sequence numbers to bytes, and runs of it.
use dpdk_based_nids.Prelude.{
  ℕ, zero, suc, ◌+◌, ◌%◌, ◌^◌, ◌≤◌, ◌≡◌, refl, ap, ◌∙◌, arith, List, [], ◌∷◌, ◌++◌, length, take,
  drop,
}

-- The `n` bytes from position `p` on.
abbrev pub slice : (ℕ → ℕ) → ℕ → ℕ → List ℕ
slice s p zero = []
slice s p (suc n) = s (p % 2 ^ 32) ∷ slice s (p + 1) n

module _ (s : ℕ → ℕ) where
  pub length-slice : (p n : ℕ) → length (slice s p n) ≡ n
  length-slice p zero = refl
  length-slice p (suc n) = ap suc (length-slice (p + 1) n)

  pub slice_congr : (p q n : ℕ) → p % 2 ^ 32 ≡ q % 2 ^ 32 → slice s p n ≡ slice s q n
  slice_congr p q zero e = refl
  slice_congr p q (suc n) e = rw e (rw (slice_congr (p + 1) (q + 1) n (omega arith)))

  pub slice-append :
      (p q n m : ℕ) → q % 2 ^ 32 ≡ (p + n) % 2 ^ 32 → slice s p n ++ slice s q m ≡ slice s p (n + m)
  slice-append p q zero m e =
      slice_congr q p m (omega arith) ∙ (let k : m ≡ 0 + m = omega arith in ap (slice s p) k)
  slice-append p q (suc n) m e =
      rw (slice-append (p + 1) q n m (omega arith))
        (let k : suc (n + m) ≡ suc n + m = omega arith in ap (slice s p) k)

  pub take-slice : (k n p : ℕ) → k ≤ n → take k (slice s p n) ≡ slice s p k
  take-slice zero n p h = refl
  take-slice (suc k) zero p h = absurd (omega arith)
  take-slice (suc k) (suc n) p h = ap (◌∷◌ (s (p % 2 ^ 32))) (take-slice k n (p + 1) (omega arith))

  pub drop-slice : (k m n p : ℕ) → k + m ≡ n → drop k (slice s p n) ≡ slice s (p + k) m
  drop-slice zero m n p h =
      let e : n ≡ m = omega arith in ap (slice s p) e ∙ slice_congr p (p + 0) m (omega arith)
  drop-slice (suc k) m zero p h = absurd (omega arith)
  drop-slice (suc k) m (suc n) p h =
      drop-slice k m n (p + 1) (omega arith) ∙ slice_congr _ _ m (omega arith)
