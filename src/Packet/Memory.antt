-- ===== src/Packet/Memory.antt =====
-- Reads from the packet's memory.
use dpdk_based_nids.Prelude.{
  ℕ, zero, suc, ap, ◌+◌, ◌*◌, ◌<◌, ◌≡◌, ◌≤◌, refl, arith, List, [], ◌∷◌, Option, none, some,
  get_elem?, length, Run, ok, fault, out_of_bounds, ◌>>=◌,
}

abbrev pub or_fault : Option ℕ → Run ℕ
or_fault none = fault out_of_bounds
or_fault (some b) = ok b

-- The byte at an offset from the start of the packet. Behind the end of the memory the read is
-- undefined behaviour.
unfoldable pub read8 : List ℕ → ℕ → Run ℕ
read8 mem at = or_fault (get_elem? mem at)

-- `rte_be_to_cpu_16` of the two bytes there.
unfoldable pub read_be16 : List ℕ → ℕ → Run ℕ
unfolding read8
read_be16 mem at = do hi ← read8 mem at; lo ← read8 mem (at + 1); ok (hi * 256 + lo)

-- Within the memory a read has a value.
pub get_elem?-lt : (mem : List ℕ) (at : ℕ) → at < length mem → (b : ℕ) × (get_elem? mem at ≡ some b)
get_elem?-lt [] at h = absurd (omega arith)
get_elem?-lt (x ∷ mem) zero h = (x, refl)
get_elem?-lt (x ∷ mem) (suc at) h = get_elem?-lt mem at (omega arith)

pub get_elem?-ge : (mem : List ℕ) (at : ℕ) → length mem ≤ at → get_elem? mem at ≡ none
get_elem?-ge [] at h = refl
get_elem?-ge (x ∷ mem) zero h = absurd (omega arith)
get_elem?-ge (x ∷ mem) (suc at) h = get_elem?-ge mem at (omega arith)

pub read8-lt : (mem : List ℕ) (at : ℕ) → at < length mem → (b : ℕ) × (read8 mem at ≡ ok b)
unfolding read8
read8-lt mem at h = let (b, e) = get_elem?-lt mem at h in (b, ap or_fault e)

pub read_be16-lt :
    (mem : List ℕ) (at : ℕ) → at + 1 < length mem → (w : ℕ) × (read_be16 mem at ≡ ok w)
unfolding read_be16
read_be16-lt mem at h =
    let (hi, e) = get_elem?-lt mem at (omega arith) in
    let (lo, f) = get_elem?-lt mem (at + 1) h in
    (hi * 256 + lo, rw (e, or_fault) (rw (f, or_fault) refl))

pub read_be16-ge :
    (mem : List ℕ) (at : ℕ) → length mem ≤ at → read_be16 mem at ≡ fault out_of_bounds
unfolding read_be16
read_be16-ge mem at h = rw (get_elem?-ge mem at h) refl
