-- ===== src/Dns/Name/Overflow.antt =====
-- Names that `parse_dns_name` writes behind the end of its array.
use dpdk_based_nids.Dns.Name.Writes.{dotted, length_le_dotted, put_dot_lem, copy_label-overflow}
use dpdk_based_nids.Dns.Name.RoundTrip.{
  name_of, IsLabel, Holds, Holds-append, Holds-within, joined, joined-name_of, length_le_joined,
  state, take_label_lem, label_round, name_loop_round,
}
use dpdk_based_nids.Dns.Name.{
  NameState, NameResult, name_fuel, take_label, name_loop, parse_dns_name,
}
use dpdk_based_nids.Prelude.{
  ℕ, zero, suc, ◌+◌, ◌≤◌, ◌<◌, ◌≡◌, refl, ◌∙◌, arith, Bool, false, List, [], ◌∷◌, ◌++◌,
  append_assoc, All, length, length-append, ltb, Run, fault, out_of_bounds,
}

-- The encoding of labels without the length of 0.
unfoldable pub encode_labels : List (List ℕ) → List ℕ
encode_labels [] = []
encode_labels (l ∷ ls) = length l ∷ (l ++ encode_labels ls)

count_le_joined :
    (isprint : ℕ → Bool) (out : List ℕ) (ls : List (List ℕ))
    → All (IsLabel isprint) ls
    → length ls + length out ≤ length (joined out ls)
count_le_joined isprint out [] w = omega arith
count_le_joined isprint out (l ∷ ls) w = omega (
  arith,
  count_le_joined isprint (dotted out ++ l) ls w.1,
  length-append (dotted out) l,
  length_le_dotted out,
  w.0.some_bytes,
)

module _ (isprint : ℕ → Bool) (capacity : ℕ) (mem : List ℕ) (packet_len start : ℕ)
    (wide : 255 ≤ capacity) (held : packet_len ≤ length mem) where
  abbrev at_state : ℕ → List ℕ → NameState
  at_state = state isprint capacity mem packet_len start wide held

  take_label-overflow :
      (rest : NameState → Run NameResult) (at n : ℕ) (out : List ℕ)
      → at + 1 + n ≤ packet_len
      → length out ≤ 254
      → capacity < length (dotted out) + n
      → length (dotted out) ≤ capacity
      → take_label isprint capacity mem packet_len rest n (at_state at out) ≡ fault out_of_bounds
  unfolding take_label
  take_label-overflow rest at n out inside fits over dot =
      let whole : ltb packet_len (at + 1 + n) ≡ false = ground arith in
      rw whole (
        rw (put_dot_lem capacity out (omega arith)) (
          rw
            (copy_label-overflow isprint capacity mem packet_len (at + 1) n (dotted out)
              (omega arith) dot over)
            refl))

  -- One label too many behind the labels `ls`.
  name_loop-overflow :
      (ls : List (List ℕ)) (l : List ℕ) (n at : ℕ) (out : List ℕ)
      → All (IsLabel isprint) ls
      → IsLabel isprint l
      → Holds mem at (encode_labels ls ++ (length l ∷ l))
      → at + length (encode_labels ls ++ (length l ∷ l)) ≤ packet_len
      → length (joined out ls) ≤ 254
      → length (dotted (joined out ls)) ≤ capacity
      → capacity < length (dotted (joined out ls)) + length l
      → length ls < n
      → name_loop isprint capacity mem packet_len start n (at_state at out) ≡ fault out_of_bounds
  unfolding encode_labels
  name_loop-overflow ls l zero at out w v h inside fits dot over fuel = absurd (omega arith)
  name_loop-overflow [] l (suc n) at out w v h inside fits dot over fuel =
      let rest = name_loop isprint capacity mem packet_len start n in
      name_loop_round isprint capacity mem packet_len start wide held n at (length l) out
        (omega arith) h.0
      ∙ label_round isprint capacity mem packet_len start wide held rest l (at_state at out) v
      ∙ take_label-overflow rest at (length l) out (omega arith) fits over dot
  name_loop-overflow (m ∷ ls) l (suc n) at out w v h inside fits dot over fuel =
      let rest = name_loop isprint capacity mem packet_len start n in
      let tail = encode_labels ls ++ (length l ∷ l) in
      let a : (m ++ encode_labels ls) ++ (length l ∷ l) ≡ m ++ tail =
        append_assoc m (encode_labels ls) (length l ∷ l) in
      let k = Holds-append mem (at + 1) m tail (rw a at h.1) in
      let size : length ((m ++ encode_labels ls) ++ (length l ∷ l)) ≡ length m + length tail =
        rw a (length-append m tail) in
      name_loop_round isprint capacity mem packet_len start wide held n at (length m) out
        (omega arith) h.0
      ∙ label_round isprint capacity mem packet_len start wide held rest m (at_state at out) w.0
      ∙ take_label_lem isprint capacity mem packet_len start wide held rest at m out w.0 k.0
          (omega arith) (omega (arith, length_le_joined (dotted out ++ m) ls, fits))
      ∙ name_loop-overflow ls l n (at + 1 + length m) (dotted out ++ m) w.1 v k.1 (omega arith) fits
          dot over (omega arith)

dotted_size : (out : List ℕ) → 0 < length out → length (dotted out) ≡ length out + 1
dotted_size [] pos = absurd (omega arith)
dotted_size (c ∷ out) pos = omega (arith, length-append out (46 ∷ []))

-- A name whose first labels make between 1 and 254 bytes with their dots, and whose next label
-- takes it beyond 256, makes the parser write behind the 256 bytes of its callers' arrays: the
-- length is looked at only when the label has been written.
pub parse_dns_name-overflow :
    (isprint : ℕ → Bool) (pre post l : List ℕ) (ls : List (List ℕ))
    → All (IsLabel isprint) ls
    → IsLabel isprint l
    → 0 < length (name_of ls)
    → length (name_of ls) ≤ 254
    → 256 < length (name_of ls) + 1 + length l
    → let packet = pre ++ ((encode_labels ls ++ (length l ∷ l)) ++ post) in
      parse_dns_name isprint 256 packet (length packet) (length pre) ≡ fault out_of_bounds
unfolding parse_dns_name
parse_dns_name-overflow isprint pre post l ls w v some_name fits over =
    let code = encode_labels ls ++ (length l ∷ l) in
    let packet = pre ++ (code ++ post) in
    let name = joined-name_of isprint ls w in
    let size = length-append pre (code ++ post) in
    let size' = length-append code post in
    let dot = dotted_size (name_of ls) some_name in
    let few : length (joined [] ls) ≤ 254 = rw name fits in
    name_loop-overflow isprint 256 packet (length packet) (length pre) (omega arith) (omega arith)
      ls l name_fuel (length pre) [] w v (Holds-within pre code post) (omega arith) few
      (rw name (omega (arith, dot))) (rw name (omega (arith, dot)))
      (omega (arith, count_le_joined isprint [] ls w, few))
