-- ===== src/Dns/Name/Writes.antt =====
-- What `parse_dns_name` writes for the dot and the bytes of a label.
use dpdk_based_nids.Dns.Name.{printable, put_char, put_dot, copy_label}
use dpdk_based_nids.Packet.Memory.{read8, get_elem?-lt}
use dpdk_based_nids.Prelude.{
  ℕ, zero, suc, ◌+◌, ◌≤◌, ◌<◌, ◌≡◌, refl, sym, ap, ◌∙◌, arith, inl, inr, Bool, true, Bool-cases,
  List, [], ◌∷◌, ◌++◌, append_assoc, append-nil, Option, none, some, get_elem?, length,
  length-append, ltb, ok, fault, out_of_bounds,
}

-- The bytes so far with the dot before the next label.
abbrev pub dotted : List ℕ → List ℕ
dotted [] = []
dotted (c ∷ out) = c ∷ out ++ (46 ∷ [])

abbrev byte_of : Option ℕ → ℕ
byte_of none = 0
byte_of (some b) = b

-- What is written for the `n` bytes from `at` on.
unfoldable pub shown : (ℕ → Bool) → List ℕ → ℕ → ℕ → List ℕ
shown isprint mem at zero = []
shown isprint mem at (suc n) =
    printable isprint (byte_of (get_elem? mem at)) ∷ shown isprint mem (at + 1) n

pub length-shown :
    (isprint : ℕ → Bool) (mem : List ℕ) (at n : ℕ) → length (shown isprint mem at n) ≡ n
unfolding shown
length-shown isprint mem at zero = refl
length-shown isprint mem at (suc n) = ap suc (length-shown isprint mem (at + 1) n)

pub length-dotted : (out : List ℕ) → length (dotted out) ≤ length out + 1
length-dotted [] = omega arith
length-dotted (c ∷ out) = omega (arith, length-append out (46 ∷ []))

pub length_le_dotted : (out : List ℕ) → length out ≤ length (dotted out)
length_le_dotted [] = omega arith
length_le_dotted (c ∷ out) = omega (arith, length-append out (46 ∷ []))

module _ (capacity : ℕ) where
  pub put_char_lem :
      (out : List ℕ) (c : ℕ)
      → length out < capacity
      → put_char capacity out c ≡ ok (out ++ (c ∷ []))
  unfolding put_char
  put_char_lem out c lt = let room : ltb (length out) capacity ≡ true = ground arith in rw room refl

  pub put_dot_lem : (out : List ℕ) → length out < capacity → put_dot capacity out ≡ ok (dotted out)
  put_dot_lem [] lt = refl
  put_dot_lem (c ∷ out) lt = put_char_lem (c ∷ out) 46 lt

module _ (isprint : ℕ → Bool) (capacity : ℕ) (mem : List ℕ) (packet_len : ℕ) where
  pub copy_label_lem :
      (at n : ℕ) (out : List ℕ)
      → at + n ≤ length mem
      → length out + n ≤ capacity
      → copy_label isprint capacity mem packet_len at n out ≡ ok (out ++ shown isprint mem at n)
  unfolding copy_label shown read8
  copy_label_lem at zero out le room = ap ok (sym (append-nil out))
  copy_label_lem at (suc n) out le room =
      let (b, e) = get_elem?-lt mem at (omega arith) in
      let c = printable isprint b in
      rw e (
        rw (put_char_lem capacity out c (omega arith)) (
          copy_label_lem (at + 1) n (out ++ (c ∷ [])) (omega arith)
            (omega (arith, length-append out (c ∷ [])))
          ∙ ap ok (append_assoc out (c ∷ []) (shown isprint mem (at + 1) n))))

  pub copy_label-overflow :
      (at n : ℕ) (out : List ℕ)
      → at + n ≤ length mem
      → length out ≤ capacity
      → capacity < length out + n
      → copy_label isprint capacity mem packet_len at n out ≡ fault out_of_bounds
  unfolding copy_label read8 put_char
  copy_label-overflow at zero out le fits over = absurd (omega arith)
  copy_label-overflow at (suc n) out le fits over =
      let (b, e) = get_elem?-lt mem at (omega arith) in
      let c = printable isprint b in
      elim (Bool-cases (ltb (length out) capacity)) [
        | inr full ↦ rw e (rw full refl)
        | inl room ↦
            let size = length-append out (c ∷ []) in
            rw e (
              rw room (
                copy_label-overflow (at + 1) n (out ++ (c ∷ [])) (omega arith) (ground arith)
                  (omega arith)))
      ]
