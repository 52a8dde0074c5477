-- ===== src/Dns/Name/RoundTrip.antt =====
-- Names without compression: `parse_dns_name` reads back what an encoder writes.
use dpdk_based_nids.Dns.Name.Writes.{dotted, length_le_dotted, shown, put_dot_lem, copy_label_lem}
use dpdk_based_nids.Dns.Name.{
  NameState, NameResult, name_fuel, printable, take_label, end_name, name_round, name_loop,
  parse_dns_name,
}
use dpdk_based_nids.Packet.Frames.{get_elem?-append}
use dpdk_based_nids.Packet.Memory.{read8}
use dpdk_based_nids.Prelude.{
  ℕ, zero, suc, ◌+◌, ◌-◌, ◌≤◌, ◌<◌, ◌≡◌, refl, sym, ap, ◌∙◌, arith, Bool, true, false, List, [],
  ◌∷◌, ◌++◌, append_assoc, append-nil, none, some, get_elem?, All, length, length-append, ltb, leb,
  ◌==◌, Run, ok,
}

-- The encoding of a name: each label behind its length, and a length of 0.
unfoldable pub encode_name : List (List ℕ) → List ℕ
encode_name [] = 0 ∷ []
encode_name (l ∷ ls) = length l ∷ (l ++ encode_name ls)

-- The labels with dots between them.
unfoldable pub tail_labels : List (List ℕ) → List ℕ
tail_labels [] = []
tail_labels (l ∷ ls) = 46 ∷ (l ++ tail_labels ls)

unfoldable pub name_of : List (List ℕ) → List ℕ
unfolding tail_labels
name_of [] = []
name_of (l ∷ ls) = l ++ tail_labels ls

-- A label of 1 to 63 bytes that are printed as they are.
pub record IsLabel (isprint : ℕ → Bool) (l : List ℕ) : Type 0 where
  pub some_bytes : 0 < length l
  pub short : length l ≤ 63
  pub plain : All (λ b. printable isprint b ≡ b) l

-- The memory has these bytes at an offset.
abbrev pub Holds : List ℕ → ℕ → List ℕ → Type 0
Holds mem at [] = Unit
Holds mem at (b ∷ bs) = (get_elem? mem at ≡ some b) × Holds mem (at + 1) bs

pub Holds-append :
    (mem : List ℕ) (at : ℕ) (xs ys : List ℕ)
    → Holds mem at (xs ++ ys)
    → Holds mem at xs × Holds mem (at + length xs) ys
Holds-append mem at [] ys h = let e : at + 0 ≡ at = omega arith in (tt, rw e h)
Holds-append mem at (x ∷ xs) ys h =
    let k = Holds-append mem (at + 1) xs ys h.1 in
    let e : at + suc (length xs) ≡ at + 1 + length xs = omega arith in ((h.0, k.0), rw e k.1)

pub Holds-within : (pre bs post : List ℕ) → Holds (pre ++ (bs ++ post)) (length pre) bs
Holds-within pre [] post = tt
Holds-within pre (b ∷ bs) post =
    let e : length (pre ++ (b ∷ [])) ≡ length pre + 1 = length-append pre (b ∷ []) in
    let k = Holds-within (pre ++ (b ∷ [])) bs post in
    let a : (pre ++ (b ∷ [])) ++ (bs ++ post) ≡ pre ++ (b ∷ (bs ++ post)) =
      append_assoc pre (b ∷ []) (bs ++ post) in
    (get_elem?-append pre (b ∷ (bs ++ post)) (length pre) 0 (omega arith), rw e at (rw a at k))

shown-plain :
    (isprint : ℕ → Bool) (mem : List ℕ) (at : ℕ) (l : List ℕ)
    → Holds mem at l
    → All (λ b. printable isprint b ≡ b) l
    → shown isprint mem at (length l) ≡ l
unfolding shown
shown-plain isprint mem at [] h p = refl
shown-plain isprint mem at (b ∷ l) h p =
    rw (h.0) (rw (p.0, shown-plain isprint mem (at + 1) l h.1 p.1) refl)

-- What has been written after further labels.
abbrev pub joined : List ℕ → List (List ℕ) → List ℕ
joined out [] = out
joined out (l ∷ ls) = joined (dotted out ++ l) ls

joined-tail_labels :
    (c : ℕ) (out : List ℕ) (ls : List (List ℕ)) → joined (c ∷ out) ls ≡ c ∷ out ++ tail_labels ls
unfolding tail_labels
joined-tail_labels c out [] = sym (append-nil (c ∷ out))
joined-tail_labels c out (l ∷ ls) =
    joined-tail_labels c ((out ++ (46 ∷ [])) ++ l) ls
    ∙ ap (λ xs. c ∷ xs)
        (append_assoc (out ++ (46 ∷ [])) l (tail_labels ls)
          ∙ append_assoc out (46 ∷ []) (l ++ tail_labels ls))

pub joined-name_of :
    (isprint : ℕ → Bool) (ls : List (List ℕ)) → All (IsLabel isprint) ls → joined [] ls ≡ name_of ls
unfolding name_of
joined-name_of isprint [] h = refl
joined-name_of isprint ([] ∷ ls) h = absurd (omega (arith, h.0.some_bytes))
joined-name_of isprint ((c ∷ l) ∷ ls) h = joined-tail_labels c l ls

pub length_le_joined : (out : List ℕ) (ls : List (List ℕ)) → length out ≤ length (joined out ls)
length_le_joined out [] = omega arith
length_le_joined out (l ∷ ls) = omega (
  arith,
  length_le_joined (dotted out ++ l) ls,
  length-append (dotted out) l,
  length_le_dotted out,
)

module _ (isprint : ℕ → Bool) (capacity : ℕ) (mem : List ℕ) (packet_len start : ℕ)
    (wide : 255 ≤ capacity) (held : packet_len ≤ length mem) where
  abbrev pub state : ℕ → List ℕ → NameState
  state at out = record { at = at; out = out; jumps = 0; consumed = none }

  pub take_label_lem :
      (rest : NameState → Run NameResult) (at : ℕ) (l out : List ℕ)
      → IsLabel isprint l
      → Holds mem (at + 1) l
      → at + 1 + length l ≤ packet_len
      → length (dotted out ++ l) ≤ 254
      → take_label isprint capacity mem packet_len rest (length l) (state at out)
        ≡ rest (state (at + 1 + length l) (dotted out ++ l))
  unfolding take_label
  take_label_lem rest at l out w h inside fits =
      let size = length-append (dotted out) l in
      let whole : ltb packet_len (at + 1 + length l) ≡ false = ground arith in
      let short : ltb 254 (length (dotted out ++ l)) ≡ false = ground arith in
      let d = put_dot_lem capacity out (omega (arith, length_le_dotted out, w.some_bytes)) in
      let c =
        copy_label_lem isprint capacity mem packet_len (at + 1) (length l) (dotted out)
          (omega arith) (omega arith) in
      rw whole (rw d (rw c (rw (shown-plain isprint mem (at + 1) l h w.plain) (rw short refl))))

  end_name_lem :
      (at : ℕ) (out : List ℕ)
      → length out ≤ 254
      → start ≤ at
      → end_name isprint capacity mem packet_len start (state at out)
        ≡ ok (some (at + 1 - start, out))
  unfolding end_name
  end_name_lem at out fits le =
      let room : ltb (length out) capacity ≡ true = ground arith in
      let here : at - start + 1 ≡ at + 1 - start = omega arith in rw room (rw here refl)

  pub label_round :
      (rest : NameState → Run NameResult) (l : List ℕ) (s : NameState)
      → IsLabel isprint l
      → name_round isprint capacity mem packet_len start rest (length l) s
        ≡ take_label isprint capacity mem packet_len rest (length l) s
  unfolding name_round
  label_round rest l s w =
      let label : leb 192 (length l) ≡ false = ground (arith, w.short) in
      let more : (length l == 0) ≡ false = ground (arith, w.some_bytes) in
      let short : ltb 63 (length l) ≡ false = ground (arith, w.short) in
      rw label (rw more (rw short refl))

  pub name_loop_round :
      (n at b : ℕ) (out : List ℕ)
      → at < packet_len
      → get_elem? mem at ≡ some b
      → name_loop isprint capacity mem packet_len start (suc n) (state at out)
        ≡ name_round isprint capacity mem packet_len start
            (name_loop isprint capacity mem packet_len start n)
            b
            (state at out)
  unfolding name_loop read8
  name_loop_round n at b out lt e =
      let more : leb packet_len at ≡ false = ground arith in rw more (rw e refl)

  name_loop_lem :
      (ls : List (List ℕ)) (n at : ℕ) (out : List ℕ)
      → All (IsLabel isprint) ls
      → Holds mem at (encode_name ls)
      → at + length (encode_name ls) ≤ packet_len
      → length (joined out ls) ≤ 254
      → 256 ≤ n + length out
      → start ≤ at
      → name_loop isprint capacity mem packet_len start n (state at out)
        ≡ ok (some (at + length (encode_name ls) - start, joined out ls))
  unfolding encode_name
  name_loop_lem ls zero at out w h inside fits fuel le =
      absurd (omega (arith, length_le_joined out ls))
  name_loop_lem [] (suc n) at out w h inside fits fuel le =
      name_loop_round n at 0 out (omega arith) h.0
      ∙ (unfold name_round in end_name_lem at out fits le)
  name_loop_lem (l ∷ ls) (suc n) at out w h inside fits fuel le =
      let size : length (l ++ encode_name ls) ≡ length l + length (encode_name ls) =
        length-append l (encode_name ls) in
      let k = Holds-append mem (at + 1) l (encode_name ls) h.1 in
      let grown = length-append (dotted out) l in
      let end : at + 1 + length l + length (encode_name ls)
          ≡ at + suc (length (l ++ encode_name ls)) =
        omega arith in
      let rest = name_loop isprint capacity mem packet_len start n in
      name_loop_round n at (length l) out (omega arith) h.0
      ∙ label_round rest l (state at out) w.0
      ∙ take_label_lem rest at l out w.0 k.0 (omega arith)
          (omega (arith, length_le_joined (dotted out ++ l) ls, fits))
      ∙ rw end at (
          name_loop_lem ls n (at + 1 + length l) (dotted out ++ l) w.1 k.1 (omega arith) fits
            (omega (arith, length_le_dotted out, w.0.some_bytes)) (omega arith))

-- A name of labels of 1 to 63 printed bytes, at most 254 bytes long with its dots, is read back
-- from its encoding anywhere in a packet: the parser consumes exactly the encoding, and gives the
-- labels with dots between them. Room for 255 bytes is enough.
pub parse_dns_name-encode_name :
    (isprint : ℕ → Bool) (capacity : ℕ) (pre post : List ℕ) (ls : List (List ℕ))
    → All (IsLabel isprint) ls
    → length (name_of ls) ≤ 254
    → 255 ≤ capacity
    → let packet = pre ++ (encode_name ls ++ post) in
      parse_dns_name isprint capacity packet (length packet) (length pre)
      ≡ ok (some (length (encode_name ls), name_of ls))
unfolding parse_dns_name
parse_dns_name-encode_name isprint capacity pre post ls w fits wide =
    let packet = pre ++ (encode_name ls ++ post) in
    let size = length-append pre (encode_name ls ++ post) in
    let size' = length-append (encode_name ls) post in
    let name = joined-name_of isprint ls w in
    let run =
      name_loop_lem isprint capacity packet (length packet) (length pre) wide (omega arith) ls
        name_fuel (length pre) [] w (Holds-within pre (encode_name ls) post) (omega arith)
        (rw name fits) (omega arith) (omega arith) in
    let used : length pre + length (encode_name ls) - length pre ≡ length (encode_name ls) =
      omega arith in
    run ∙ rw (used, name) refl
