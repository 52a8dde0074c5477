-- ===== src/Dns/Name/Bounds.antt =====
-- `parse_dns_name` ends within its rounds, reads only the packet, and gives a name that the packet
-- spells, or writes behind its array.
use dpdk_based_nids.Dns.Name.Walk.{Walk, begin, label, pointer, Overlong, IsName}
use dpdk_based_nids.Dns.Name.Writes.{
  dotted, shown, length-shown, length-dotted, length_le_dotted, put_dot_lem, copy_label_lem,
  copy_label-overflow,
}
use dpdk_based_nids.Dns.Name.{
  NameState, NameResult, first_of, name_fuel, name_size, follow_pointer, end_name, take_label,
  name_round, name_loop, parse_dns_name,
}
use dpdk_based_nids.Packet.Memory.{read8, get_elem?-lt}
use dpdk_based_nids.Prelude.{
  ℕ, zero, suc, ◌+◌, ◌-◌, ◌*◌, ◌%◌, ◌≤◌, ◌<◌, ◌≡◌, ◌⊎◌, arith, inl, inr, Bool, true, false,
  Bool-cases, List, [], ◌++◌, Option, none, some, get_elem?, length, length-append, ltb, leb, ◌==◌,
  ◌||◌, Run, ok, fault, out_of_bounds, EnsuresUnless, EnsuresUnless-cases,
}

-- Where the loop stands: behind `start` before the first pointer is followed, anywhere then, with
-- the bytes consumed within the packet.
abbrev pub Place : ℕ → ℕ → ℕ → Option ℕ → Type 0
Place packet_len start at none = start ≤ at
Place packet_len start at (some c) = (0 < c) × (start + c ≤ packet_len)

first_of-Place :
    (packet_len start at k : ℕ) (o : Option ℕ)
    → 0 < k
    → at + k ≤ packet_len
    → Place packet_len start at o
    → (0 < first_of o (at - start + k)) × (start + first_of o (at - start + k) ≤ packet_len)
first_of-Place packet_len start at k none pos le h = (omega arith, omega arith)
first_of-Place packet_len start at k (some c) pos le h = h

later-Place :
    (packet_len start at later : ℕ) (o : Option ℕ)
    → at ≤ later
    → Place packet_len start at o
    → Place packet_len start later o
later-Place packet_len start at later none le h = omega arith
later-Place packet_len start at later (some c) le h = h

module _ (isprint : ℕ → Bool) (mem : List ℕ) (packet_len : ℕ) (held : packet_len ≤ length mem)
    (start : ℕ) where
  record IsParsing (s : NameState) : Type 0 where
    jumped : s.jumps ≤ 10
    written : length s.out ≤ 254
    place : Place packet_len start s.at s.consumed
    walked : Walk isprint mem packet_len start s.at s.jumps s.out

  abbrev EndsNamed : Run NameResult → Type 0
  EndsNamed =
      EnsuresUnless (Overlong isprint mem packet_len start) (IsName isprint mem packet_len start)

  -- What the rounds that follow are to do.
  abbrev Goes : ℕ → (NameState → Run NameResult) → Type 0
  Goes n rest =
      (s : NameState) → IsParsing s → 266 ≤ n + s.jumps + length s.out → EndsNamed (rest s)

  module _ (n : ℕ) (rest : NameState → Run NameResult) (goes : Goes n rest) (s : NameState)
      (h : IsParsing s) (fuel : 266 ≤ n + 1 + s.jumps + length s.out)
      (inside : s.at < packet_len) where
    follow_pointer-EndsNamed :
        (len : ℕ)
        → get_elem? mem s.at ≡ some len
        → 192 ≤ len
        → EndsNamed (follow_pointer isprint name_size mem packet_len start rest len s)
    unfolding follow_pointer read8
    follow_pointer-EndsNamed len here high = elim (Bool-cases (leb packet_len (s.at + 1))) [
      | inl cut ↦ rw cut tt
      | inr whole ↦
          let (low, e) = get_elem?-lt mem (s.at + 1) (ground arith) in
          let offset = len % 64 * 256 + low in
          elim (Bool-cases (leb packet_len offset || ltb 10 (s.jumps + 1))) [
            | inl bad ↦ rw whole (rw e (rw bad tt))
            | inr good ↦
                let p =
                  first_of-Place packet_len start s.at 2 s.consumed (omega arith) (ground arith)
                    h.place in
                let w = pointer s.at s.jumps len low s.out h.walked here e high (ground arith) in
                rw whole (
                  rw e (
                    rw good (
                      goes _
                        (record {
                          jumped = ground arith;
                          written = h.written;
                          place = p;
                          walked = w;
                        })
                        (omega arith))))
          ]
    ]

    end_name-EndsNamed :
        get_elem? mem s.at ≡ some 0 → EndsNamed (end_name isprint name_size mem packet_len start s)
    unfolding end_name
    end_name-EndsNamed here =
        let room : ltb (length s.out) 256 ≡ true = ground (arith, h.written) in
        let p =
          first_of-Place packet_len start s.at 1 s.consumed (omega arith) (omega arith) h.place in
        rw room (
          p.0,
          p.1,
          h.written,
          record {
            at = s.at;
            jumps = s.jumps;
            walk = h.walked;
            few = h.jumped;
            terminator = here;
            inside = inside;
          },
        )

    -- The label's bytes are written, or go beyond the array.
    copied_label-EndsNamed :
        (len : ℕ)
        → get_elem? mem s.at ≡ some len
        → 0 < len
        → len ≤ 63
        → s.at + 1 + len ≤ packet_len
        → length (dotted s.out) + len ≤ 256
        → EndsNamed (take_label isprint name_size mem packet_len rest len s)
    unfolding take_label
    copied_label-EndsNamed len here pos short whole fits =
        let dot = put_dot_lem 256 s.out (omega (arith, h.written)) in
        let c =
          copy_label_lem isprint 256 mem packet_len (s.at + 1) len (dotted s.out) (omega arith)
            fits in
        let out = dotted s.out ++ shown isprint mem (s.at + 1) len in
        let size : length out ≡ length (dotted s.out) + len = omega (
          arith,
          length-append (dotted s.out) (shown isprint mem (s.at + 1) len),
          length-shown isprint mem (s.at + 1) len,
        ) in
        let within : ltb packet_len (s.at + 1 + len) ≡ false = ground arith in
        elim (Bool-cases (ltb 254 (length out))) [
          | inl long ↦ rw within (rw dot (rw c (rw long tt)))
          | inr short_enough ↦ rw within (
              rw dot (
                rw c (
                  rw short_enough (
                    goes _
                      (record {
                        jumped = h.jumped;
                        written = ground arith;
                        place =
                            later-Place packet_len start s.at (s.at + 1 + len) s.consumed
                              (omega arith) h.place;
                        walked = label s.at s.jumps len s.out h.walked here pos short whole;
                      })
                      (omega (arith, size, length_le_dotted s.out))))))
        ]

    overlong_label-EndsNamed :
        (len : ℕ)
        → get_elem? mem s.at ≡ some len
        → len ≤ 63
        → s.at + 1 + len ≤ packet_len
        → 256 < length (dotted s.out) + len
        → EndsNamed (take_label isprint name_size mem packet_len rest len s)
    unfolding take_label
    overlong_label-EndsNamed len here short whole over =
        let dot = put_dot_lem 256 s.out (omega (arith, h.written)) in
        let room : length (dotted s.out) ≤ 256 = omega (arith, length-dotted s.out, h.written) in
        let c =
          copy_label-overflow isprint 256 mem packet_len (s.at + 1) len (dotted s.out) (omega arith)
            room over in
        let within : ltb packet_len (s.at + 1 + len) ≡ false = ground arith in
        rw within (
          rw dot (
            rw c (record {
              at = s.at;
              jumps = s.jumps;
              out = s.out;
              n = len;
              walk = h.walked;
              few = h.jumped;
              so_far = h.written;
              size = here;
              short = short;
              inside = whole;
              over = over;
            })))

    take_label-EndsNamed :
        (len : ℕ)
        → get_elem? mem s.at ≡ some len
        → 0 < len
        → len ≤ 63
        → EndsNamed (take_label isprint name_size mem packet_len rest len s)
    unfolding take_label
    take_label-EndsNamed len here pos short = elim (Bool-cases (ltb packet_len (s.at + 1 + len))) [
      | inl cut ↦ rw cut tt
      | inr whole ↦ elim (Bool-cases (leb (length (dotted s.out) + len) 256)) [
        | inl fits ↦
            copied_label-EndsNamed len here pos short (ground (arith, whole)) (ground (arith, fits))
        | inr over ↦
            overlong_label-EndsNamed len here short (ground (arith, whole)) (ground (arith, over))
      ]
    ]

    name_round-EndsNamed :
        (len : ℕ)
        → get_elem? mem s.at ≡ some len
        → EndsNamed (name_round isprint name_size mem packet_len start rest len s)
    unfolding name_round
    name_round-EndsNamed len here = elim (Bool-cases (leb 192 len)) [
      | inl pointed ↦ rw pointed (follow_pointer-EndsNamed len here (ground (arith, pointed)))
      | inr low ↦ elim (Bool-cases (len == 0)) [
        | inl last ↦
            let e : len ≡ 0 = ground (arith, last) in
            rw (low, last) (end_name-EndsNamed (rw e at here))
        | inr more ↦ elim (Bool-cases (ltb 63 len)) [
          | inl long ↦ rw (low, more, long) tt
          | inr short ↦
              rw (low, more, short) (take_label-EndsNamed len here (ground arith) (ground arith))
        ]
      ]
    ]

  name_loop-EndsNamed : (n : ℕ) → Goes n (name_loop isprint name_size mem packet_len start n)
  unfolding name_loop read8
  name_loop-EndsNamed zero s h fuel = absurd (omega (arith, h.jumped, h.written))
  name_loop-EndsNamed (suc n) s h fuel = elim (Bool-cases (leb packet_len s.at)) [
    | inl past ↦ rw past tt
    | inr inside ↦
        let (len, e) = get_elem?-lt mem s.at (ground arith) in
        rw inside (
          rw e (
            name_round-EndsNamed n (name_loop isprint name_size mem packet_len start n)
              (name_loop-EndsNamed n) s h (omega arith) (ground arith) len e))
  ]

  pub parse_dns_name-EndsNamed : EndsNamed (parse_dns_name isprint name_size mem packet_len start)
  unfolding parse_dns_name
  parse_dns_name-EndsNamed =
      name_loop-EndsNamed name_fuel (record { at = start; out = []; jumps = 0; consumed = none })
        (record {
          jumped = omega arith;
          written = omega arith;
          place = omega arith;
          walked = begin;
        })
        (omega arith)

-- Parsing a name at any offset of any packet, to an array of 256 bytes, ends within 300 rounds in
-- one of two ways. It returns: then a name has at most 254 bytes, it is what a walk along the
-- packet's labels and at most ten pointers spells up to a length of 0, and the bytes consumed are
-- at least one and end within the packet. Or it accesses memory out of bounds: then such a walk has
-- spelled at most 254 bytes and stands at a label in the packet that makes them more than 256.
pub parse_dns_name-IsName :
    (isprint : ℕ → Bool) (mem : List ℕ) (packet_len start : ℕ)
    → packet_len ≤ length mem
    → ((r : NameResult) × (parse_dns_name isprint 256 mem packet_len start ≡ ok r)
        × IsName isprint mem packet_len start r)
      ⊎ ((parse_dns_name isprint 256 mem packet_len start ≡ fault out_of_bounds)
          × Overlong isprint mem packet_len start)
parse_dns_name-IsName isprint mem packet_len start held =
    EnsuresUnless-cases (Overlong isprint mem packet_len start)
      (IsName isprint mem packet_len start) (parse_dns_name isprint 256 mem packet_len start)
      (parse_dns_name-EndsNamed isprint mem packet_len held start)
