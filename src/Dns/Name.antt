-- ===== src/Dns/Name.antt =====
-- `parse_dns_name` of src/dns_parser.c.
pub mod Walk
pub mod Writes
pub mod Bounds
pub mod RoundTrip
pub mod Overflow
use dpdk_based_nids.Packet.Memory.{read8}
use dpdk_based_nids.Prelude.{
  ℕ, zero, suc, ◌+◌, ◌-◌, ◌*◌, ◌%◌, Bool, true, false, not, List, [], ◌∷◌, ◌++◌, Option, none, some,
  length, ltb, leb, ◌==◌, ◌&&◌, ◌||◌, if◌then◌else◌, Run, ok, fault, out_of_bounds, out_of_fuel,
  ◌>>=◌,
}

-- The variables of the loop: `p` as an offset in the packet, what has been written to `name_out`,
-- `jumps`, and `consumed` once `jumped` is true.
pub record NameState : Type 0 where
  pub at : ℕ
  pub out : List ℕ
  pub jumps : ℕ
  pub consumed : Option ℕ

-- The bytes consumed and the name; `none` is the return value -1.
abbrev pub NameResult : Type 0
NameResult = Option (ℕ × List ℕ)

abbrev pub max_jumps : ℕ
max_jumps = 10

abbrev pub max_name_len : ℕ
max_name_len = 255

-- The size of the arrays that every call has its name written to.
abbrev pub name_size : ℕ
name_size = max_name_len + 1

abbrev pub max_label_len : ℕ
max_label_len = 63

abbrev pub first_of : Option ℕ → ℕ → ℕ
first_of none n = n
first_of (some c) n = c

-- Each round follows a pointer, of which there are at most `max_jumps`, or writes a byte at
-- least, of which there are at most `max_name_len`.
abbrev pub name_fuel : ℕ
name_fuel = 300

-- What is written for a byte of a label: itself, or '?'. `isprint` is C's.
unfoldable pub printable : (ℕ → Bool) → ℕ → ℕ
printable isprint b = if not (isprint b) && not (b == 45) && not (b == 95) then 63 else b

-- `name_out` points to an array of `capacity` bytes, which is the caller's and of `name_size` bytes
-- in every call.
module _ (capacity : ℕ) where
  -- `*out++ = c`, undefined behind the end of the array.
  unfoldable pub put_char : List ℕ → ℕ → Run (List ℕ)
  put_char out c = if ltb (length out) capacity then ok (out ++ (c ∷ [])) else fault out_of_bounds

  -- The dot before a label that is not the first one.
  abbrev pub put_dot : List ℕ → Run (List ℕ)
  put_dot [] = ok []
  put_dot (c ∷ out) = put_char (c ∷ out) 46

module _ (isprint : ℕ → Bool) (capacity : ℕ) (mem : List ℕ) (packet_len : ℕ) where
  -- The inner loop, over the `n` bytes of a label.
  unfoldable pub copy_label : ℕ → ℕ → List ℕ → Run (List ℕ)
  copy_label at zero out = ok out
  copy_label at (suc n) out = do
    b ← read8 mem at
    out' ← put_char capacity out (printable isprint b)
    copy_label (at + 1) n out'

  -- The three ways through a round. `start` is `ptr`, and `rest` the rounds that follow.
  unfoldable pub follow_pointer : ℕ → (NameState → Run NameResult) → ℕ → NameState → Run NameResult
  follow_pointer start rest len s = if leb packet_len (s.at + 1) then ok none else do
    low ← read8 mem (s.at + 1)
    let offset = len % 64 * 256 + low
    if leb packet_len offset || ltb max_jumps (s.jumps + 1)
        then ok none
        else rest (record s {
          at = offset;
          jumps = s.jumps + 1;
          consumed = some (first_of s.consumed (s.at - start + 2));
        })

  unfoldable pub end_name : ℕ → NameState → Run NameResult
  end_name start s =
      if ltb (length s.out) capacity
      then ok (some (first_of s.consumed (s.at - start + 1), s.out))
      else fault out_of_bounds

  unfoldable pub take_label : (NameState → Run NameResult) → ℕ → NameState → Run NameResult
  take_label rest len s = if ltb packet_len (s.at + 1 + len) then ok none else do
    dotted ← put_dot capacity s.out
    out ← copy_label (s.at + 1) len dotted
    if ltb (max_name_len - 1) (length out)
        then ok none
        else rest (record s { at = s.at + 1 + len; out = out })

  -- The two highest bits of a byte are set if it is at least 192.
  unfoldable pub name_round : ℕ → (NameState → Run NameResult) → ℕ → NameState → Run NameResult
  name_round start rest len s =
      if leb 192 len
      then follow_pointer start rest len s
      else if len == 0
      then end_name start s
      else if ltb max_label_len len
      then ok none
      else take_label rest len s

  unfoldable pub name_loop : ℕ → ℕ → NameState → Run NameResult
  name_loop start zero s = fault out_of_fuel
  name_loop start (suc n) s =
      if leb packet_len s.at
      then ok none
      else do len ← read8 mem s.at; name_round start (name_loop start n) len s

  unfoldable pub parse_dns_name : ℕ → Run NameResult
  parse_dns_name start =
      name_loop start name_fuel (record { at = start; out = []; jumps = 0; consumed = none })
