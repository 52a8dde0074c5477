-- ===== src/Packet/Safety.antt =====
-- Decoding reads only the packet's memory if an IPv4 header lies within the packet, and reads
-- beyond it if one does not.
use dpdk_based_nids.Packet.Decode.{
  PacketInfo, ether_size, ipv4_size, ipv6_size, tcp_size, udp_size, icmp_size, decode_ethernet,
  decode_ipv4, decode_ipv6, decode_tcp, decode_udp, decode_icmp, Decoded, then_at, set_payload,
  decode_transport, decode_network, decode_packet,
}
use dpdk_based_nids.Packet.Memory.{read8, read_be16, read8-lt, read_be16-lt}
use dpdk_based_nids.Prelude.{
  ℕ, ◌+◌, ◌-◌, ◌*◌, ◌/◌, ◌%◌, ◌^◌, ◌≤◌, ◌<◌, ◌≡◌, refl, arith, true, false, not, inl, inr,
  Bool-cases, List, length, Option, none, some, ltb, ◌==◌, ==_iff, ◌||◌, sub32, add32, to_u16, Run,
  ok, ◌>>=◌, Ensures, Ensures-bind, Ensures-ok,
}

-- Nothing has gone wrong yet, and no payload is set.
record IsFresh (p : PacketInfo) : Type 0 where
  clean : p.flags.error ≡ false
  no_payload : p.payload ≡ none
  no_len : p.payload_len ≡ 0

-- A payload lies within the packet, behind the headers.
abbrev pub PayloadWithin : ℕ → Option ℕ → ℕ → Type 0
PayloadWithin pkt_len none n = n ≡ 0
PayloadWithin pkt_len (some at) n = (at < pkt_len) × (n ≡ to_u16 (pkt_len - at))

without_payload :
    (pkt_len : ℕ) {o : Option ℕ} {n : ℕ} → o ≡ none → n ≡ 0 → PayloadWithin pkt_len o n
without_payload pkt_len {o} {n} e z = go o e
  where
    go : (o : Option ℕ) → o ≡ none → PayloadWithin pkt_len o n
    go none e = z
    go (some at) e = cc

-- -1 is returned exactly if PKT_ERROR is set.
pub record IsDecoded (pkt_len : ℕ) (d : Decoded) : Type 0 where
  pub status : d.1 ≡ not d.0.flags.error
  pub within : PayloadWithin pkt_len d.0.payload d.0.payload_len

-- What a layer at `at` leaves: an error, or a header that ends by `bound`.
abbrev LayerKeeps : ℕ → ℕ → PacketInfo × Option ℕ → Type 0
LayerKeeps at bound (p, none) = (p.flags.error ≡ true) × (p.payload ≡ none) × (p.payload_len ≡ 0)
LayerKeeps at bound (p, some n) = IsFresh p × (at + n ≤ bound)

module _ (mem : List ℕ) (p : PacketInfo) (fresh : IsFresh p) (at len : ℕ)
    (room : at + len ≤ length mem) where
  decode_udp-keeps : Ensures (LayerKeeps at (at + len)) (decode_udp mem p at len)
  unfolding decode_udp
  decode_udp-keeps = elim (Bool-cases (ltb len udp_size)) [
    | inl short ↦ rw short (refl, fresh.no_payload, fresh.no_len)
    | inr long ↦
        let (src, e) = read_be16-lt mem at (ground arith) in
        let (dst, f) = read_be16-lt mem (at + 2) (ground arith) in
        rw long (rw e (rw f (ground arith, ground arith)))
  ]

  decode_tcp-keeps : Ensures (LayerKeeps at (at + 60)) (decode_tcp mem p at len)
  unfolding decode_tcp
  decode_tcp-keeps = elim (Bool-cases (ltb len tcp_size)) [
    | inl short ↦ rw short (refl, fresh.no_payload, fresh.no_len)
    | inr long ↦
        let (src, e) = read_be16-lt mem at (ground arith) in
        let (dst, f) = read_be16-lt mem (at + 2) (ground arith) in
        let (off, g) = read8-lt mem (at + 12) (ground arith) in
        rw long (
          rw e (
            rw f (
              rw g (elim (Bool-cases (ltb (off / 16 % 16 * 4) tcp_size)) [
                | inl bad_off ↦ rw bad_off (refl, fresh.no_payload, fresh.no_len)
                | inr good ↦ rw good (ground arith, omega arith)
              ]))))
  ]

  decode_icmp-keeps : Ensures (LayerKeeps at (at + len)) (decode_icmp mem p at len)
  unfolding decode_icmp
  decode_icmp-keeps = elim (Bool-cases (ltb len icmp_size)) [
    | inl short ↦ rw short (refl, fresh.no_payload, fresh.no_len)
    | inr long ↦ rw long (ground arith, ground arith)
  ]

  decode_ipv6-keeps : Ensures (LayerKeeps at (at + len)) (decode_ipv6 mem p at len)
  unfolding decode_ipv6
  decode_ipv6-keeps = elim (Bool-cases (ltb len ipv6_size)) [
    | inl short ↦ rw short (refl, fresh.no_payload, fresh.no_len)
    | inr long ↦
        let (proto, e) = read8-lt mem (at + 6) (ground arith) in
        let (plen, f) = read_be16-lt mem (at + 4) (ground arith) in
        rw long (rw e (rw f (ground arith, ground arith)))
  ]

  decode_ipv4-keeps :
      (bound : ℕ)
      → ((v : ℕ) → read8 mem at ≡ ok v → at + v % 16 * 4 ≤ bound)
      → Ensures (LayerKeeps at bound) (decode_ipv4 mem p at len)
  unfolding decode_ipv4
  decode_ipv4-keeps bound h = elim (Bool-cases (ltb len ipv4_size)) [
    | inl short ↦ rw short (refl, fresh.no_payload, fresh.no_len)
    | inr long ↦
        let (proto, e) = read8-lt mem (at + 9) (ground arith) in
        let (total, f) = read_be16-lt mem (at + 2) (ground arith) in
        let (v, g) = read8-lt mem at (ground arith) in
        let fits = h v g in
        rw long (
          rw e (
            rw f (
              rw g (elim (Bool-cases (ltb (v % 16 * 4) ipv4_size)) [
                | inl bad_ihl ↦ rw bad_ihl (refl, fresh.no_payload, fresh.no_len)
                | inr good ↦ rw good (ground arith, fits)
              ]))))
  ]

-- Going on behind a layer that keeps what is wanted.
then_at-IsDecoded :
    (pkt_len at bound : ℕ) (next : PacketInfo → ℕ → Run Decoded) (r : PacketInfo × Option ℕ)
    → bound < 2 ^ 32
    → LayerKeeps at bound r
    → ((q : PacketInfo) (n : ℕ)
        → IsFresh q
        → at + n ≤ bound
        → Ensures (IsDecoded pkt_len) (next q (at + n)))
    → Ensures (IsDecoded pkt_len) (then_at at next r)
then_at-IsDecoded pkt_len at bound next (p, none) small k h = record {
  status = rw k.0 refl;
  within = without_payload pkt_len k.1 k.2;
}
then_at-IsDecoded pkt_len at bound next (p, some n) small k h =
    let e : add32 at n ≡ at + n = omega (arith, k.1) in rw e (h p n k.0 k.1)

layer-IsDecoded :
    (pkt_len at bound : ℕ) (next : PacketInfo → ℕ → Run Decoded) (m : Run (PacketInfo × Option ℕ))
    → bound < 2 ^ 32
    → Ensures (LayerKeeps at bound) m
    → ((q : PacketInfo) (n : ℕ)
        → IsFresh q
        → at + n ≤ bound
        → Ensures (IsDecoded pkt_len) (next q (at + n)))
    → Ensures (IsDecoded pkt_len) (m >>= then_at at next)
layer-IsDecoded pkt_len at bound next m small k h =
    Ensures-bind (LayerKeeps at bound) (IsDecoded pkt_len) m (then_at at next) k
      (λ r k. then_at-IsDecoded pkt_len at bound next r small k h)

set_payload-IsDecoded :
    (pkt_len : ℕ) (p : PacketInfo) (at : ℕ)
    → pkt_len < 2 ^ 32
    → IsFresh p
    → Ensures (IsDecoded pkt_len) (set_payload pkt_len p at)
unfolding set_payload
set_payload-IsDecoded pkt_len p at small fresh = elim (Bool-cases (ltb at pkt_len)) [
  | inl more ↦ rw more (record { status = rw fresh.clean refl; within = ground arith })
  | inr end ↦ rw end (record {
    status = rw fresh.clean refl;
    within = without_payload pkt_len fresh.no_payload fresh.no_len;
  })
]

module _ (mem : List ℕ) (pkt_len : ℕ) (whole : pkt_len ≤ length mem)
    (small : pkt_len + 60 < 2 ^ 32) where
  fresh-IsDecoded : (p : PacketInfo) → IsFresh p → IsDecoded pkt_len (p, true)
  fresh-IsDecoded p fresh = record {
    status = rw fresh.clean refl;
    within = without_payload pkt_len fresh.no_payload fresh.no_len;
  }

  decode_transport-IsDecoded :
      (p : PacketInfo) (at : ℕ)
      → IsFresh p
      → at ≤ pkt_len
      → Ensures (IsDecoded pkt_len) (decode_transport mem pkt_len p at)
  unfolding decode_transport
  decode_transport-IsDecoded p at fresh le =
      let len = sub32 pkt_len at in
      let room : at + len ≤ length mem = omega arith in
      let next = set_payload pkt_len in
      let after = λ (q : PacketInfo) (n : ℕ) (f : IsFresh q).
        set_payload-IsDecoded pkt_len q (at + n) (omega arith) f in
      elim (Bool-cases (p.ip_proto == 6)) [
        | inl tcp ↦ rw tcp (
            layer-IsDecoded pkt_len at (at + 60) next (decode_tcp mem p at len) (omega arith)
              (decode_tcp-keeps mem p fresh at len room) (λ q n f h. after q n f))
        | inr no_tcp ↦ elim (Bool-cases (p.ip_proto == 17)) [
          | inl udp ↦ rw no_tcp (
              rw udp (
                layer-IsDecoded pkt_len at (at + len) next (decode_udp mem p at len) (omega arith)
                  (decode_udp-keeps mem p fresh at len room) (λ q n f h. after q n f)))
          | inr no_udp ↦ elim (Bool-cases (p.ip_proto == 1 || p.ip_proto == 58)) [
            | inl icmp ↦ rw no_tcp (
                rw no_udp (
                  rw icmp (
                    layer-IsDecoded pkt_len at (at + len) next (decode_icmp mem p at len)
                      (omega arith) (decode_icmp-keeps mem p fresh at len room)
                      (λ q n f h. after q n f))))
            | inr other ↦ rw no_tcp (rw no_udp (rw other (fresh-IsDecoded p fresh)))
          ]
        ]
      ]

  decode_network-IsDecoded :
      (p : PacketInfo) (at : ℕ)
      → IsFresh p
      → at ≤ pkt_len
      → (p.ether_type ≡ 0x0800 → (v : ℕ) → read8 mem at ≡ ok v → at + v % 16 * 4 ≤ pkt_len)
      → Ensures (IsDecoded pkt_len) (decode_network mem pkt_len p at)
  unfolding decode_network
  decode_network-IsDecoded p at fresh le ihl =
      let len = sub32 pkt_len at in
      let room : at + len ≤ length mem = omega arith in
      let next = decode_transport mem pkt_len in
      elim (Bool-cases (p.ether_type == 0x0800)) [
        | inl v4 ↦ rw v4 (
            layer-IsDecoded pkt_len at pkt_len next (decode_ipv4 mem p at len) (omega arith)
              (decode_ipv4-keeps mem p fresh at len room pkt_len
                (ihl ((==_iff p.ether_type 0x0800).0 v4)))
              (λ q n f h. decode_transport-IsDecoded q (at + n) f h))
        | inr no_v4 ↦ elim (Bool-cases (p.ether_type == 0x86dd)) [
          | inl v6 ↦ rw no_v4 (
              rw v6 (
                layer-IsDecoded pkt_len at (at + len) next (decode_ipv6 mem p at len) (omega arith)
                  (decode_ipv6-keeps mem p fresh at len room)
                  (λ q n f h. decode_transport-IsDecoded q (at + n) f (omega arith))))
          | inr other ↦ rw no_v4 (rw other (fresh-IsDecoded p fresh))
        ]
      ]

-- The memory holds the whole packet. If it is an IPv4 packet, its header as long as it says
-- lies within it.
pub record IsWhole (mem : List ℕ) (pkt_len : ℕ) : Type 0 where
  pub held : pkt_len ≤ length mem
  pub some_bytes : 0 < pkt_len
  pub small : pkt_len + 60 < 2 ^ 32
  pub ip_header :
      read_be16 mem 12 ≡ ok 0x0800 → (v : ℕ) → read8 mem 14 ≡ ok v → 14 + v % 16 * 4 ≤ pkt_len

decode_packet-Ensures :
    (mem : List ℕ) (pkt_len : ℕ)
    → IsWhole mem pkt_len
    → Ensures (IsDecoded pkt_len) (decode_packet mem pkt_len)
unfolding decode_packet decode_ethernet
decode_packet-Ensures mem pkt_len w =
    let nonempty : (pkt_len == 0) ≡ false = ground (arith, w.some_bytes) in
    elim (Bool-cases (ltb pkt_len ether_size)) [
      | inl short ↦ rw nonempty (rw short (record { status = refl; within = refl }))
      | inr long ↦
          let (ty, e) = read_be16-lt mem 12 (ground (arith, w.held)) in
          rw nonempty (
            rw long (
              rw e (
                decode_network-IsDecoded mem pkt_len w.held w.small _ ether_size
                  (record { clean = refl; no_payload = refl; no_len = refl }) (ground arith)
                  (λ v4. w.ip_header (rw v4 at e)))))
    ]

-- Where the memory holds the whole packet and an IPv4 header lies within it, `decode_packet`
-- reads nothing else. It returns -1 exactly if it has set PKT_ERROR, and a payload that it
-- reports starts within the packet and has the length up to its end, cut to 16 bits.
pub decode_packet-IsDecoded :
    (mem : List ℕ) (pkt_len : ℕ)
    → IsWhole mem pkt_len
    → (d : Decoded) × (decode_packet mem pkt_len ≡ ok d) × IsDecoded pkt_len d
decode_packet-IsDecoded mem pkt_len w =
    Ensures-ok (IsDecoded pkt_len) (decode_packet mem pkt_len) (decode_packet-Ensures mem pkt_len w)
