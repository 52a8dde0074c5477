-- ===== src/Detect/Dns/Query.antt =====
-- Queries that the probe for DNS recognises.
use dpdk_based_nids.Detect.Dns.{
  is_response, is_bad_header, scan_qname, qname_fuel, is_class, after_qname, probe_message,
  dns_probing_parser,
}
use dpdk_based_nids.Detect.State.{dns}
use dpdk_based_nids.Dns.Name.RoundTrip.{encode_name, Holds, Holds-append, Holds-within}
use dpdk_based_nids.Flow.State.{Flow}
use dpdk_based_nids.Packet.Memory.{read8, read_be16}
use dpdk_based_nids.Prelude.{
  ℕ, zero, suc, ◌+◌, ◌*◌, ◌≤◌, ◌<◌, ◌≡◌, refl, sym, append_assoc, ◌∙◌, ap, arith, Bool, true, false,
  List, [], ◌∷◌, ◌++◌, All, length, length-append, ltb, leb, ◌==◌, ◌||◌, some, get_elem?, ok, ◌>>=◌,
}

-- A label of 1 to 63 bytes.
abbrev pub IsSized : List ℕ → Type 0
IsSized l = (0 < length l) × (length l ≤ 63)

encode_name-ends : (ls : List (List ℕ)) → 0 < length (encode_name ls)
unfolding encode_name
encode_name-ends [] = omega arith
encode_name-ends (l ∷ ls) = omega arith

module _ (mem : List ℕ) (len : ℕ) where
  scan_qname-encode_name :
      (ls : List (List ℕ)) (n offset : ℕ)
      → All IsSized ls
      → Holds mem offset (encode_name ls)
      → offset + length (encode_name ls) ≤ len
      → offset + length (encode_name ls) ≤ 256
      → 256 < offset + n
      → scan_qname mem len n offset ≡ ok (some (true, offset + length (encode_name ls)))
  unfolding scan_qname encode_name read8
  scan_qname-encode_name ls zero offset w h inside small fuel = absurd (omega arith)
  scan_qname-encode_name [] (suc n) offset w h inside small fuel =
      let more : leb len offset ≡ false = ground arith in rw more (rw (h.0) refl)
  scan_qname-encode_name (l ∷ ls) (suc n) offset w h inside small fuel =
      let size = length-append l (encode_name ls) in
      let more : leb len offset ≡ false = ground arith in
      let some_bytes : (length l == 0) ≡ false = ground (arith, w.0.0) in
      let label : leb 192 (length l) ≡ false = ground (arith, w.0.1) in
      let fits : (ltb 63 (length l) || ltb 255 (offset + 1 + length l)) ≡ false =
        ground (arith, w.0.1, encode_name-ends ls, size, small) in
      let k = Holds-append mem (offset + 1) l (encode_name ls) h.1 in
      let rest =
        scan_qname-encode_name ls n (offset + 1 + length l) w.1 k.1 (omega arith) (omega arith)
          (omega (arith, w.0.0)) in
      let end : offset + 1 + length l + length (encode_name ls)
          ≡ offset + suc (length (l ++ encode_name ls)) =
        omega arith in
      rw more (rw (h.0) (rw (some_bytes, label, fits) (rw end at rest)))

Holds-question :
    (header name question post : List ℕ)
    → Holds (header ++ (name ++ (question ++ post))) (length header + length name) question
Holds-question header name question post =
    let e = length-append header name in
    let a = append_assoc header name (question ++ post) in
    rw (sym e) (rw (sym a) (Holds-within (header ++ name) question post))

module _ (mem : List ℕ) (len : ℕ) where
  after_qname-question :
      (at t₁ t₀ c₁ c₀ : ℕ)
      → Holds mem at (t₁ ∷ t₀ ∷ c₁ ∷ c₀ ∷ [])
      → at + 4 ≤ len
      → 0 < t₁ * 256 + t₀
      → is_class (c₁ * 256 + c₀) ≡ true
      → after_qname mem len (some (true, at)) ≡ ok dns
  unfolding after_qname read_be16 read8
  after_qname-question at t₁ t₀ c₁ c₀ (h₁, (h₀, (k₁, (k₀, _)))) room typed known =
      let inside : leb (at + 4) len ≡ true = ground arith in
      let some_type : (t₁ * 256 + t₀ == 0) ≡ false = ground arith in
      let e : at + 1 + 1 ≡ at + 2 = omega arith in
      let e' : at + 1 + 1 + 1 ≡ at + 2 + 1 = omega arith in
      let l₁ : get_elem? mem (at + 2) ≡ some c₁ = rw (sym e) k₁ in
      let l₀ : get_elem? mem (at + 2 + 1) ≡ some c₀ = rw (sym e') k₀ in
      rw inside (rw (h₁, h₀) (rw (l₁, l₀) (rw (some_type, known) refl)))

  probe_message-query :
      (flags qd an ns ar : ℕ)
      → 12 < len
      → read_be16 mem 2 ≡ ok flags
      → read_be16 mem 4 ≡ ok qd
      → read_be16 mem 6 ≡ ok an
      → read_be16 mem 8 ≡ ok ns
      → read_be16 mem 10 ≡ ok ar
      → is_response flags ≡ false
      → is_bad_header flags qd an ns ar ≡ false
      → probe_message mem len ≡ scan_qname mem len qname_fuel 12 >>= after_qname mem len
  unfolding probe_message
  probe_message-query flags qd an ns ar long e₁ e₂ e₃ e₄ e₅ query sound =
      let enough : ltb len 12 ≡ false = ground arith in
      let more : ltb 12 len ≡ true = ground arith in
      rw enough (rw (e₁, e₂, e₃, e₄, e₅) (rw sound (rw (query, more) refl)))

-- A query whose header is sound, with a name of labels of 1 to 63 bytes that takes at most 244
-- bytes, a type that is not 0 and a known class, is recognised as DNS, whatever follows the
-- question.
pub dns_probing_parser-query :
    (f : Flow) (toserver : Bool) (reverse : Bool) (i₁ i₀ f₁ f₀ q₁ q₀ a₁ a₀ n₁ n₀ r₁ r₀ : ℕ)
    (ls : List (List ℕ)) (t₁ t₀ c₁ c₀ : ℕ) (post : List ℕ)
    → is_response (f₁ * 256 + f₀) ≡ false
    → is_bad_header (f₁ * 256 + f₀) (q₁ * 256 + q₀) (a₁ * 256 + a₀) (n₁ * 256 + n₀) (r₁ * 256 + r₀)
      ≡ false
    → All IsSized ls
    → length (encode_name ls) ≤ 244
    → 0 < t₁ * 256 + t₀
    → is_class (c₁ * 256 + c₀) ≡ true
    → let header = i₁ ∷ i₀ ∷ f₁ ∷ f₀ ∷ q₁ ∷ q₀ ∷ a₁ ∷ a₀ ∷ n₁ ∷ n₀ ∷ r₁ ∷ r₀ ∷ [] in
      let packet = header ++ (encode_name ls ++ (t₁ ∷ t₀ ∷ c₁ ∷ c₀ ∷ post)) in
      dns_probing_parser f toserver packet (length packet) reverse ≡ ok (dns, reverse)
unfolding dns_probing_parser read_be16 read8
dns_probing_parser-query f toserver reverse i₁ i₀ f₁ f₀ q₁ q₀ a₁ a₀ n₁ n₀ r₁ r₀ ls t₁ t₀ c₁ c₀ post
      query sound w short typed known =
    let header = i₁ ∷ i₀ ∷ f₁ ∷ f₀ ∷ q₁ ∷ q₀ ∷ a₁ ∷ a₀ ∷ n₁ ∷ n₀ ∷ r₁ ∷ r₀ ∷ [] in
    let question = t₁ ∷ t₀ ∷ c₁ ∷ c₀ ∷ [] in
    let packet = header ++ (encode_name ls ++ (question ++ post)) in
    let size : length packet ≡ 12 + length (encode_name ls) + 4 + length post =
      omega (arith, length-append (encode_name ls) (question ++ post)) in
    let end = 12 + length (encode_name ls) in
    let scan =
      scan_qname-encode_name packet (length packet) ls qname_fuel 12 w
        (Holds-within header (encode_name ls) (question ++ post)) (omega arith) (omega arith)
        (omega arith) in
    let message =
      probe_message-query packet (length packet) (f₁ * 256 + f₀) (q₁ * 256 + q₀) (a₁ * 256 + a₀)
        (n₁ * 256 + n₀) (r₁ * 256 + r₀) (omega arith) refl refl refl refl refl query sound in
    let answer =
      after_qname-question packet (length packet) end t₁ t₀ c₁ c₀
        (Holds-question header (encode_name ls) question post) (omega arith) typed known in
    let run = message ∙ ap (λ r. r >>= after_qname packet (length packet)) scan ∙ answer in
    ap (λ r. r >>= (λ protocol. ok (protocol, reverse))) run
