-- ===== src/Detect/Tls/Accepts.antt =====
-- Which data the probe for TLS accepts.
use dpdk_based_nids.Detect.Tls.{
  is_content_type, is_version, is_handshake_type, max_record_len, probe_sslv2, probe_content,
  probe_record, tls_probing_parser,
}
use dpdk_based_nids.Detect.State.{tls, failed}
use dpdk_based_nids.Flow.State.{Flow}
use dpdk_based_nids.Packet.Memory.{read8, read_be16, read8-lt, read_be16-lt}
use dpdk_based_nids.Prelude.{
  ℕ, ◌+◌, ◌*◌, ◌≤◌, ◌≡◌, refl, ap, arith, Bool, true, false, Bool-cases, inl, inr, List, ◌∷◌,
  length, ltb, leb, ◌==◌, ◌&&◌, ◌||◌, if◌then◌else◌, ok, Ensures, Ensures-bind, Ensures-if,
}

-- The independent description, in the numbers of the protocol: a content type from 20 to 24, a
-- version from 3.0 to 3.4 and a length of 16384 at most, or the hello of SSL 2.
unfoldable pub looks_tls : ℕ → ℕ → ℕ → ℕ → ℕ → Bool
looks_tls b₀ b₁ b₂ b₃ b₄ =
    ((leb 20 b₀ && leb b₀ 24)
      && (leb 0x0300 (b₁ * 256 + b₂) && leb (b₁ * 256 + b₂) 0x0304)
      && leb (b₃ * 256 + b₄) 16384)
    || (leb 128 b₀ && (b₂ == 1))

if_same {ℓ} : {A : Type ℓ} (b : Bool) (x : A) → (if b then x else x) ≡ x
if_same true x = refl
if_same false x = refl

probe_content_lem :
    (mem : List ℕ) (len b : ℕ)
    → is_content_type b ≡ true
    → 6 ≤ len
    → len ≤ length mem
    → probe_content mem len b ≡ ok tls
unfolding probe_content
probe_content_lem mem len b typed long held =
    let (t, e) = read8-lt mem 5 (omega arith) in
    elim (Bool-cases (b == 22)) [
      | inl hello ↦
          let tested : ((b == 22) && leb 6 len) ≡ true = ground (arith, hello) in
          rw (tested, e) (ap ok (if_same (is_handshake_type t) tls))
      | inr other ↦
          let untested : ((b == 22) && leb 6 len) ≡ false = ground (arith, other) in
          let known : ((b == 23) || (b == 20) || (b == 21) || (b == 24)) ≡ true =
            ground (arith, other, typed) in
          rw (untested, known) refl
    ]

probe_sslv2_lem :
    (b₂ len first : ℕ) (b₀ b₁ : ℕ) (rest : List ℕ)
    → 3 ≤ len
    → probe_sslv2 (b₀ ∷ b₁ ∷ b₂ ∷ rest) len first
      ≡ ok (if leb 128 first && (b₂ == 1) then tls else failed)
unfolding probe_sslv2 read8
probe_sslv2_lem b₂ len first b₀ b₁ rest long =
    let room : leb 3 len ≡ true = ground arith in
    elim (Bool-cases (leb 128 first)) [
      | inl high ↦ rw (room, high) refl
      | inr low ↦ rw (room, low) refl
    ]

-- Of six bytes or more within its memory, the probe for TLS reports TLS exactly if they start a
-- record of a known content type and version, no longer than 16384 bytes, or look like the hello
-- of SSL 2. It reports failure, and never that it cannot tell, for all other data.
pub tls_probing_parser_lem :
    (f : Flow) (toserver : Bool) (b₀ b₁ b₂ b₃ b₄ : ℕ) (rest : List ℕ) (len : ℕ) (reverse : Bool)
    → 6 ≤ len
    → len ≤ 5 + length rest
    → tls_probing_parser f toserver (b₀ ∷ b₁ ∷ b₂ ∷ b₃ ∷ b₄ ∷ rest) len reverse
      ≡ ok (if looks_tls b₀ b₁ b₂ b₃ b₄ then tls else failed, reverse)
unfolding tls_probing_parser probe_record read_be16 read8 looks_tls
tls_probing_parser_lem f toserver b₀ b₁ b₂ b₃ b₄ rest len reverse long held =
    let mem = b₀ ∷ b₁ ∷ b₂ ∷ b₃ ∷ b₄ ∷ rest in
    let enough : ltb len 5 ≡ false = ground arith in
    elim (Bool-cases (is_content_type b₀)) [
      | inl typed ↦
          let low : leb 128 b₀ ≡ false = ground (arith, typed) in
          let content = probe_content_lem mem len b₀ typed long (omega arith) in
          elim (Bool-cases (is_version (b₁ * 256 + b₂) && leb (b₃ * 256 + b₄) max_record_len)) [
            | inl good ↦ simp (enough, typed, good, content, low)
            | inr bad ↦ simp (enough, typed, bad, content, low)
          ]
      | inr untyped ↦
          let sslv2 = probe_sslv2_lem b₂ len b₀ b₀ b₁ (b₃ ∷ b₄ ∷ rest) (omega arith) in
          simp (enough, untyped, sslv2)
    ]

-- Probing any data for TLS reads only the data and ends.
pub tls_probing_parser-ends :
    (f : Flow) (toserver : Bool) (mem : List ℕ) (len : ℕ) (reverse : Bool)
    → len ≤ length mem
    → Ensures (λ r. Unit) (tls_probing_parser f toserver mem len reverse)
unfolding tls_probing_parser probe_record probe_content probe_sslv2
tls_probing_parser-ends f toserver mem len reverse held =
    Ensures-bind (λ r. Unit) (λ r. Unit) (probe_record mem len) _
      (Ensures-if (λ r. Unit) (ltb len 5) _ _ (λ short. tt)
        (λ long.
          let room : 5 ≤ length mem = ground (arith, long) in
          let (b, e₁) = read8-lt mem 0 (omega arith) in
          let (version, e₂) = read_be16-lt mem 1 (omega arith) in
          let (size, e₃) = read_be16-lt mem 3 (omega arith) in
          let (msg, e₄) = read8-lt mem 2 (omega arith) in
          rw (e₁, e₂, e₃)
            (Ensures-if (λ r. Unit) (is_content_type b) _ _
              (λ typed.
                Ensures-if (λ r. Unit) (is_version version && leb size max_record_len) _ _
                  (λ good.
                    Ensures-if (λ r. Unit) ((b == 22) && leb 6 len) _ _
                      (λ hello. let (t, e₅) = read8-lt mem 5 (ground (arith, hello)) in rw e₅ tt)
                      (λ other. tt))
                  (λ bad. tt))
              (λ untyped.
                Ensures-if (λ r. Unit) (leb 128 b && leb 3 len) _ _ (λ high. rw e₄ tt)
                  (λ low. tt)))))
      (λ r h. tt)
