-- ===== src/Dns/Record/Safe.antt =====
-- Questions and records: what parsing reads and consumes.
use dpdk_based_nids.Dns.Name.Bounds.{parse_dns_name-EndsNamed}
use dpdk_based_nids.Dns.Name.Walk.{Overlong, IsName}
use dpdk_based_nids.Dns.Name.{NameResult, name_size, parse_dns_name}
use dpdk_based_nids.Dns.Record.{
  read_be32, Parse, alloc_question, question_after_name, parse_dns_question, parse_rdata,
  fill_rdata, alloc_rr, rr_after_name, parse_dns_rr,
}
use dpdk_based_nids.Dns.State.{DnsQuestion, DnsRr, Parsed}
use dpdk_based_nids.Packet.Memory.{read_be16-lt}
use dpdk_based_nids.Prelude.{
  ℕ, ◌+◌, ◌*◌, ◌^◌, ◌≤◌, ◌<◌, ◌≡◌, refl, arith, inl, inr, Bool, Bool-cases, List, none, some,
  length, ltb, leb, ◌==◌, ◌&&◌, ◌||◌, ok, EnsuresUnless, EnsuresUnless-bind, EnsuresUnless-if,
  EnsuresUnless-widen,
}

-- Some name of the packet is too long for its array.
abbrev pub OverlongName : (ℕ → Bool) → List ℕ → ℕ → Type 0
OverlongName isprint mem packet_len = (start : ℕ) × Overlong isprint mem packet_len start

-- What has been consumed from `start` on is not empty and ends within the packet.
abbrev pub Fits : ℕ → ℕ → {A : Type 0} → Parse A → Type 0
Fits packet_len start (none, k) = Unit
Fits packet_len start (some (consumed, a), k) = (0 < consumed) × (start + consumed ≤ packet_len)

read_be32-lt : (mem : List ℕ) (at : ℕ) → at + 3 < length mem → (w : ℕ) × (read_be32 mem at ≡ ok w)
unfolding read_be32
read_be32-lt mem at h =
    let (hi, e) = read_be16-lt mem at (omega arith) in
    let (lo, f) = read_be16-lt mem (at + 2) (omega arith) in (hi * 2 ^ 16 + lo, rw (e, f) refl)

module _ (isprint : ℕ → Bool) (grants : ℕ → Bool) (mem : List ℕ) (packet_len : ℕ)
    (held : packet_len ≤ length mem) where
  abbrev W : Type 0
  W = OverlongName isprint mem packet_len

  abbrev Named : ℕ → NameResult → Type 0
  Named = IsName isprint mem packet_len

  parse_dns_name_lem :
      (start : ℕ)
      → EnsuresUnless W (Named start) (parse_dns_name isprint name_size mem packet_len start)
  parse_dns_name_lem start =
      EnsuresUnless-widen (Overlong isprint mem packet_len start) W (Named start)
        (parse_dns_name isprint name_size mem packet_len start) (λ w. (start, w))
        (parse_dns_name-EndsNamed isprint mem packet_len held start)

  alloc_question-Fits :
      (start consumed : ℕ) (q : DnsQuestion) (k : ℕ)
      → 0 < consumed
      → start + consumed ≤ packet_len
      → Fits packet_len start (alloc_question isprint grants consumed q k)
  unfolding alloc_question
  alloc_question-Fits start consumed q k pos le = elim (Bool-cases (grants k)) [
    | inr failed ↦ rw failed tt
    | inl got ↦ elim (Bool-cases (grants (k + 1))) [
      | inr failed ↦ rw (got, failed) tt
      | inl fine ↦ rw (got, fine) (pos, le)
    ]
  ]

  question_after_name-Fits :
      (start k : ℕ) (r : NameResult)
      → Named start r
      → EnsuresUnless W
          (Fits packet_len start)
          (question_after_name isprint grants mem packet_len start k r)
  unfolding question_after_name
  question_after_name-Fits start k none n = tt
  question_after_name-Fits start k (some (consumed, name)) n =
      EnsuresUnless-if W (Fits packet_len start) (ltb packet_len (start + consumed + 4)) _ _
        (λ cut. tt)
        (λ whole.
          let (qtype, e) = read_be16-lt mem (start + consumed) (ground (arith, whole, held)) in
          let (qclass, f) = read_be16-lt mem (start + consumed + 2) (ground (arith, whole, held)) in
          rw (e, f)
            (alloc_question-Fits start (consumed + 4) _ k (omega arith) (ground (arith, whole))))

  pub parse_dns_question-Fits :
      (start k : ℕ)
      → EnsuresUnless W
          (Fits packet_len start)
          (parse_dns_question isprint grants mem packet_len start k)
  unfolding parse_dns_question
  parse_dns_question-Fits start k =
      EnsuresUnless-bind W (Named start) (Fits packet_len start)
        (parse_dns_name isprint name_size mem packet_len start) _ (parse_dns_name_lem start)
        (question_after_name-Fits start k)

  abbrev Any : Parsed × ℕ → Type 0
  Any r = Unit

  parse_rdata-ends :
      (type rdlength at k : ℕ)
      → at + rdlength ≤ packet_len
      → EnsuresUnless W Any (parse_rdata isprint grants mem packet_len type rdlength at k)
  unfolding parse_rdata
  parse_rdata-ends type rdlength at k le =
      EnsuresUnless-if W Any ((type == 1) && (rdlength == 4)) _ _ (λ e. tt)
        (λ e.
          EnsuresUnless-if W Any ((type == 28) && (rdlength == 16)) _ _ (λ e. tt)
            (λ e.
              EnsuresUnless-if W Any ((type == 5) || ((type == 2) || (type == 12))) _ _
                (λ e.
                  EnsuresUnless-bind W (Named at) Any
                    (parse_dns_name isprint name_size mem packet_len at) _ (parse_dns_name_lem at)
                    (λ r n. tt))
                (λ e.
                  EnsuresUnless-if W Any ((type == 15) && leb 2 rdlength) _ _
                    (λ e.
                      let (preference, f) = read_be16-lt mem at (ground (arith, e, held)) in
                      rw f (
                        EnsuresUnless-bind W (Named (at + 2)) Any
                          (parse_dns_name isprint name_size mem packet_len (at + 2)) _
                          (parse_dns_name_lem (at + 2)) (λ r n. tt)))
                    (λ e. tt))))

  fill_rdata-Fits :
      (start consumed at : ℕ) (rr : DnsRr) (k : ℕ)
      → 0 < consumed
      → start + consumed ≤ packet_len
      → at + rr.rdlength ≤ packet_len
      → EnsuresUnless W
          (Fits packet_len start)
          (fill_rdata isprint grants mem packet_len consumed at rr k)
  unfolding fill_rdata
  fill_rdata-Fits start consumed at rr k pos le room =
      EnsuresUnless-if W (Fits packet_len start) (rr.rdlength == 0) _ _ (λ e. (pos, le))
        (λ e.
          EnsuresUnless-if W (Fits packet_len start) (grants k) _ _
            (λ got.
              EnsuresUnless-bind W Any (Fits packet_len start)
                (parse_rdata isprint grants mem packet_len rr.type rr.rdlength at (k + 1)) _
                (parse_rdata-ends rr.type rr.rdlength at (k + 1) room) (λ r n. (pos, le)))
            (λ failed. tt))

  alloc_rr-Fits :
      (start consumed at : ℕ) (rr : DnsRr) (k : ℕ)
      → 0 < consumed
      → start + consumed ≤ packet_len
      → at + rr.rdlength ≤ packet_len
      → EnsuresUnless W
          (Fits packet_len start)
          (alloc_rr isprint grants mem packet_len consumed at rr k)
  unfolding alloc_rr
  alloc_rr-Fits start consumed at rr k pos le room =
      EnsuresUnless-if W (Fits packet_len start) (grants k) _ _
        (λ got.
          EnsuresUnless-if W (Fits packet_len start) (grants (k + 1)) _ _
            (λ fine. fill_rdata-Fits start consumed at rr (k + 2) pos le room) (λ failed. tt))
        (λ failed. tt)

  rr_after_name-Fits :
      (start k : ℕ) (r : NameResult)
      → Named start r
      → EnsuresUnless W
          (Fits packet_len start)
          (rr_after_name isprint grants mem packet_len start k r)
  unfolding rr_after_name
  rr_after_name-Fits start k none n = tt
  rr_after_name-Fits start k (some (consumed, name)) n =
      let at = start + consumed in
      EnsuresUnless-if W (Fits packet_len start) (ltb packet_len (at + 10)) _ _ (λ cut. tt)
        (λ whole.
          let room : at + 10 ≤ length mem = ground (arith, whole, held) in
          let (type, e) = read_be16-lt mem at (omega arith) in
          let (rr_class, f) = read_be16-lt mem (at + 2) (omega arith) in
          let (ttl, g) = read_be32-lt mem (at + 4) (omega arith) in
          let (rdlength, h) = read_be16-lt mem (at + 8) (omega arith) in
          rw (e, f, g, h)
            (EnsuresUnless-if W (Fits packet_len start) (ltb packet_len (at + 10 + rdlength)) _ _
              (λ cut. tt)
              (λ inside.
                alloc_rr-Fits start (consumed + 10 + rdlength) (at + 10) _ k (omega arith)
                  (ground (arith, inside)) (ground (arith, inside)))))

  pub parse_dns_rr-Fits :
      (start k : ℕ)
      → EnsuresUnless W (Fits packet_len start) (parse_dns_rr isprint grants mem packet_len start k)
  unfolding parse_dns_rr
  parse_dns_rr-Fits start k =
      EnsuresUnless-bind W (Named start) (Fits packet_len start)
        (parse_dns_name isprint name_size mem packet_len start) _ (parse_dns_name_lem start)
        (rr_after_name-Fits start k)
