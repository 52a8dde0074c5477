-- ===== src/Tests/Dns.antt =====
-- The parser of src/dns_parser.c on a query and on names.
use dpdk_based_nids.Dns.Name.Bounds.{parse_dns_name-IsName}
use dpdk_based_nids.Dns.Name.Walk.{Overlong, IsName}
use dpdk_based_nids.Dns.Name.Overflow.{encode_labels, parse_dns_name-overflow}
use dpdk_based_nids.Dns.Name.RoundTrip.{IsLabel, encode_name, name_of, parse_dns_name-encode_name}
use dpdk_based_nids.Dns.Name.{NameResult, printable, parse_dns_name}
use dpdk_based_nids.Dns.Parser.{Libc}
use dpdk_based_nids.Dns.State.{DnsConn}
use dpdk_based_nids.Prelude.{
  ℕ, zero, suc, ◌≤◌, ◌<◌, ◌≡◌, refl, ap, arith, Bool, false, List, [], ◌∷◌, ◌++◌, some, All, length,
  leb, ◌&&◌, ok, fault, out_of_bounds, ◌⊎◌,
}

-- `isprint` of ASCII.
abbrev ascii_isprint : ℕ → Bool
ascii_isprint b = leb 32 b && leb b 126

-- A query for "a.tk" of type A and class IN.
abbrev query : List ℕ
query =
    (0 ∷ 7 ∷ 1 ∷ 0 ∷ 0 ∷ 1 ∷ 0 ∷ 0 ∷ 0 ∷ 0 ∷ 0 ∷ 0 ∷ [])
    ++ (1 ∷ 97 ∷ 2 ∷ 116 ∷ 107 ∷ 0 ∷ 0 ∷ 1 ∷ 0 ∷ 1 ∷ [])

abbrev libc : Libc
libc = record { isprint = ascii_isprint; strstr = λ h n. false; is_high_entropy = λ s. false }

abbrev no_transactions : DnsConn
no_transactions = record {
  transactions = [];
  tx_count = 0;
  queries_parsed = 0;
  responses_parsed = 0;
  parse_errors = 0;
  nxdomain_count = 0;
  a_records = 0;
  aaaa_records = 0;
  cname_records = 0;
  txt_records = 0;
  suspicious_tld = false;
  high_entropy_domain = false;
}

parse_dns_name-IsName_example :
    ((r : NameResult) × (parse_dns_name ascii_isprint 256 query 22 12 ≡ ok r)
      × IsName ascii_isprint query 22 12 r)
    ⊎ ((parse_dns_name ascii_isprint 256 query 22 12 ≡ fault out_of_bounds)
        × Overlong ascii_isprint query 22 12)
parse_dns_name-IsName_example = parse_dns_name-IsName ascii_isprint query 22 12 (omega arith)

-- "a" and "tk".
abbrev two_labels : List (List ℕ)
two_labels = (97 ∷ []) ∷ (116 ∷ 107 ∷ []) ∷ []

two_labels-IsLabel : All (IsLabel ascii_isprint) two_labels
unfolding printable
two_labels-IsLabel = (
  record { some_bytes = omega arith; short = omega arith; plain = (refl, tt) },
  (record { some_bytes = omega arith; short = omega arith; plain = (refl, (refl, tt)) }, tt),
)

parse_dns_name-encode_name_example :
    let packet = (0 ∷ []) ++ (encode_name two_labels ++ (9 ∷ [])) in
    parse_dns_name ascii_isprint 255 packet (length packet) 1
    ≡ ok (some (length (encode_name two_labels), name_of two_labels))
unfolding name_of
parse_dns_name-encode_name_example =
    parse_dns_name-encode_name ascii_isprint 255 (0 ∷ []) (9 ∷ []) two_labels two_labels-IsLabel
      (omega arith) (omega arith)

-- `n` times the letter 'a'.
abbrev letters : ℕ → List ℕ
letters zero = []
letters (suc n) = 97 ∷ letters n

length-letters : (n : ℕ) → length (letters n) ≡ n
length-letters zero = refl
length-letters (suc n) = ap suc (length-letters n)

letters-IsLabel : (n : ℕ) → 0 < n → n ≤ 63 → IsLabel ascii_isprint (letters n)
unfolding printable
letters-IsLabel n pos short = record {
  some_bytes = omega (arith, length-letters n);
  short = omega (arith, length-letters n);
  plain = plain n;
}
  where
    plain : (n : ℕ) → All (λ b. printable ascii_isprint b ≡ b) (letters n)
    plain zero = tt
    plain (suc n) = (refl, plain n)

-- Four labels of 60 letters.
abbrev long_labels : List (List ℕ)
long_labels = letters 60 ∷ letters 60 ∷ letters 60 ∷ letters 60 ∷ []

parse_dns_name-overflow_example :
    let packet = [] ++ ((encode_labels long_labels ++ (63 ∷ letters 63)) ++ []) in
    parse_dns_name ascii_isprint 256 packet (length packet) 0 ≡ fault out_of_bounds
unfolding name_of
parse_dns_name-overflow_example =
    let w = letters-IsLabel 60 (omega arith) (omega arith) in
    parse_dns_name-overflow ascii_isprint [] [] (letters 63) long_labels (w, (w, (w, (w, tt))))
      (letters-IsLabel 63 (omega arith) (omega arith)) (omega arith) (omega arith) (omega arith)
