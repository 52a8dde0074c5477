-- ===== src/Detect/Search.antt =====
-- What `pattern_match` decides, and where it reads.
use dpdk_based_nids.Detect.Pattern.{same_byte, match_here, search_from, pattern_match}
use dpdk_based_nids.Packet.Memory.{read8, get_elem?-lt}
use dpdk_based_nids.Prelude.{
  ℕ, zero, suc, ◌+◌, ◌-◌, ◌≤◌, ◌<◌, ◌≡◌, ◌↔◌, refl, arith, inl, inr, Bool, true, false, Bool-cases,
  List, [], ◌∷◌, Option, none, some, get_elem?, length, ltb, ◌&&◌, ◌||◌, ok,
}

module _ (tolower : ℕ → ℕ) (mem : List ℕ) (case_sensitive : Bool) where
  abbrev pub is_byte : Option ℕ → ℕ → Bool
  is_byte none c = false
  is_byte (some b) c = same_byte tolower case_sensitive b c

  -- The memory holds the pattern at an offset, up to the case of letters if it does not count.
  unfoldable pub occurs_at : ℕ → List ℕ → Bool
  occurs_at at [] = true
  occurs_at at (c ∷ cs) = is_byte (get_elem? mem at) c && occurs_at (at + 1) cs

  -- It does so at one of `n` offsets.
  unfoldable pub occurs_within : List ℕ → ℕ → ℕ → Bool
  occurs_within pattern at zero = false
  occurs_within pattern at (suc n) = occurs_at at pattern || occurs_within pattern (at + 1) n

  match_here_lem :
      (at : ℕ) (cs : List ℕ)
      → at + length cs ≤ length mem
      → match_here tolower mem case_sensitive at cs ≡ ok (occurs_at at cs)
  unfolding match_here occurs_at read8
  match_here_lem at [] le = refl
  match_here_lem at (c ∷ cs) le =
      let (b, e) = get_elem?-lt mem at (omega arith) in
      elim (Bool-cases (same_byte tolower case_sensitive b c)) [
        | inl same ↦ rw (e, same) (match_here_lem (at + 1) cs (omega arith))
        | inr other ↦ rw (e, other) refl
      ]

  search_from_lem :
      (pattern : List ℕ) (at n : ℕ)
      → at + n + length pattern ≤ length mem + 1
      → search_from tolower mem case_sensitive pattern at n ≡ ok (occurs_within pattern at n)
  unfolding search_from occurs_within
  search_from_lem pattern at zero le = refl
  search_from_lem pattern at (suc n) le =
      let e = match_here_lem at pattern (omega arith) in
      elim (Bool-cases (occurs_at at pattern)) [
        | inl hit ↦ rw (e, hit) refl
        | inr miss ↦ rw (e, miss) (search_from_lem pattern (at + 1) n (omega arith))
      ]

  occurs_within_sound :
      (pattern : List ℕ) (at n : ℕ)
      → occurs_within pattern at n ≡ true
      → (i : ℕ) × (i < n) × (occurs_at (at + i) pattern ≡ true)
  unfolding occurs_within
  occurs_within_sound pattern at zero e = cc
  occurs_within_sound pattern at (suc n) e = elim (Bool-cases (occurs_at at pattern)) [
    | inl hit ↦ let here : at + 0 ≡ at = omega arith in (0, omega arith, rw here hit)
    | inr miss ↦
        let (i, lt, hit) = occurs_within_sound pattern (at + 1) n (rw miss at e) in
        let here : at + (i + 1) ≡ at + 1 + i = omega arith in
        (i + 1, omega (arith, lt), rw here hit)
  ]

  occurs_within_complete :
      (pattern : List ℕ) (at n i : ℕ)
      → i < n
      → occurs_at (at + i) pattern ≡ true
      → occurs_within pattern at n ≡ true
  unfolding occurs_within
  occurs_within_complete pattern at zero i lt hit = absurd (omega arith)
  occurs_within_complete pattern at (suc n) zero lt hit =
      let here : at + 0 ≡ at = omega arith in
      let first : occurs_at at pattern ≡ true = rw here at hit in rw first refl
  occurs_within_complete pattern at (suc n) (suc i) lt hit =
      let here : at + suc i ≡ at + 1 + i = omega arith in
      let rest = occurs_within_complete pattern (at + 1) n i (omega arith) (rw here at hit) in
      ground (arith, rest)

  -- On a range within the memory, `pattern_match` reads only the memory, ends, and answers whether
  -- the pattern occurs in the range: at an offset from its start, with its end within it.
  pub pattern_match_lem :
      (at data_len : ℕ) (pattern : List ℕ)
      → at + data_len ≤ length mem
      → (b : Bool) × (pattern_match tolower mem at data_len pattern case_sensitive ≡ ok b)
        × ((b ≡ true)
            ↔ ((i : ℕ) × (i + length pattern ≤ data_len) × (occurs_at (at + i) pattern ≡ true)))
  unfolding pattern_match
  pattern_match_lem at data_len pattern le = elim (Bool-cases (ltb data_len (length pattern))) [
    | inl short ↦ (
      false,
      rw short refl,
      ((λ e. cc), (λ (i, fits, hit). absurd (ground (arith, short, fits)))),
    )
    | inr long ↦
        let n = data_len - length pattern + 1 in
        let room : length pattern ≤ data_len = ground arith in
        (
          occurs_within pattern at n,
          rw long (search_from_lem pattern at n (omega arith)),
          (
            (λ e.
                let (i, lt, hit) = occurs_within_sound pattern at n e in
                (i, omega (arith, lt, room), hit)),
            (λ (i, fits, hit). occurs_within_complete pattern at n i (omega (arith, fits)) hit),
          ),
        )
  ]
