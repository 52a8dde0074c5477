-- ===== src/Detect/Verdict.antt =====
-- What `proto_detect_get_proto` answers, and patterns that make it read beyond the data.
use dpdk_based_nids.Detect.Engine.{
  is_unknown, is_failed, is_tried, probe_len, after_probe, try_probers, try_port_detection,
  Detected, detect_by_port, after_probers, Probed, try_prober_detection, detect_by_prober,
  after_patterns, detect, inspected, proto_detect_get_proto,
}
use dpdk_based_nids.Detect.Pattern.{
  match_here, search_from, pattern_match, search_len, count_pattern, after_match, try_patterns,
  try_pattern_detection,
}
use dpdk_based_nids.Detect.Search.{pattern_match_lem}
use dpdk_based_nids.Detect.State.{AppProto, ProtoPattern, ProtoProber, DetectCtx, DetectConfig}
use dpdk_based_nids.Flow.State.{Flow}
use dpdk_based_nids.Packet.Memory.{read8, get_elem?-ge}
use dpdk_based_nids.Prelude.{
  ℕ, zero, suc, ◌+◌, ◌-◌, ◌^◌, ◌≤◌, ◌<◌, ◌≡◌, ◌⊎◌, refl, arith, inl, inr, Bool, true, false, not,
  Bool-cases, List, [], ◌∷◌, All, length, ltb, ◌&&◌, Run, ok, fault, out_of_bounds, Ensures,
  Ensures-bind, Ensures-ok, Ensures-if,
}

-- The pattern's range of offsets is not empty, and its offset has 16 bits.
pub record IsUsable (p : ProtoPattern) : Type 0 where
  pub ordered : (p.depth ≡ 0) ⊎ (p.offset ≤ p.depth)
  pub small : p.offset < 2 ^ 16

abbrev AnyProbed : Probed → Type 0
AnyProbed r = Unit

-- The search for patterns changes only a count of the context.
abbrev SameProbers : DetectCtx → AppProto × DetectCtx → Type 0
SameProbers ctx r = r.1.probers ≡ ctx.probers

module _ (tolower : ℕ → ℕ) where
  after_match-ends :
      (protocol : AppProto) (hit : Bool) (rest : DetectCtx → Run (AppProto × DetectCtx))
      (ctx : DetectCtx)
      → Ensures (SameProbers ctx) (rest ctx)
      → Ensures (SameProbers ctx) (after_match protocol hit rest ctx)
  unfolding count_pattern
  after_match-ends protocol true rest ctx h = refl
  after_match-ends protocol false rest ctx h = h

  search_len-fits :
      (p : ProtoPattern) (len : ℕ)
      → IsUsable p
      → len < 2 ^ 32
      → (ltb 0 p.offset && ltb len p.offset) ≡ false
      → p.offset + search_len p len ≤ len
  unfolding search_len
  search_len-fits p len u small reached = ground (arith, u.ordered, u.small)

  try_patterns-ends :
      (mem : List ℕ) (len : ℕ) (ps : List ProtoPattern) (ctx : DetectCtx)
      → len ≤ length mem
      → len < 2 ^ 32
      → All IsUsable ps
      → Ensures (SameProbers ctx) (try_patterns tolower mem len ps ctx)
  unfolding try_patterns
  try_patterns-ends mem len [] ctx le small u = refl
  try_patterns-ends mem len (p ∷ ps) ctx le small u =
      let rest = try_patterns-ends mem len ps ctx le small u.1 in
      elim (Bool-cases (ltb 0 p.offset && ltb len p.offset)) [
        | inl skipped ↦ rw skipped rest
        | inr reached ↦
            let fits = search_len-fits p len u.0 small reached in
            let (b, e, _) =
              pattern_match_lem tolower mem p.case_sensitive p.offset (search_len p len) p.pattern
                (omega (arith, fits)) in
            rw (reached, e)
              (after_match-ends p.protocol b (try_patterns tolower mem len ps) ctx rest)
      ]

-- 0 is returned exactly if a protocol, or failure, is reported.
abbrev IsVerdict : Detected → Type 0
IsVerdict r = r.0 ≡ not (is_unknown r.1.protocol)

detect_by_port-IsVerdict :
    (c : DetectConfig) (f : Flow) (toserver : Bool) (ctx : DetectCtx)
    → IsVerdict (detect_by_port c f toserver ctx)
unfolding detect_by_port
detect_by_port-IsVerdict c f toserver ctx =
    elim (Bool-cases
      (c.enable_port_detection && not (is_unknown (try_port_detection f toserver)))) [
        | inl found ↦ rw found (ground (arith, found))
        | inr none_found ↦ rw none_found refl
      ]

after_probers-IsVerdict :
    (c : DetectConfig) (f : Flow) (toserver : Bool) (r : Probed)
    → IsVerdict (after_probers c f toserver r)
unfolding after_probers
after_probers-IsVerdict c f toserver (protocol, ctx, reverse) =
    elim (Bool-cases (is_failed protocol)) [
      | inl bad ↦ rw bad refl
      | inr fine ↦ elim (Bool-cases (is_unknown protocol)) [
        | inl none_found ↦ rw (fine, none_found) (detect_by_port-IsVerdict c f toserver ctx)
        | inr found ↦ rw (fine, found) (rw found refl)
      ]
    ]

-- What a prober may be: a function that reads only its data and ends.
pub record IsSafe (p : ProtoProber) : Type 0 where
  pub ends :
      (f : Flow) (toserver : Bool) (mem : List ℕ) (len : ℕ) (reverse : Bool)
      → len ≤ length mem
      → Ensures (λ r. Unit) (p.parser_fn f toserver mem len reverse)

module _ (c : DetectConfig) (f : Flow) (mem : List ℕ) (len : ℕ) (toserver : Bool)
    (le : len ≤ length mem) where
  try_probers-ends :
      (ps : List ProtoProber) (ctx : DetectCtx) (reverse : Bool)
      → All IsSafe ps
      → Ensures AnyProbed (try_probers ps f mem len toserver ctx reverse)
  unfolding try_probers after_probe probe_len
  try_probers-ends [] ctx reverse safe = tt
  try_probers-ends (p ∷ ps) ctx reverse safe =
      let shorter : probe_len p len ≤ length mem = ground arith in
      Ensures-if AnyProbed (is_tried p f len toserver) _ _
        (λ tried.
          Ensures-bind (λ r. Unit) AnyProbed (p.parser_fn f toserver mem (probe_len p len) reverse)
            (after_probe (try_probers ps f mem len toserver ctx) ctx)
            (safe.0.ends f toserver mem (probe_len p len) reverse shorter)
            (λ (protocol, r) h.
              Ensures-if AnyProbed (is_unknown protocol) _ _
                (λ none_found. try_probers-ends ps ctx r safe.1) (λ found. tt)))
        (λ skipped. try_probers-ends ps ctx reverse safe.1)

  detect_by_prober-IsVerdict :
      (ctx : DetectCtx)
      → All IsSafe ctx.probers
      → Ensures IsVerdict (detect_by_prober c f mem len toserver ctx)
  unfolding detect_by_prober try_prober_detection
  detect_by_prober-IsVerdict ctx safe =
      Ensures-if IsVerdict c.enable_probing_parsers _ _
        (λ enabled.
          Ensures-bind AnyProbed IsVerdict (try_prober_detection ctx f mem len toserver) _
            (try_probers-ends ctx.probers ctx false safe)
            (λ r h. after_probers-IsVerdict c f toserver r))
        (λ disabled. detect_by_port-IsVerdict c f toserver ctx)

  -- Counting a match leaves the probers alone.
  after_patterns-IsVerdict :
      (r : AppProto × DetectCtx)
      → All IsSafe r.1.probers
      → Ensures IsVerdict (after_patterns c f mem len toserver r)
  unfolding after_patterns
  after_patterns-IsVerdict (protocol, ctx) safe =
      Ensures-if IsVerdict (is_unknown protocol) _ _
        (λ none_found. detect_by_prober-IsVerdict ctx safe) (λ found. rw found refl)

  module _ (tolower : ℕ → ℕ) (ctx : DetectCtx) (small : len < 2 ^ 32)
      (ts : All IsUsable ctx.patterns_ts) (tc : All IsUsable ctx.patterns_tc)
      (safe : All IsSafe ctx.probers) where
    patterns-ends : Ensures (SameProbers ctx) (try_pattern_detection tolower ctx mem len toserver)
    unfolding try_pattern_detection
    patterns-ends = go toserver
      where
        go : (d : Bool) → Ensures (SameProbers ctx) (try_pattern_detection tolower ctx mem len d)
        go true = try_patterns-ends tolower mem len ctx.patterns_ts ctx le small ts
        go false = try_patterns-ends tolower mem len ctx.patterns_tc ctx le small tc

    detect-IsVerdict : Ensures IsVerdict (detect tolower c ctx f mem len toserver)
    unfolding detect
    detect-IsVerdict =
        Ensures-if IsVerdict (ltb len 4) _ _ (λ short. refl)
          (λ long.
            Ensures-if IsVerdict c.enable_pattern_matching _ _
              (λ enabled.
                Ensures-bind (SameProbers ctx) IsVerdict
                  (try_pattern_detection tolower ctx mem len toserver) _ patterns-ends
                  (λ r h. after_patterns-IsVerdict r (rw h safe)))
              (λ disabled. detect_by_prober-IsVerdict ctx safe))

-- If every pattern's depth is 0 or at least its offset, and every prober reads only its data and
-- ends, then detection on data of the stated
-- length reads only the data and ends. It returns 0 exactly if it reports a protocol or failure,
-- and -1 exactly if it reports `APP_PROTO_UNKNOWN`.
pub proto_detect_get_proto-ends :
    (tolower : ℕ → ℕ) (c : DetectConfig) (ctx : DetectCtx) (f : Flow) (mem : List ℕ) (len : ℕ)
    (toserver : Bool)
    → len ≤ length mem
    → len < 2 ^ 32
    → All IsUsable ctx.patterns_ts
    → All IsUsable ctx.patterns_tc
    → All IsSafe ctx.probers
    → (r : Detected) × (proto_detect_get_proto tolower c ctx f mem len toserver ≡ ok r)
      × (r.0 ≡ not (is_unknown r.1.protocol))
unfolding proto_detect_get_proto inspected
proto_detect_get_proto-ends tolower c ctx f mem len toserver le small ts tc safe =
    let n = inspected c len in
    let fits : (n ≤ len) = ground arith in
    Ensures-ok IsVerdict (detect tolower c ctx f mem n toserver) (
      detect-IsVerdict c f mem n toserver (omega (arith, fits)) tolower ctx (omega (arith, fits)) ts
        tc safe)

module _ (tolower : ℕ → ℕ) (mem : List ℕ) (case_sensitive : Bool) (at : ℕ)
    (past : length mem ≤ at) where
  search_from-behind :
      (c : ℕ) (cs : List ℕ) (n : ℕ)
      → 0 < n
      → search_from tolower mem case_sensitive (c ∷ cs) at n ≡ fault out_of_bounds
  unfolding search_from match_here read8
  search_from-behind c cs zero pos = absurd (omega arith)
  search_from-behind c cs (suc n) pos = rw (get_elem?-ge mem at past) refl

  pattern_match-behind :
      (c : ℕ) (cs : List ℕ) (pattern : List ℕ) (data_len : ℕ)
      → pattern ≡ c ∷ cs
      → length cs < data_len
      → pattern_match tolower mem at data_len pattern case_sensitive ≡ fault out_of_bounds
  unfolding pattern_match
  pattern_match-behind c cs pattern data_len e lt =
      let long : ltb data_len (length (c ∷ cs)) ≡ false = ground arith in
      rw e (rw long (search_from-behind c cs (data_len - length (c ∷ cs) + 1) (omega arith)))

search_len-wraps :
    (p : ProtoPattern) (len : ℕ)
    → 0 < p.depth
    → p.depth < p.offset
    → p.offset ≤ len
    → p.offset < 2 ^ 16
    → 2 ^ 16 ≤ search_len p len
unfolding search_len
search_len-wraps p len some_depth before le small = ground arith

-- A pattern whose depth is not 0 but less than its offset makes the search read behind the data
-- as soon as the data reaches just up to the offset: the length to search wraps around.
pub try_patterns-overread :
    (tolower : ℕ → ℕ) (mem : List ℕ) (p : ProtoPattern) (ps : List ProtoPattern) (c : ℕ)
    (cs : List ℕ) (ctx : DetectCtx)
    → 0 < p.depth
    → p.depth < p.offset
    → p.offset ≡ length mem
    → p.offset < 2 ^ 16
    → p.pattern ≡ c ∷ cs
    → length cs < 2 ^ 16
    → try_patterns tolower mem (length mem) (p ∷ ps) ctx ≡ fault out_of_bounds
unfolding try_patterns
try_patterns-overread tolower mem p ps c cs ctx some_depth before at small e short =
    let reached : (ltb 0 p.offset && ltb (length mem) p.offset) ≡ false = ground arith in
    let wide = search_len-wraps p (length mem) some_depth before (omega arith) small in
    let behind =
      pattern_match-behind tolower mem p.case_sensitive p.offset (omega arith) c cs p.pattern
        (search_len p (length mem)) e (omega (arith, wide)) in
    simp (reached, behind)
