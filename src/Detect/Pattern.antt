-- ===== src/Detect/Pattern.antt =====
-- `pattern_match` and `try_pattern_detection` of src/proto_detect.c. `tolower` is a parameter.
use dpdk_based_nids.Detect.State.{AppProto, unknown, ProtoPattern, DetectCtx}
use dpdk_based_nids.Packet.Memory.{read8}
use dpdk_based_nids.Prelude.{
  ℕ, zero, suc, ◌+◌, ◌-◌, Bool, true, false, List, [], ◌∷◌, ltb, ◌==◌, ◌&&◌, if◌then◌else◌, length,
  sub32, add64, Run, ok, ◌>>=◌,
}

-- `search_len`, in 32 bits.
unfoldable pub search_len : ProtoPattern → ℕ → ℕ
search_len p len = sub32 (if ltb 0 p.depth && ltb p.depth len then p.depth else len) p.offset

unfoldable pub count_pattern : DetectCtx → DetectCtx
count_pattern ctx = record ctx { by_pattern = add64 ctx.by_pattern 1 }

abbrev pub after_match :
    AppProto
    → Bool
    → (DetectCtx → Run (AppProto × DetectCtx))
    → DetectCtx
    → Run (AppProto × DetectCtx)
after_match protocol true rest ctx = ok (protocol, count_pattern ctx)
after_match protocol false rest ctx = rest ctx

module _ (tolower : ℕ → ℕ) where
  abbrev pub same_byte : Bool → ℕ → ℕ → Bool
  same_byte true a b = a == b
  same_byte false a b = tolower a == tolower b

  -- The inner loop, from offset `at` of the memory on.
  unfoldable pub match_here : List ℕ → Bool → ℕ → List ℕ → Run Bool
  match_here mem case_sensitive at [] = ok true
  match_here mem case_sensitive at (c ∷ cs) = do
    b ← read8 mem at
    if same_byte case_sensitive b c then match_here mem case_sensitive (at + 1) cs else ok false

  -- The outer loop, with the number of its rounds.
  unfoldable pub search_from : List ℕ → Bool → List ℕ → ℕ → ℕ → Run Bool
  search_from mem case_sensitive pattern at zero = ok false
  search_from mem case_sensitive pattern at (suc n) = do
    hit ← match_here mem case_sensitive at pattern
    if hit then ok true else search_from mem case_sensitive pattern (at + 1) n

  -- `data` is the memory from offset `at` on.
  unfoldable pub pattern_match : List ℕ → ℕ → ℕ → List ℕ → Bool → Run Bool
  pattern_match mem at data_len pattern case_sensitive =
      if ltb data_len (length pattern)
      then ok false
      else search_from mem case_sensitive pattern at (data_len - length pattern + 1)

  unfoldable pub try_patterns :
      List ℕ → ℕ → List ProtoPattern → DetectCtx → Run (AppProto × DetectCtx)
  try_patterns mem len [] ctx = ok (unknown, ctx)
  try_patterns mem len (p ∷ ps) ctx =
      if ltb 0 p.offset && ltb len p.offset then try_patterns mem len ps ctx else (do
        hit ← pattern_match mem p.offset (search_len p len) p.pattern p.case_sensitive
        after_match p.protocol hit (try_patterns mem len ps) ctx)

  unfoldable pub try_pattern_detection : DetectCtx → List ℕ → ℕ → Bool → Run (AppProto × DetectCtx)
  try_pattern_detection ctx mem len true = try_patterns mem len ctx.patterns_ts ctx
  try_pattern_detection ctx mem len false = try_patterns mem len ctx.patterns_tc ctx
