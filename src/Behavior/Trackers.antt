-- ===== src/Behavior/Trackers.antt =====
-- The hash tables of trackers of src/behavioral_detector.c: finding or creating a tracker, changing
-- it, and ageing. A table is a function from the number of a bucket to its chain.
use dpdk_based_nids.Prelude.{
  ℕ, ◌+◌, Bool, List, [], ◌∷◌, Option, none, some, ltb, leb, ◌==◌, if◌then◌else◌,
}

abbrev pub tracker_hash_size : ℕ
tracker_hash_size = 1024

-- `current - first <= window_sec` in signed numbers.
abbrev pub is_within_window : ℕ → ℕ → ℕ → Bool
is_within_window current first window = leb current (first + window)

module _ {T : Type 0} where
  abbrev pub set_chain : ℕ → List T → (ℕ → List T) → ℕ → List T
  set_chain i chain buckets j = if j == i then chain else buckets j

  -- The first tracker of a chain with the key.
  unfoldable pub find_tracker : (T → Bool) → List T → Option T
  find_tracker has_key [] = none
  find_tracker has_key (t ∷ ts) = if has_key t then some t else find_tracker has_key ts

  -- The chain once that tracker has been changed.
  unfoldable pub store_tracker : (T → Bool) → T → List T → List T
  store_tracker has_key t' [] = []
  store_tracker has_key t' (t ∷ ts) = if has_key t then t' ∷ ts else t ∷ store_tracker has_key t' ts

  -- A tracker, or `none` without memory; the chain; the calls of the allocator.
  unfoldable pub get_tracker : (ℕ → Bool) → (T → Bool) → T → List T → ℕ → Option T × List T × ℕ
  get_tracker grants has_key new chain k = found (find_tracker has_key chain)
    where
      found : Option T → Option T × List T × ℕ
      found none = if grants k then (some new, new ∷ chain, k + 1) else (none, chain, k + 1)
      found (some t) = (some t, chain, k)

  -- A chain without the trackers that were last of use, by `since`, more than `limit` seconds ago.
  unfoldable pub age_chain : (T → ℕ) → ℕ → ℕ → List T → List T
  age_chain since limit now [] = []
  age_chain since limit now (t ∷ ts) =
      if ltb (since t + limit) now
      then age_chain since limit now ts
      else t ∷ age_chain since limit now ts

  unfoldable pub age_trackers : (T → ℕ) → ℕ → ℕ → (ℕ → List T) → ℕ → List T
  age_trackers since limit now buckets i =
      if ltb i tracker_hash_size then age_chain since limit now (buckets i) else buckets i
