-- ===== src/Behavior/Brute/Failures.antt =====
-- The failures of one target within a time window, and the alert that they raise.
use dpdk_based_nids.Behavior.Brute.{
  brute_force_window, brute_force_threshold, new_brute_tracker, reset_brute, count_failure, fires,
  track_failure, mark_alert,
}
use dpdk_based_nids.Behavior.State.{BruteForceTracker}
use dpdk_based_nids.Behavior.Trackers.{is_within_window}
use dpdk_based_nids.Prelude.{
  ℕ, suc, ◌+◌, ◌^◌, ◌≤◌, ◌<◌, ◌≡◌, refl, ap, ◌∙◌, arith, Bool, true, false, not, List, [], ◌∷◌, All,
  length, leb, ◌&&◌, if◌then◌else◌, add32,
}

-- A failure, as `detect_brute_force_http` is called for it: the time and the status code.
pub record Failure : Type 0 where
  pub time : ℕ
  pub status : ℕ

-- What the calls do to the tracker of their target, and the number of alerts they raise.
unfoldable pub count_failures : List Failure → BruteForceTracker → BruteForceTracker × ℕ
count_failures [] t = (t, 0)
count_failures (x ∷ xs) t =
    let t' = track_failure x.time x.status t in
    let (t'', n) = count_failures xs (mark_alert t') in (t'', (if fires t' then 1 else 0) + n)

-- A tracker in a window that started at `start`, behind `n` failures.
record IsCounting (start n : ℕ) (t : BruteForceTracker) : Type 0 where
  began : t.window_start ≡ start
  counted : t.failed_attempts ≡ n
  marked : t.alerted ≡ leb brute_force_threshold n

abbrev as_number : Bool → ℕ
as_number b = if b then 1 else 0

alert_lem :
    (alerted : Bool) (n : ℕ)
    → alerted ≡ leb brute_force_threshold n
    → let fired = leb brute_force_threshold (n + 1) && not alerted in
      ((if fired then true else alerted) ≡ leb brute_force_threshold (n + 1))
      × (as_number fired + as_number alerted ≡ as_number (leb brute_force_threshold (n + 1)))
alert_lem true n marked = (ground (arith, marked), ground (arith, marked))
alert_lem false n marked = (ground (arith, marked), ground (arith, marked))

module _ (start n : ℕ) (t : BruteForceTracker) (h : IsCounting start n t) (x : Failure)
    (within : x.time ≤ start + brute_force_window) (small : n + 1 < 2 ^ 32) where
  track_failure-open : track_failure x.time x.status t ≡ count_failure x.time x.status t
  unfolding track_failure reset_brute
  track_failure-open =
      let inside : is_within_window x.time t.window_start brute_force_window ≡ true =
        ground (arith, h.began) in
      rw inside refl

  one_failure :
      let t' = track_failure x.time x.status t in
      IsCounting start (n + 1) (mark_alert t')
      × (as_number (fires t') + as_number t.alerted ≡ as_number (leb brute_force_threshold (n + 1)))
  unfolding mark_alert fires count_failure
  one_failure =
      let next : add32 t.failed_attempts 1 ≡ n + 1 = omega (arith, h.counted) in
      let (marked, once) = alert_lem t.alerted n h.marked in
      rw track_failure-open
        (record { began = h.began; counted = next; marked = rw next marked }, rw next once)

count_failures-IsCounting :
    (start n : ℕ) (xs : List Failure) (t : BruteForceTracker)
    → IsCounting start n t
    → All (λ x. x.time ≤ start + brute_force_window) xs
    → n + length xs < 2 ^ 32
    → let r = count_failures xs t in
      IsCounting start (n + length xs) r.0
      × (r.1 + as_number t.alerted ≡ as_number (leb brute_force_threshold (n + length xs)))
unfolding count_failures
count_failures-IsCounting start n [] t h within small =
    let e : n + 0 ≡ n = omega arith in rw e (h, omega (arith, ap as_number h.marked))
count_failures-IsCounting start n (x ∷ xs) t h within small =
    let t' = track_failure x.time x.status t in
    let (k, once) = one_failure start n t h x within.0 (omega arith) in
    let (r, total) =
      count_failures-IsCounting start (n + 1) xs (mark_alert t') k within.1 (omega arith) in
    let e : n + suc (length xs) ≡ n + 1 + length xs = omega arith in
    let m : as_number (mark_alert t').alerted ≡ as_number (leb brute_force_threshold (n + 1)) =
      ap as_number k.marked in
    rw e (r, omega (arith, once, total, m))

-- From a new tracker on, over any failures within 600 seconds, the tracker has counted each of
-- them, and there has been one alert if they are at least five, and none if they are fewer.
pub count_failures_lem :
    (target_ip target_port start : ℕ) (xs : List Failure)
    → All (λ x. x.time ≤ start + brute_force_window) xs
    → length xs < 2 ^ 32
    → let (t, alerts) = count_failures xs (new_brute_tracker target_ip target_port start) in
      (t.failed_attempts ≡ length xs)
      × (alerts ≡ (if leb brute_force_threshold (length xs) then 1 else 0))
unfolding new_brute_tracker
count_failures_lem target_ip target_port start xs within small =
    let new : IsCounting start 0 (new_brute_tracker target_ip target_port start) = record {
      began = refl;
      counted = refl;
      marked = refl;
    } in
    let (h, total) =
      count_failures-IsCounting start 0 xs (new_brute_tracker target_ip target_port start) new
        within (omega arith) in
    let e : 0 + length xs ≡ length xs = omega arith in
    (h.counted ∙ e, omega (arith, total, ap (λ m. as_number (leb brute_force_threshold m)) e))
