-- ===== src/Behavior/Exfil/Volume.antt =====
-- The bytes that one source sends to one destination within a time window, and the alert that they
-- raise.
use dpdk_based_nids.Behavior.Exfil.{
  data_exfil_window, is_external_ip, is_off_hours, new_exfil_tracker, reset_exfil, add_bytes,
  is_suspicious, track_transfer, mark_exfil,
}
use dpdk_based_nids.Behavior.State.{DataExfilTracker}
use dpdk_based_nids.Behavior.Trackers.{is_within_window}
use dpdk_based_nids.Prelude.{
  ℕ, ◌+◌, ◌^◌, ◌≤◌, ◌<◌, ◌≡◌, refl, ap, ◌∙◌, arith, Bool, true, false, not, List, [], ◌∷◌, All, leb,
  ltb, ◌&&◌, ◌||◌, if◌then◌else◌, add64,
}

-- A packet, as `detect_data_exfiltration` is called for it: the time, its hour of the day, and the
-- length.
pub record Transfer : Type 0 where
  pub time : ℕ
  pub hour : ℕ
  pub bytes : ℕ

-- What the calls do to the tracker, and the number of alerts they raise.
unfoldable pub watch_transfers : List Transfer → DataExfilTracker → DataExfilTracker × ℕ
watch_transfers [] t = (t, 0)
watch_transfers (x ∷ xs) t =
    let t' = track_transfer x.time x.hour x.bytes t in
    let (t'', n) = watch_transfers xs (mark_exfil t') in
    (t'', (if is_suspicious t'.dst_ip t' then 1 else 0) + n)

abbrev pub volume : List Transfer → ℕ
volume [] = 0
volume (x ∷ xs) = x.bytes + volume xs

-- From 22 to 6 o'clock.
abbrev pub is_night : ℕ → Bool
is_night hour = if ltb hour 6 then true else leb 22 hour

abbrev pub any_night : Bool → List Transfer → Bool
any_night night [] = night
any_night night (x ∷ xs) = any_night (if is_night x.hour then true else night) xs

-- 100 MB to an external address, or 10 MB if it is night once.
abbrev pub is_much : Bool → Bool → ℕ → Bool
is_much external night n = (external && leb 104857600 n) || (night && leb 10485760 n)

abbrev as_number : Bool → ℕ
as_number b = if b then 1 else 0

alert_lem :
    (external night late alerted : Bool) (n bytes : ℕ)
    → alerted ≡ is_much external night n
    → let night' = if late then true else night in
      let fired =
        (leb 104857600 (n + bytes) && external && not alerted)
        || (night' && leb 10485760 (n + bytes) && not alerted) in
      ((if fired then true else alerted) ≡ is_much external night' (n + bytes))
      × (as_number fired + as_number alerted ≡ as_number (is_much external night' (n + bytes)))
alert_lem external night late true n bytes e = (ground (arith, e), ground (arith, e))
alert_lem external night late false n bytes e = (ground (arith, e), ground (arith, e))

-- A tracker in a window that started at `start`, behind `n` bytes.
record IsWatching (dst_ip start n : ℕ) (night : Bool) (t : DataExfilTracker) : Type 0 where
  target : t.dst_ip ≡ dst_ip
  began : t.window_start ≡ start
  counted : t.bytes_transferred ≡ n
  dark : t.off_hours ≡ night
  marked : t.alerted ≡ is_much (is_external_ip dst_ip) night n

is_off_hours-is_night : (hour : ℕ) → is_off_hours hour ≡ is_night hour
is_off_hours-is_night hour = ground arith

module _ (dst_ip start n : ℕ) (night : Bool) (t : DataExfilTracker)
    (h : IsWatching dst_ip start n night t) (x : Transfer)
    (within : x.time ≤ start + data_exfil_window) (small : n + x.bytes < 2 ^ 64) where
  track_transfer-open : track_transfer x.time x.hour x.bytes t ≡ add_bytes x.time x.hour x.bytes t
  unfolding track_transfer reset_exfil
  track_transfer-open =
      let inside : is_within_window x.time t.window_start data_exfil_window ≡ true =
        ground (arith, h.began) in
      rw inside refl

  abbrev night' : Bool
  night' = if is_night x.hour then true else night

  one_transfer :
      let t' = track_transfer x.time x.hour x.bytes t in
      IsWatching dst_ip start (n + x.bytes) night' (mark_exfil t')
      × (as_number (is_suspicious t'.dst_ip t') + as_number t.alerted
          ≡ as_number (is_much (is_external_ip dst_ip) night' (n + x.bytes)))
  unfolding mark_exfil is_suspicious add_bytes
  one_transfer =
      let next : add64 t.bytes_transferred x.bytes ≡ n + x.bytes = omega (arith, h.counted) in
      let dusk = is_off_hours-is_night x.hour in
      let (marked, once) =
        alert_lem (is_external_ip dst_ip) night (is_night x.hour) t.alerted n x.bytes h.marked in
      rw track_transfer-open (
        record {
          target = h.target;
          began = h.began;
          counted = next;
          dark = rw (dusk, h.dark) refl;
          marked = rw (next, dusk, h.dark, h.target) marked;
        },
        rw (next, dusk, h.dark, h.target) once,
      )

watch_transfers-IsWatching :
    (dst_ip start n : ℕ) (night : Bool) (xs : List Transfer) (t : DataExfilTracker)
    → IsWatching dst_ip start n night t
    → All (λ x. x.time ≤ start + data_exfil_window) xs
    → n + volume xs < 2 ^ 64
    → let r = watch_transfers xs t in
      IsWatching dst_ip start (n + volume xs) (any_night night xs) r.0
      × (r.1 + as_number t.alerted
          ≡ as_number (is_much (is_external_ip dst_ip) (any_night night xs) (n + volume xs)))
unfolding watch_transfers
watch_transfers-IsWatching dst_ip start n night [] t h within small =
    let e : n + 0 ≡ n = omega arith in rw e (h, omega (arith, ap as_number h.marked))
watch_transfers-IsWatching dst_ip start n night (x ∷ xs) t h within small =
    let t' = track_transfer x.time x.hour x.bytes t in
    let (k, once) = one_transfer dst_ip start n night t h x within.0 (omega arith) in
    let dark = if is_night x.hour then true else night in
    let (r, total) =
      watch_transfers-IsWatching dst_ip start (n + x.bytes) dark xs (mark_exfil t') k within.1
        (omega arith) in
    let e : n + (x.bytes + volume xs) ≡ n + x.bytes + volume xs = omega arith in
    rw e (r, omega (arith, once, total, ap as_number k.marked))

-- From a new tracker on, over any packets within 600 seconds, the tracker has added up their
-- lengths. There has been one alert if these make 100 MB to an address that counts as external, or
-- 10 MB with the tracker made or a packet seen between 22 and 6 o'clock, and none otherwise.
pub watch_transfers_lem :
    (src_ip dst_ip start hour : ℕ) (xs : List Transfer)
    → All (λ x. x.time ≤ start + data_exfil_window) xs
    → volume xs < 2 ^ 64
    → let (t, alerts) = watch_transfers xs (new_exfil_tracker src_ip dst_ip start hour) in
      (t.bytes_transferred ≡ volume xs)
      × (alerts ≡ (
          if is_much (is_external_ip dst_ip) (any_night (is_night hour) xs) (volume xs)
          then 1
          else 0))
unfolding new_exfil_tracker
watch_transfers_lem src_ip dst_ip start hour xs within small =
    let external = is_external_ip dst_ip in
    let fresh : IsWatching dst_ip start 0 (is_night hour)
        (new_exfil_tracker src_ip dst_ip start hour) =
      record {
        target = refl;
        began = refl;
        counted = refl;
        dark = is_off_hours-is_night hour;
        marked = ground arith;
      } in
    let (h, total) =
      watch_transfers-IsWatching dst_ip start 0 (is_night hour) xs
        (new_exfil_tracker src_ip dst_ip start hour) fresh within (omega arith) in
    let e : 0 + volume xs ≡ volume xs = omega arith in
    (
      h.counted ∙ e,
      omega
          (arith, total, ap (λ m. as_number (is_much external (any_night (is_night hour) xs) m)) e),
    )
