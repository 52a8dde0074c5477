-- ===== src/Behavior/Scan/Window.antt =====
-- The packets of one source within a time window, and the alert that they raise.
use dpdk_based_nids.Behavior.Scan.{
  port_scan_window, port_scan_threshold, max_tracked_ports, has_syn, new_scan_tracker, is_tracked,
  add_port_to_tracker, open_window, track_syn, track_packet, after_alert,
}
use dpdk_based_nids.Behavior.State.{PortScanTracker}
use dpdk_based_nids.Behavior.Trackers.{is_within_window}
use dpdk_based_nids.Prelude.{
  ℕ, ◌+◌, ◌≤◌, ◌<◌, ◌≡◌, refl, sym, ap, ◌∙◌, arith, inl, inr, Bool, true, false, not, Bool-cases,
  List, [], ◌∷◌, ◌++◌, append_assoc, append-nil, All, length, length-append, ltb, leb, ◌==◌, ==_iff,
  ◌&&◌, ◌||◌, if◌then◌else◌,
}

pub record ScanPacket : Type 0 where
  pub time : ℕ
  pub flags : ℕ
  pub port : ℕ

-- What `detect_port_scan` does to the tracker of a packet, and the number of alerts it raises.
unfoldable pub scan_packet : ScanPacket → PortScanTracker → PortScanTracker × ℕ
scan_packet p t =
    let (t', fired) = track_packet p.time p.flags p.port t in
    (after_alert p.flags fired t', if fired then 1 else 0)

unfoldable pub scan_packets : List ScanPacket → PortScanTracker → PortScanTracker × ℕ
scan_packets [] t = (t, 0)
scan_packets (p ∷ ps) t =
    let (t', n) = scan_packet p t in let (t'', m) = scan_packets ps t' in (t'', n + m)

-- The ports of the packets with SYN.
unfoldable pub syn_ports : List ScanPacket → List ℕ
syn_ports [] = []
syn_ports (p ∷ ps) = if has_syn p.flags then p.port ∷ syn_ports ps else syn_ports ps

-- No port stands twice in a list.
abbrev pub AreDistinct : List ℕ → Type 0
AreDistinct [] = Unit
AreDistinct (p ∷ ps) = (is_tracked p ps ≡ false) × AreDistinct ps

is_tracked-append :
    (p q : ℕ) (xs : List ℕ) → is_tracked p (xs ++ (q ∷ [])) ≡ (is_tracked p xs || (q == p))
unfolding is_tracked
is_tracked-append p q [] = go (q == p)
  where
    go : (b : Bool) → (if b then true else false) ≡ b
    go true = refl
    go false = refl
is_tracked-append p q (x ∷ xs) =
    go (x == p) (is_tracked p (xs ++ (q ∷ []))) (is_tracked p xs) (is_tracked-append p q xs)
  where
    go :
        (b y z : Bool)
        → y ≡ (z || (q == p))
        → (if b then true else y) ≡ ((if b then true else z) || (q == p))
    go true y z e = refl
    go false y z e = e

if_false : (a b : Bool) → (if a then true else b) ≡ false → (a ≡ false) × (b ≡ false)
if_false true b h = absurd (ground (arith, h))
if_false false b h = (refl, h)

append-AreDistinct :
    (xs : List ℕ) (q : ℕ) → AreDistinct xs → is_tracked q xs ≡ false → AreDistinct (xs ++ (q ∷ []))
unfolding is_tracked
append-AreDistinct [] q d new = (refl, tt)
append-AreDistinct (x ∷ xs) q d new =
    let (other, new') = if_false (x == q) (is_tracked q xs) new in
    let other' : (q == x) ≡ false = ground (arith, other) in
    (is_tracked-append x q xs ∙ rw (d.0, other') refl, append-AreDistinct xs q d.1 new')

-- A tracker in a window that started at `start`, when the ports `qs` have been contacted.
record IsTracking (start : ℕ) (qs : List ℕ) (t : PortScanTracker) : Type 0 where
  began : t.first_seen ≡ start
  distinct : AreDistinct t.ports_contacted
  same : (p : ℕ) → is_tracked p t.ports_contacted ≡ is_tracked p qs
  few : length t.ports_contacted ≤ length qs
  marked : t.alerted ≡ leb port_scan_threshold (length t.ports_contacted)

or_false : (b : Bool) → b ≡ (b || false)
or_false true = refl
or_false false = refl

-- Adding a port to distinct ports.
record IsAdded (port : ℕ) (ports : List ℕ) (r : Bool × List ℕ) : Type 0 where
  distinct : AreDistinct r.1
  tracked : (p : ℕ) → is_tracked p r.1 ≡ (is_tracked p ports || (port == p))
  grown : length r.1 ≡ length ports + (if r.0 then 1 else 0)

add_port_to_tracker-IsAdded :
    (port : ℕ) (ports : List ℕ)
    → AreDistinct ports
    → length ports < max_tracked_ports
    → IsAdded port ports (add_port_to_tracker port ports)
unfolding add_port_to_tracker
add_port_to_tracker-IsAdded port ports d room =
    let space : ltb (length ports) max_tracked_ports ≡ true = ground arith in
    elim (Bool-cases (is_tracked port ports)) [
      | inl known ↦ rw known (record {
        distinct = d;
        tracked = λ p. elim (Bool-cases (port == p)) [
          | inl same ↦
              let e : port ≡ p = (==_iff port p).0 same in
              let k : is_tracked p ports ≡ true = rw e at known in rw k refl
          | inr other ↦ rw other (or_false (is_tracked p ports))
        ];
        grown = omega arith;
      })
      | inr unknown ↦
          rw (unknown, space)
            (record {
              distinct = append-AreDistinct ports port d unknown;
              tracked = λ p. is_tracked-append p port ports;
              grown = length-append ports (port ∷ []);
            })
    ]

abbrev as_number : Bool → ℕ
as_number b = if b then 1 else 0

-- The mark is set exactly from the threshold on, and one alert sets it.
mark_lem :
    (new_port alerted : Bool) (n m : ℕ)
    → m ≡ n + (if new_port then 1 else 0)
    → alerted ≡ leb port_scan_threshold n
    → (if new_port && leb port_scan_threshold m && not alerted then true else alerted)
      ≡ leb port_scan_threshold m
mark_lem true true n m grown marked = ground (arith, marked)
mark_lem true false n m grown marked = ground (arith, marked)
mark_lem false alerted n m grown marked = let e : m ≡ n = omega arith in rw e marked

alert_once :
    (reached alerted : Bool)
    → as_number (reached && not alerted) + as_number alerted
      ≡ as_number (if reached && not alerted then true else alerted)
alert_once true true = omega arith
alert_once true false = omega arith
alert_once false alerted = omega arith

-- One packet in the window.
module _ (start : ℕ) (qs : List ℕ) (t : PortScanTracker) (h : IsTracking start qs t)
    (p : ScanPacket) (within : p.time ≤ start + port_scan_window)
    (room : length qs < max_tracked_ports) where
  open_window_lem : open_window p.time t ≡ t
  unfolding open_window
  open_window_lem =
      let inside : is_within_window p.time t.first_seen port_scan_window ≡ true =
        ground (arith, h.began) in
      rw inside refl

  -- What the packet does if it has SYN, and if not.
  track_packet-syn :
      has_syn p.flags ≡ true
      → track_packet p.time p.flags p.port t
        ≡ track_syn p.flags p.port (record t { last_seen = p.time })
  unfolding track_packet
  track_packet-syn syn = rw open_window_lem (rw syn refl)

  track_packet-other :
      has_syn p.flags ≡ false
      → track_packet p.time p.flags p.port t ≡ (record t { last_seen = p.time }, false)
  unfolding track_packet
  track_packet-other other = rw open_window_lem (rw other refl)

  -- The tracker behind the packet, and whether there has been an alert.
  abbrev Tracked : List ℕ → PortScanTracker × ℕ → Type 0
  Tracked rs r = IsTracking start rs r.0 × (r.1 + as_number t.alerted ≡ as_number r.0.alerted)

  scan_packet-syn : has_syn p.flags ≡ true → Tracked (qs ++ (p.port ∷ [])) (scan_packet p t)
  unfolding scan_packet track_syn after_alert
  scan_packet-syn syn =
      let (new_port, ports) = add_port_to_tracker p.port t.ports_contacted in
      let a =
        add_port_to_tracker-IsAdded p.port t.ports_contacted h.distinct (omega (arith, h.few)) in
      rw (track_packet-syn syn) (
        record {
          began = h.began;
          distinct = a.distinct;
          same = λ q.
              a.tracked q
              ∙ ap (λ b. b || (p.port == q)) (h.same q)
              ∙ sym (is_tracked-append q p.port qs);
          few = ground (arith, a.grown, h.few, length-append qs (p.port ∷ []));
          marked =
              mark_lem new_port t.alerted (length t.ports_contacted) (length ports) a.grown
                h.marked;
        },
        alert_once (new_port && leb port_scan_threshold (length ports)) t.alerted,
      )

  scan_packet-other : has_syn p.flags ≡ false → Tracked qs (scan_packet p t)
  unfolding scan_packet after_alert
  scan_packet-other other = rw (track_packet-other other) (
    record {
      began = h.began;
      distinct = h.distinct;
      same = h.same;
      few = h.few;
      marked = h.marked;
    },
    omega arith,
  )

-- Any packets, as many as the array has room for.
scan_packets-IsTracking :
    (start : ℕ) (ps : List ScanPacket) (qs : List ℕ) (t : PortScanTracker)
    → IsTracking start qs t
    → All (λ p. p.time ≤ start + port_scan_window) ps
    → length qs + length ps ≤ max_tracked_ports
    → let r = scan_packets ps t in
      IsTracking start (qs ++ syn_ports ps) r.0
      × (r.1 + as_number t.alerted ≡ as_number r.0.alerted)
unfolding scan_packets syn_ports
scan_packets-IsTracking start [] qs t h within room = (rw (append-nil qs) h, omega arith)
scan_packets-IsTracking start (p ∷ ps) qs t h within room = elim (Bool-cases (has_syn p.flags)) [
  | inl syn ↦
      let (h', n) = scan_packet-syn start qs t h p within.0 (omega arith) syn in
      let (k, m) =
        scan_packets-IsTracking start ps (qs ++ (p.port ∷ [])) (scan_packet p t).0 h' within.1
          (omega (arith, length-append qs (p.port ∷ []))) in
      rw syn (rw (append_assoc qs (p.port ∷ []) (syn_ports ps)) at k, omega (arith, n, m))
  | inr other ↦
      let (h', n) = scan_packet-other start qs t h p within.0 (omega arith) other in
      let (k, m) =
        scan_packets-IsTracking start ps qs (scan_packet p t).0 h' within.1 (omega arith) in
      rw other (k, omega (arith, n, m))
]

-- From a new tracker on, over at most 1024 packets within 60 seconds, the tracker holds exactly
-- the destination ports of the packets with SYN, each once, and there has been one alert if these
-- are at least ten ports, and none if they are fewer.
pub scan_packets_lem :
    (src_ip start : ℕ) (ps : List ScanPacket)
    → All (λ p. p.time ≤ start + port_scan_window) ps
    → length ps ≤ max_tracked_ports
    → let (t, alerts) = scan_packets ps (new_scan_tracker src_ip start) in
      AreDistinct t.ports_contacted
      × ((p : ℕ) → is_tracked p t.ports_contacted ≡ is_tracked p (syn_ports ps))
      × (alerts ≡ (if leb port_scan_threshold (length t.ports_contacted) then 1 else 0))
unfolding new_scan_tracker
scan_packets_lem src_ip start ps within few =
    let new : IsTracking start [] (new_scan_tracker src_ip start) = record {
      began = refl;
      distinct = tt;
      same = λ p. refl;
      few = omega arith;
      marked = refl;
    } in
    let (h, n) =
      scan_packets-IsTracking start ps [] (new_scan_tracker src_ip start) new within
        (omega arith) in
    (h.distinct, h.same, omega (arith, n) ∙ ap as_number h.marked)
