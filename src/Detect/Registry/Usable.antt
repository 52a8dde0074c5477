-- ===== src/Detect/Registry/Usable.antt =====
-- A registry whose patterns and probers make detection read only the data.
use dpdk_based_nids.Detect.Engine.{is_unknown, Detected, proto_detect_get_proto}
use dpdk_based_nids.Flow.State.{Flow}
use dpdk_based_nids.Detect.Registry.{
  Registry, add_copy, add_entry, add_with_bytes, add_allocated, proto_detect_register_pattern,
  proto_detect_register_prober, http_methods, http_versions, register_all,
  proto_detect_register_http, proto_detect_ctx_create,
}
use dpdk_based_nids.Detect.State.{http, ProtoPattern, ProtoProber, DetectConfig}
use dpdk_based_nids.Detect.Verdict.{IsUsable, IsSafe, proto_detect_get_proto-ends}
use dpdk_based_nids.Prelude.{
  ℕ, ◌+◌, ◌^◌, ◌≤◌, ◌<◌, ◌≡◌, arith, inr, Bool, true, false, not, List, [], ◌∷◌, All, length, ◌==◌,
  if◌then◌else◌, ok,
}

-- The patterns and the probers are such.
pub record HasUsable (r : Registry) : Type 0 where
  pub safe : All IsSafe r.probers
  pub ts_usable : All IsUsable r.patterns_ts
  pub tc_usable : All IsUsable r.patterns_tc

if-HasUsable :
    (b : Bool) (r : Bool × Registry) (s : Bool × Registry)
    → HasUsable r.1
    → HasUsable s.1
    → HasUsable (if b then r else s).1
if-HasUsable true r s h k = h
if-HasUsable false r s h k = k

module _ (grants : ℕ → Bool) (e : ProtoPattern) (u : IsUsable e) where
  add_copy-HasUsable : (b : Bool) (r : Registry) → HasUsable r → HasUsable (add_copy grants b e r)
  add_copy-HasUsable true r h = record {
    safe = h.safe;
    ts_usable = h.ts_usable;
    tc_usable = (u, h.tc_usable);
  }
  add_copy-HasUsable false r h = record {
    safe = h.safe;
    ts_usable = h.ts_usable;
    tc_usable = h.tc_usable;
  }

  add_entry-HasUsable :
      (ts tc : Bool) (r : Registry) → HasUsable r → HasUsable (add_entry grants ts tc e r)
  unfolding add_entry
  add_entry-HasUsable true true r h =
      add_copy-HasUsable (grants r.allocations) _
        (record { safe = h.safe; ts_usable = (u, h.ts_usable); tc_usable = h.tc_usable })
  add_entry-HasUsable true false r h = record {
    safe = h.safe;
    ts_usable = (u, h.ts_usable);
    tc_usable = h.tc_usable;
  }
  add_entry-HasUsable false true r h = record {
    safe = h.safe;
    ts_usable = h.ts_usable;
    tc_usable = (u, h.tc_usable);
  }
  add_entry-HasUsable false false r h = h

  add_with_bytes-HasUsable :
      (b ts tc : Bool) (r : Registry)
      → HasUsable r
      → HasUsable (add_with_bytes grants b ts tc e r).1
  unfolding add_with_bytes
  add_with_bytes-HasUsable true ts tc r h =
      let k =
        add_entry-HasUsable ts tc (record r { allocations = r.allocations + 1 })
          (record { safe = h.safe; ts_usable = h.ts_usable; tc_usable = h.tc_usable }) in
      record { safe = k.safe; ts_usable = k.ts_usable; tc_usable = k.tc_usable }
  add_with_bytes-HasUsable false ts tc r h = record {
    safe = h.safe;
    ts_usable = h.ts_usable;
    tc_usable = h.tc_usable;
  }

  add_allocated-HasUsable :
      (b ts tc : Bool) (r : Registry) → HasUsable r → HasUsable (add_allocated grants b ts tc e r).1
  unfolding add_allocated
  add_allocated-HasUsable true ts tc r h =
      add_with_bytes-HasUsable (grants (r.allocations + 1)) ts tc _
        (record { safe = h.safe; ts_usable = h.ts_usable; tc_usable = h.tc_usable })
  add_allocated-HasUsable false ts tc r h = record {
    safe = h.safe;
    ts_usable = h.ts_usable;
    tc_usable = h.tc_usable;
  }

  register_pattern-HasUsable :
      (ts tc : Bool) (r : Registry)
      → HasUsable r
      → HasUsable (proto_detect_register_pattern grants e ts tc r).1
  unfolding proto_detect_register_pattern
  register_pattern-HasUsable ts tc r h =
      if-HasUsable (length e.pattern == 0) (false, r) _ h
        (add_allocated-HasUsable (grants r.allocations) ts tc r h)

register_all-HasUsable :
    (grants : ℕ → Bool) (ps : List (List ℕ)) (depth : ℕ) (ts tc : Bool) (r : Registry)
    → HasUsable r
    → HasUsable (register_all grants ps depth ts tc r)
unfolding register_all
register_all-HasUsable grants [] depth ts tc r h = h
register_all-HasUsable grants (p ∷ ps) depth ts tc r h =
    let e : ProtoPattern = record {
      protocol = http;
      pattern = p;
      depth = depth;
      offset = 0;
      case_sensitive = false;
    } in
    register_all-HasUsable grants ps depth ts tc _ (
      register_pattern-HasUsable grants e
        (record { ordered = inr (omega arith); small = omega arith }) ts tc r h)

pub register_http-HasUsable :
    (grants : ℕ → Bool) (r : Registry)
    → HasUsable r
    → HasUsable (proto_detect_register_http grants r).1
unfolding proto_detect_register_http
register_http-HasUsable grants r h =
    register_all-HasUsable grants http_versions 16 false true
      (register_all grants http_methods 8 true false r)
      (register_all-HasUsable grants http_methods 8 true false r h)

-- Whatever memory there is, detection in a context created after the HTTP patterns have been
-- registered into a registry of usable patterns and safe probers reads only the data, ends, and
-- returns 0 exactly if it reports a protocol or failure.
pub register_http-ends :
    (grants : ℕ → Bool) (r : Registry) (tolower : ℕ → ℕ) (c : DetectConfig) (f : Flow)
    (mem : List ℕ) (len : ℕ) (toserver : Bool)
    → HasUsable r
    → len ≤ length mem
    → len < 2 ^ 32
    → let ctx = proto_detect_ctx_create (proto_detect_register_http grants r).1 in
      (d : Detected) × (proto_detect_get_proto tolower c ctx f mem len toserver ≡ ok d)
      × (d.0 ≡ not (is_unknown d.1.protocol))
unfolding proto_detect_ctx_create
register_http-ends grants r tolower c f mem len toserver h le small =
    let k = register_http-HasUsable grants r h in
    proto_detect_get_proto-ends tolower c
      (proto_detect_ctx_create (proto_detect_register_http grants r).1) f mem len toserver le small
      k.ts_usable k.tc_usable k.safe

pub register_prober-HasUsable :
    (grants : ℕ → Bool) (e : ProtoProber) (r : Registry)
    → IsSafe e
    → HasUsable r
    → HasUsable (proto_detect_register_prober grants e r).1
unfolding proto_detect_register_prober
register_prober-HasUsable grants e r safe h =
    if-HasUsable (grants r.allocations) _ _
      (record { safe = (safe, h.safe); ts_usable = h.ts_usable; tc_usable = h.tc_usable })
      (record { safe = h.safe; ts_usable = h.ts_usable; tc_usable = h.tc_usable })
