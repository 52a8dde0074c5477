-- ===== src/Detect/Registry.antt =====
-- The lists that src/proto_detect.c keeps of patterns and probers, and the patterns that
-- src/proto_http.c registers.
pub mod Usable
use dpdk_based_nids.Detect.State.{AppProto, http, ProtoPattern, ProtoProber, DetectCtx}
use dpdk_based_nids.Prelude.{
  ℕ, ◌+◌, Bool, true, false, List, [], ◌∷◌, ◌==◌, if◌then◌else◌, length, add64,
}

-- `global_patterns_ts`, `global_patterns_tc`, `global_probers`, `global_stats`, and the number of
-- calls of DPDK's allocator so far.
pub record Registry : Type 0 where
  pub patterns_ts : List ProtoPattern
  pub patterns_tc : List ProtoPattern
  pub probers : List ProtoProber
  pub patterns_registered : ℕ
  pub probers_registered : ℕ
  pub allocations : ℕ

-- The return value, true for 0, and the registry.
abbrev pub Registered : Type 0
Registered = Bool × Registry

abbrev pub one_allocation : Registry → Registry
one_allocation r = record r { allocations = r.allocations + 1 }

abbrev pub count_registered : Registry → Registry
count_registered r = record r { patterns_registered = add64 r.patterns_registered 1 }

-- GET, POST, PUT, DELETE, HEAD, OPTIONS, TRACE, CONNECT and PATCH, each with a space, in ASCII.
abbrev pub http_methods : List (List ℕ)
http_methods =
    (71 ∷ 69 ∷ 84 ∷ 32 ∷ [])
    ∷ (80 ∷ 79 ∷ 83 ∷ 84 ∷ 32 ∷ [])
    ∷ (80 ∷ 85 ∷ 84 ∷ 32 ∷ [])
    ∷ (68 ∷ 69 ∷ 76 ∷ 69 ∷ 84 ∷ 69 ∷ 32 ∷ [])
    ∷ (72 ∷ 69 ∷ 65 ∷ 68 ∷ 32 ∷ [])
    ∷ (79 ∷ 80 ∷ 84 ∷ 73 ∷ 79 ∷ 78 ∷ 83 ∷ 32 ∷ [])
    ∷ (84 ∷ 82 ∷ 65 ∷ 67 ∷ 69 ∷ 32 ∷ [])
    ∷ (67 ∷ 79 ∷ 78 ∷ 78 ∷ 69 ∷ 67 ∷ 84 ∷ 32 ∷ [])
    ∷ (80 ∷ 65 ∷ 84 ∷ 67 ∷ 72 ∷ 32 ∷ [])
    ∷ []

-- HTTP/1.0, HTTP/1.1 and HTTP/2.
abbrev pub http_versions : List (List ℕ)
http_versions =
    (72 ∷ 84 ∷ 84 ∷ 80 ∷ 47 ∷ 49 ∷ 46 ∷ 48 ∷ [])
    ∷ (72 ∷ 84 ∷ 84 ∷ 80 ∷ 47 ∷ 49 ∷ 46 ∷ 49 ∷ [])
    ∷ (72 ∷ 84 ∷ 84 ∷ 80 ∷ 47 ∷ 50 ∷ [])
    ∷ []

module _ (grants : ℕ → Bool) where
  -- The copy of the entry for the second list; without memory it is left out.
  abbrev pub add_copy : Bool → ProtoPattern → Registry → Registry
  add_copy true e r = record (one_allocation r) { patterns_tc = e ∷ r.patterns_tc }
  add_copy false e r = one_allocation r

  -- The two bits of `direction`: to the server, to the client.
  unfoldable pub add_entry : Bool → Bool → ProtoPattern → Registry → Registry
  add_entry true true e r =
      add_copy (grants r.allocations) e (record r { patterns_ts = e ∷ r.patterns_ts })
  add_entry true false e r = record r { patterns_ts = e ∷ r.patterns_ts }
  add_entry false true e r = record r { patterns_tc = e ∷ r.patterns_tc }
  add_entry false false e r = r

  -- The second allocation, for the bytes of the pattern.
  unfoldable pub add_with_bytes : Bool → Bool → Bool → ProtoPattern → Registry → Registered
  add_with_bytes true ts tc e r = (true, count_registered (add_entry ts tc e (one_allocation r)))
  add_with_bytes false ts tc e r = (false, one_allocation r)

  -- The first allocation, for the entry.
  unfoldable pub add_allocated : Bool → Bool → Bool → ProtoPattern → Registry → Registered
  add_allocated true ts tc e r =
      add_with_bytes (grants (r.allocations + 1)) ts tc e (one_allocation r)
  add_allocated false ts tc e r = (false, one_allocation r)

  -- The arguments but `direction` are those of the entry; its pattern is not NULL.
  unfoldable pub proto_detect_register_pattern : ProtoPattern → Bool → Bool → Registry → Registered
  proto_detect_register_pattern e ts tc r =
      if length e.pattern == 0 then (false, r) else add_allocated (grants r.allocations) ts tc e r

  -- The entry's function is not NULL.
  unfoldable pub proto_detect_register_prober : ProtoProber → Registry → Registered
  proto_detect_register_prober e r =
      if grants r.allocations
      then (
        true,
        record r {
          probers = e ∷ r.probers;
          probers_registered = add64 r.probers_registered 1;
          allocations = r.allocations + 1;
        },
      )
      else (false, one_allocation r)

  -- One of the two loops of `proto_detect_register_http`.
  unfoldable pub register_all : List (List ℕ) → ℕ → Bool → Bool → Registry → Registry
  register_all [] depth ts tc r = r
  register_all (p ∷ ps) depth ts tc r =
      register_all ps depth ts tc
        (proto_detect_register_pattern
          (record {
            protocol = http;
            pattern = p;
            depth = depth;
            offset = 0;
            case_sensitive = false;
          })
          ts tc r).1

  unfoldable pub proto_detect_register_http : Registry → Registered
  proto_detect_register_http r =
      (true, register_all http_versions 16 false true (register_all http_methods 8 true false r))

-- A context takes the lists as they are when it is created. `none` of the real function, for want
-- of memory, is not modelled.
unfoldable pub proto_detect_ctx_create : Registry → DetectCtx
proto_detect_ctx_create r = record {
  patterns_ts = r.patterns_ts;
  patterns_tc = r.patterns_tc;
  probers = r.probers;
  by_pattern = 0;
  by_prober = 0;
  by_port = 0;
  failures = 0;
}

unfoldable pub proto_detect_cleanup : Registry → Registry
proto_detect_cleanup r = record r { patterns_ts = []; patterns_tc = []; probers = [] }
