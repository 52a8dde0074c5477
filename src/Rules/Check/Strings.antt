-- ===== src/Rules/Check/Strings.antt =====
-- Which strings of an HTTP request a rule is about, said without the search of the code.
use dpdk_based_nids.Prelude.{
  ℕ, ◌≡◌, refl, Bool, true, false, List, [], ◌∷◌, ◌++◌, All, Option, none, some, if◌then◌else◌,
}
use dpdk_based_nids.Rules.Check.Looked.{to_list, header_looked_at, looked_at}
use dpdk_based_nids.Rules.Check.{has_name, http_find_header}
use dpdk_based_nids.Rules.State.{DetectionRule, HttpHeader, HttpRequest, RuleLibc}

-- The request's URI, if the rule checks it and there is one.
pub data UriOf (rule : DetectionRule) (req : HttpRequest) (strings : List (List ℕ)) : Type 0 where
  unchecked : rule.check_uri ≡ false → strings ≡ [] → UriOf rule req strings
  no_uri : rule.check_uri ≡ true → req.uri ≡ none → strings ≡ [] → UriOf rule req strings
  its_uri :
      (uri : List ℕ)
      → rule.check_uri ≡ true
      → req.uri ≡ some uri
      → strings ≡ uri ∷ []
      → UriOf rule req strings

-- The value of the first header with the target's name, if the rule checks headers and has a
-- target, and there is such a header and it has a value.
pub data HeaderOf (c : RuleLibc) (rule : DetectionRule) (req : HttpRequest)
    (strings : List (List ℕ)) : Type 0 where
  unchecked : rule.check_headers ≡ false → strings ≡ [] → HeaderOf c rule req strings
  no_target : rule.target_header ≡ none → strings ≡ [] → HeaderOf c rule req strings
  no_header :
      (target : List ℕ)
      → rule.target_header ≡ some target
      → All (λ h. has_name c h.name target ≡ false) req.headers
      → strings ≡ []
      → HeaderOf c rule req strings
  no_value :
      (target : List ℕ) (before after : List HttpHeader) (h : HttpHeader)
      → rule.target_header ≡ some target
      → req.headers ≡ before ++ (h ∷ after)
      → All (λ h. has_name c h.name target ≡ false) before
      → has_name c h.name target ≡ true
      → h.value ≡ none
      → strings ≡ []
      → HeaderOf c rule req strings
  its_value :
      (target : List ℕ) (before after : List HttpHeader) (h : HttpHeader) (value : List ℕ)
      → rule.check_headers ≡ true
      → rule.target_header ≡ some target
      → req.headers ≡ before ++ (h ∷ after)
      → All (λ h. has_name c h.name target ≡ false) before
      → has_name c h.name target ≡ true
      → h.value ≡ some value
      → strings ≡ value ∷ []
      → HeaderOf c rule req strings

-- A rule is about the URI and the header's value, in that order; about nothing without a request.
abbrev pub IsAbout : RuleLibc → DetectionRule → Option HttpRequest → List (List ℕ) → Type 0
IsAbout c rule none strings = (strings ≡ [])
IsAbout c rule (some req) strings =
    (us : List (List ℕ)) × (hs : List (List ℕ)) × UriOf rule req us
    × HeaderOf c rule req hs
    × (strings ≡ us ++ hs)

uri_lem :
    (rule : DetectionRule) (req : HttpRequest) (us : List (List ℕ))
    → UriOf rule req us
    → (if rule.check_uri then to_list req.uri else []) ≡ us
uri_lem rule req us (unchecked off e) = rw (off, e) refl
uri_lem rule req us (no_uri on missing e) = rw (on, missing, e) refl
uri_lem rule req us (its_uri uri on there e) = rw (on, there, e) refl

module _ (c : RuleLibc) (target : List ℕ) where
  no_header_found :
      (hs : List HttpHeader)
      → All (λ h. has_name c h.name target ≡ false) hs
      → http_find_header c hs target ≡ none
  unfolding http_find_header
  no_header_found [] misses = refl
  no_header_found (h ∷ hs) misses = rw (misses.0) (no_header_found hs misses.1)

  first_header_found :
      (before after : List HttpHeader) (h : HttpHeader)
      → All (λ h. has_name c h.name target ≡ false) before
      → has_name c h.name target ≡ true
      → http_find_header c (before ++ (h ∷ after)) target ≡ some h
  unfolding http_find_header
  first_header_found [] after h misses hit = rw hit refl
  first_header_found (b ∷ before) after h misses hit =
      rw (misses.0) (first_header_found before after h misses.1 hit)

if_same {ℓ} : {A : Type ℓ} (b : Bool) (x : A) → (if b then x else x) ≡ x
if_same true x = refl
if_same false x = refl

header_lem :
    (c : RuleLibc) (rule : DetectionRule) (req : HttpRequest) (hs : List (List ℕ))
    → HeaderOf c rule req hs
    → header_looked_at c rule.target_header rule.check_headers req ≡ hs
unfolding header_looked_at
header_lem c rule req hs (unchecked off e) = rw (off, e) (without_check rule.target_header)
  where
    without_check : (target : Option (List ℕ)) → header_looked_at c target false req ≡ []
    without_check none = refl
    without_check (some target) = refl
header_lem c rule req hs (no_target none_set e) = rw (none_set, e) refl
header_lem c rule req hs (no_header target set misses e) =
    rw (set, e, no_header_found c target req.headers misses) (if_same rule.check_headers [])
header_lem c rule req hs (no_value target before after h set split misses hit missing e) =
    rw (set, e, split, first_header_found c target before after h misses hit, missing)
      (if_same rule.check_headers [])
header_lem c rule req hs (its_value target before after h value on set split misses hit there e) =
    rw (set, e, split, on, first_header_found c target before after h misses hit, there) refl

-- The strings that the rule is about are those that the code looks at.
pub looked_at-IsAbout :
    (c : RuleLibc) (rule : DetectionRule) (request : Option HttpRequest) (strings : List (List ℕ))
    → IsAbout c rule request strings
    → looked_at c rule request ≡ strings
unfolding looked_at
looked_at-IsAbout c rule none strings e = rw e refl
looked_at-IsAbout c rule (some req) strings (us, hs, u, h, e) =
    rw (uri_lem rule req us u, header_lem c rule req hs h, e) refl
