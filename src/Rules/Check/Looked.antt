-- ===== src/Rules/Check/Looked.antt =====
-- What the checks of a rule look at, and what they answer and write.
use dpdk_based_nids.Dns.State.{DnsQuestion}
use dpdk_based_nids.Prelude.{
  ℕ, ◌≡◌, refl, sym, ap, arith, ◌<◌, ◌+◌, length, length-append, take, ◌∙◌, Bool, true, false, not,
  List, [], ◌∷◌, ◌++◌, Option, none, some, ◌==◌, ◌&&◌, ◌||◌, if◌then◌else◌,
}
use dpdk_based_nids.Rules.Check.{
  Checked, print_to, uri_label, colon, all_match, examine, examine_value, http_find_header,
  value_of, examine_uri, examine_header, examine_request,
}
use dpdk_based_nids.Rules.State.{RuleCondition, DetectionRule, HttpRequest, RuleLibc}

-- The strings that a rule looks at: those of the fields that it names and that there are.
abbrev pub to_list : Option (List ℕ) → List (List ℕ)
to_list none = []
to_list (some s) = s ∷ []

and_assoc : (a b d : Bool) → ((a && b) && d) ≡ (a && (b && d))
and_assoc true b d = refl
and_assoc false b d = refl

and_true : (b : Bool) → b ≡ (b && true)
and_true true = refl
and_true false = refl

pub and_left : (a b : Bool) → (a && b) ≡ true → a ≡ true
and_left true b h = refl
and_left false b h = h

pub and_right : (a b : Bool) → (a && b) ≡ true → b ≡ true
and_right true b h = h
and_right false b h = absurd (ground (arith, h))

pub if_and : (a b : Bool) → (if a then b else false) ≡ true → (a ≡ true) × (b ≡ true)
if_and true b h = (refl, h)
if_and false b h = absurd (ground (arith, h))

-- Of two lists that are not both empty, the one that is not.
written_of :
    {W : Type 0} (ss ts : List (List ℕ))
    → length (ss ++ ts) ≡ length ss + length ts
    → (0 < length ss → W)
    → (0 < length ts → W)
    → 0 < length (ss ++ ts)
    → W
written_of (s ∷ ss) ts size f g pos = f (omega arith)
written_of [] ts size f g pos = g pos

if-written :
    (b : Bool) (o d : Option (List ℕ)) (s : List ℕ)
    → o ≡ some s
    → b ≡ true
    → (t : List ℕ) × ((if b then o else d) ≡ some t)
if-written true o d s e h = (s, e)
if-written false o d s e h = absurd (ground (arith, h))

module _ (c : RuleLibc) where
  unfoldable pub header_looked_at : Option (List ℕ) → Bool → HttpRequest → List (List ℕ)
  header_looked_at none checked req = []
  header_looked_at (some target) checked req =
      if checked then to_list (value_of c (http_find_header c req.headers target)) else []

  unfoldable pub looked_at : DetectionRule → Option HttpRequest → List (List ℕ)
  looked_at rule none = []
  looked_at rule (some req) =
      (if rule.check_uri then to_list req.uri else [])
      ++ header_looked_at rule.target_header rule.check_headers req

  -- All conditions hold of all strings.
  unfoldable pub hold_of : List RuleCondition → List (List ℕ) → Bool
  hold_of conds [] = true
  hold_of conds (s ∷ ss) = all_match c conds s && hold_of conds ss

  unfoldable pub query_looked_at : Bool → List DnsQuestion → List (List ℕ)
  query_looked_at true (q ∷ qs) = q.qname ∷ []
  query_looked_at _ _ = []

  -- The filter on the type of a question lets the first question through.
  unfoldable pub is_asked : DetectionRule → List DnsQuestion → Bool
  is_asked rule [] = true
  is_asked rule (q ∷ qs) = (rule.qtype == 0) || (q.qtype == rule.qtype)

  hold_of-append :
      (conds : List RuleCondition) (ss ts : List (List ℕ))
      → hold_of conds (ss ++ ts) ≡ (hold_of conds ss && hold_of conds ts)
  unfolding hold_of
  hold_of-append conds [] ts = refl
  hold_of-append conds (s ∷ ss) ts =
      ap (λ b. all_match c conds s && b) (hold_of-append conds ss ts)
      ∙ sym (and_assoc (all_match c conds s) (hold_of conds ss) (hold_of conds ts))

  -- After looking at strings: the answer, and that the buffer has been written if it is true.
  pub record IsLooked (conds : List RuleCondition) (ss : List (List ℕ)) (r r' : Checked)
      : Type 0 where
    pub answered : r'.0 ≡ (r.0 && hold_of conds ss)
    pub written : r'.0 ≡ true → 0 < length ss → (s : List ℕ) × (r'.1 ≡ some s)
    pub kept : r'.0 ≡ true → (s : List ℕ) → r.1 ≡ some s → (t : List ℕ) × (r'.1 ≡ some t)

  pub examine-IsLooked :
      (conds : List RuleCondition) (label s : List ℕ) (r : Checked)
      → IsLooked conds (s ∷ []) r (examine c conds label s r)
  unfolding examine hold_of
  examine-IsLooked conds label s (b, d) =
      let all = b && all_match c conds s in
      let printed = print_to 255 (label ++ s) in
      record {
        answered = ap (λ x. b && x) (and_true (all_match c conds s));
        written = λ h pos. if-written all printed d (take 255 (label ++ s)) refl h;
        kept = λ h t e. if-written all printed d (take 255 (label ++ s)) refl h;
      }

  unlooked : (conds : List RuleCondition) (r : Checked) → IsLooked conds [] r r
  unfolding hold_of
  unlooked conds r = record {
    answered = and_true r.0;
    written = λ h pos. absurd (omega arith);
    kept = λ h s e. (s, e);
  }

  value-IsLooked :
      (chk : Bool) (conds : List RuleCondition) (label : List ℕ) (o : Option (List ℕ)) (r : Checked)
      → IsLooked conds
          (if chk then to_list o else [])
          r
          (if chk then examine_value c conds label o r else r)
  unfolding hold_of
  value-IsLooked true conds label (some s) r = examine-IsLooked conds label s r
  value-IsLooked true conds label none r = unlooked conds r
  value-IsLooked false conds label o r = unlooked conds r

  examine_append :
      (conds : List RuleCondition) (ss ts : List (List ℕ)) (r r' r'' : Checked)
      → IsLooked conds ss r r'
      → IsLooked conds ts r' r''
      → IsLooked conds (ss ++ ts) r r''
  examine_append conds ss ts r r' r'' h k =
      let held : r''.0 ≡ true → r'.0 ≡ true =
        λ e. and_left r'.0 (hold_of conds ts) (sym k.answered ∙ e) in
      record {
        answered =
            k.answered
            ∙ ap (λ b. b && hold_of conds ts) h.answered
            ∙ and_assoc r.0 (hold_of conds ss) (hold_of conds ts)
            ∙ ap (λ b. r.0 && b) (sym (hold_of-append conds ss ts));
        written = λ e pos.
            written_of ss ts (length-append ss ts)
              (λ q. k.kept e (h.written (held e) q).0 (h.written (held e) q).1) (k.written e) pos;
        kept = λ e s g. let (t, g') = h.kept (held e) s g in k.kept e t g';
      }

  header-IsLooked :
      (target : Option (List ℕ)) (rule : DetectionRule) (req : HttpRequest) (r : Checked)
      → IsLooked rule.conditions
          (header_looked_at target rule.check_headers req)
          r
          (examine_header c target rule req r)
  unfolding examine_header header_looked_at
  header-IsLooked none rule req r = unlooked rule.conditions r
  header-IsLooked (some target) rule req r =
      value-IsLooked rule.check_headers rule.conditions (target ++ colon)
        (value_of c (http_find_header c req.headers target)) r

  pub request-IsLooked :
      (rule : DetectionRule) (o : Option HttpRequest) (r : Checked)
      → IsLooked rule.conditions (looked_at rule o) r (examine_request c rule o r)
  unfolding examine_request looked_at examine_uri
  request-IsLooked rule none r = unlooked rule.conditions r
  request-IsLooked rule (some req) r =
      let r' = examine_uri c rule req r in
      examine_append rule.conditions (if rule.check_uri then to_list req.uri else [])
        (header_looked_at rule.target_header rule.check_headers req) r r'
        (examine_header c rule.target_header rule req r')
        (value-IsLooked rule.check_uri rule.conditions uri_label req.uri r)
        (header-IsLooked rule.target_header rule req r')

  -- The filter before a look at a string.
  pub filtered :
      (a b : Bool) (conds : List RuleCondition) (s : List ℕ) (d : Option (List ℕ)) (r : Checked)
      → IsLooked conds (s ∷ []) (true, d) r
      → let r' = if not a && not b then (false, d) else r in
        (r'.0 ≡ ((a || b) && hold_of conds (s ∷ [])))
        × (r'.0 ≡ true → (t : List ℕ) × (r'.1 ≡ some t))
  filtered true b conds s d r h = (h.answered, λ e. h.written e (omega arith))
  filtered false true conds s d r h = (h.answered, λ e. h.written e (omega arith))
  filtered false false conds s d r h = (refl, λ e. absurd (ground (arith, e)))
