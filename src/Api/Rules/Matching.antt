-- ===== src/Api/Rules/Matching.antt =====
-- What a sync rule matches, against a description with no loops, early returns or errors.
use mathlib.Core.List.{append-nil, append_assoc}
use cluster_registry_control.Common.{
  String, ◌≡◌, refl, Bool, true, false, not, ◌&&◌, ◌||◌, ◌==◌, Option, none, some, List, [], ◌∷◌,
  ◌++◌, arith, Map, any, all, keep, is_some, is_empty, if◌then◌else◌, ok,
}
use cluster_registry_control.Api.Selector.{LabelSelector}
use cluster_registry_control.Api.Object.{Object, Value, Machinery}
use cluster_registry_control.Api.Rules.{
  ContentSelector, AnnotationSelector, SyncRuleMatch, SyncRule, ResourceSyncRuleSpec,
  from_annotations, MatchError, gvk_eq, value_fits, labels_found, annotations_found, content_fits,
  match_object, match_first, match_rule, match_rules, match_spec,
}

module _ (k : Machinery) where
  -- One selector against one set of labels or annotations.
  abbrev pub selects : LabelSelector → Map String → Bool
  selects s labels = elim (k.as_selector s) [ none ↦ false | some matches ↦ matches labels ]

  abbrev pub is_valid_selector : LabelSelector → Bool
  is_valid_selector s = is_some (k.as_selector s)

  abbrev pub has_content : (String → Option Value) → ContentSelector → Bool
  has_content json c = elim (json c.key) [ none ↦ false | some v ↦ value_fits c.value v ]

  -- The five criteria; an empty one is no restriction, and a cluster-wide object is in every
  -- namespace of the list.
  unfoldable pub fits : Object → (String → Option Value) → SyncRuleMatch → Bool
  fits obj json m =
      (m.object_key.name == "" || m.object_key.name == obj.name)
      && (m.object_key.namespace == "" || m.object_key.namespace == obj.namespace)
      && (is_empty m.namespaces
          || obj.namespace == ""
          || any (λ name. obj.namespace == name) m.namespaces)
      && (is_empty m.labels || any (λ s. selects s obj.labels) m.labels)
      && (is_empty m.annotations
          || any (λ s. selects (from_annotations s) obj.annotations) m.annotations)
      && all (has_content json) m.content

  -- Every selector of a match is one that the library accepts.
  abbrev pub has_valid_selectors : SyncRuleMatch → Bool
  has_valid_selectors m =
      all is_valid_selector m.labels
      && all (λ s. is_valid_selector (from_annotations s)) m.annotations

  labels_found-eq-any :
      (ss : List LabelSelector) (labels : Map String)
      → all is_valid_selector ss ≡ true
      → labels_found k ss labels ≡ ok (any (λ s. selects s labels) ss)
  unfolding labels_found
  labels_found-eq-any [] labels v = refl
  labels_found-eq-any (s ∷ ss) labels v = ground (arith, labels_found-eq-any ss labels)

  annotations_found-eq-any :
      (ss : List AnnotationSelector) (annotations : Map String) (b : Bool)
      → all (λ s. is_valid_selector (from_annotations s)) ss ≡ true
      → annotations_found k ss annotations b
        ≡ ok (b || any (λ s. selects (from_annotations s) annotations) ss)
  unfolding annotations_found
  annotations_found-eq-any [] annotations b v = ground arith
  annotations_found-eq-any (s ∷ ss) annotations b v = ground (
    arith,
    annotations_found-eq-any ss annotations true,
    annotations_found-eq-any ss annotations b,
  )

  content_fits-eq-all :
      (cs : List ContentSelector) (json : String → Option Value)
      → content_fits k cs json ≡ all (has_content json) cs
  unfolding content_fits
  content_fits-eq-all [] json = refl
  content_fits-eq-all (c ∷ cs) json = ground (arith, content_fits-eq-all cs json)

  module _ (obj : Object) (json : String → Option Value) (access : k.accessor obj ≡ true)
      (marshalled : k.marshal obj ≡ some json) where
    match_object-eq-fits :
        (m : SyncRuleMatch)
        → has_valid_selectors m ≡ true
        → match_object k m obj ≡ ok (fits obj json m)
    unfolding match_object fits
    match_object-eq-fits m v = ground (
      arith,
      labels_found-eq-any m.labels obj.labels,
      annotations_found-eq-any m.annotations obj.annotations false,
      content_fits-eq-all m.content json,
    )

    match_first-eq-any :
        (ms : List SyncRuleMatch)
        → all has_valid_selectors ms ≡ true
        → match_first k ms obj ≡ ok (any (fits obj json) ms)
    unfolding match_first
    match_first-eq-any [] v = refl
    match_first-eq-any (m ∷ ms) v = ground (arith, match_object-eq-fits m, match_first-eq-any ms)

  -- A rule with no match takes every object.
  abbrev pub rule_fits : Object → (String → Option Value) → SyncRule → Bool
  rule_fits obj json r = is_empty r.matches || any (fits obj json) r.matches

  abbrev pub has_valid_matches : SyncRule → Bool
  has_valid_matches r = all has_valid_selectors r.matches

  match_rules-eq-keep :
      (obj : Object) (json : String → Option Value)
      → k.accessor obj ≡ true
      → k.marshal obj ≡ some json
      → (rules matched : List SyncRule) → all has_valid_matches rules ≡ true
      → match_rules k rules obj matched ≡ (
        not (is_empty (matched ++ keep (rule_fits obj json) rules)),
        matched ++ keep (rule_fits obj json) rules,
        none,
      )
  unfolding match_rules match_rule
  match_rules-eq-keep obj json access marshalled [] matched v = rw (append-nil matched)
  match_rules-eq-keep obj json access marshalled (r ∷ rules) matched v = ground (
    arith,
    match_first-eq-any obj json access marshalled r.matches,
    match_rules-eq-keep obj json access marshalled rules matched,
    match_rules-eq-keep obj json access marshalled rules (matched ++ r ∷ []),
    append_assoc matched (r ∷ []) (keep (rule_fits obj json) rules),
  )

  -- For an object that can be read, and a rule whose selectors are all valid: an object of another
  -- kind is not matched; an object of the rule's kind is matched with exactly the rules that fit
  -- it, in their order, and counts as matched if there is one. There is no error.
  pub match_spec-eq-keep :
      (spec : ResourceSyncRuleSpec) (obj : Object) (json : String → Option Value)
      → k.accessor obj ≡ true
      → k.marshal obj ≡ some json
      → all has_valid_matches spec.rules ≡ true
      → match_spec k spec obj ≡ (
          let rules =
            if gvk_eq (k.convert_gvk obj.gvk) spec.gvk
            then keep (rule_fits obj json) spec.rules
            else [] in
          (not (is_empty rules), rules, none))
  unfolding match_spec
  match_spec-eq-keep spec obj json access marshalled v =
      ground (arith, match_rules-eq-keep obj json access marshalled spec.rules [])

  match_rules-error :
      (rules : List SyncRule) (obj : Object) (matched : List SyncRule) (e : MatchError)
      → (match_rules k rules obj matched).2 ≡ some e
      → (match_rules k rules obj matched).0 ≡ false
  unfolding match_rules
  match_rules-error [] obj matched e h = cc
  match_rules-error (r ∷ rules) obj matched e h = ground (
    arith,
    match_rules-error rules obj matched e,
    match_rules-error rules obj (matched ++ r ∷ []) e,
  )

  -- An error always comes with the answer that the object is not matched.
  pub match_spec-error :
      (spec : ResourceSyncRuleSpec) (obj : Object) (e : MatchError)
      → (match_spec k spec obj).2 ≡ some e
      → (match_spec k spec obj).0 ≡ false
  unfolding match_spec
  match_spec-error spec obj e h = ground (arith, match_rules-error spec.rules obj [] e)
