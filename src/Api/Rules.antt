-- ===== src/Api/Rules.antt =====
-- api/v1alpha1/resourcesyncrule_types.go and resourcesyncrule_match.go: which objects a sync rule
-- takes, and how it changes them.
pub mod Matching
pub mod Mutating
use cluster_registry_control.Common.{
  ℕ, String, Bool, true, false, not, ◌&&◌, ◌||◌, ◌==◌, Option, none, some, List, [], ◌∷◌, ◌++◌, Map,
  put_all, nat_beq, any, is_empty, if◌then◌else◌, Result, ok, err,
}
use cluster_registry_control.Api.Selector.{LabelSelectorRequirement, LabelSelector}
use cluster_registry_control.Api.Object.{GroupVersionKind, ℤ, pos, negsuc, Object, Value, Machinery}

pub record ObjectKey : Type 0 where
  pub name : String
  pub namespace : String

pub data IntOrString : Type 0 where
  int_val : ℤ → IntOrString
  str_val : String → IntOrString

pub record ContentSelector : Type 0 where
  pub key : String
  pub value : IntOrString

-- The values of an annotation selector are texts of a type of their own, `AnnotationValue`.
pub record AnnotationSelectorRequirement : Type 0 where
  pub key : String
  pub operator : String
  pub values : List String

pub record AnnotationSelector : Type 0 where
  pub match_annotations : Map String
  pub match_expressions : List AnnotationSelectorRequirement

pub record SyncRuleMatch : Type 0 where
  pub annotations : List AnnotationSelector
  pub content : List ContentSelector
  pub labels : List LabelSelector
  pub namespaces : List String
  pub object_key : ObjectKey

-- `AnnotationMutations` and `LabelMutations` have the same fields.
pub record MapMutations : Type 0 where
  pub add : Map String
  pub remove : List String

pub record Mutations : Type 0 where
  pub annotations : Option MapMutations
  pub gvk : Option GroupVersionKind
  pub labels : Option MapMutations
  pub overrides : List String  -- the overlay patches, as texts
  pub sync_status : Bool

pub record SyncRule : Type 0 where
  pub matches : List SyncRuleMatch
  pub mutations : Mutations

pub record ClusterFeatureMatch : Type 0 where
  pub feature_name : String
  pub match_labels : Map String
  pub match_expressions : List LabelSelectorRequirement

pub record ResourceSyncRuleSpec : Type 0 where
  pub cluster_feature_matches : List ClusterFeatureMatch
  pub gvk : GroupVersionKind
  pub rules : List SyncRule

abbrev pub no_gvk : GroupVersionKind
no_gvk = record { group = ""; version = ""; kind = "" }

abbrev pub no_mutations : MapMutations
no_mutations = record { add = []; remove = [] }

abbrev pub get_gvk : Mutations → GroupVersionKind
get_gvk m = elim m.gvk [ none ↦ no_gvk | some g ↦ g ]

abbrev pub get_annotations : Mutations → MapMutations
get_annotations m = elim m.annotations [ none ↦ no_mutations | some a ↦ a ]

abbrev pub get_labels : Mutations → MapMutations
get_labels m = elim m.labels [ none ↦ no_mutations | some l ↦ l ]

abbrev pub convert_match_expressions :
    List AnnotationSelectorRequirement → List LabelSelectorRequirement
convert_match_expressions [] = []
convert_match_expressions (r ∷ rs) =
    record { key = r.key; operator = r.operator; values = r.values } ∷ convert_match_expressions rs

-- The label selector that stands for an annotation selector.
abbrev pub from_annotations : AnnotationSelector → LabelSelector
from_annotations a = record {
  match_labels = a.match_annotations;
  match_expressions = convert_match_expressions a.match_expressions;
}

pub data MatchError : Type 0 where
  not_an_object invalid_labels invalid_annotations not_marshalled : MatchError

abbrev pub int_eq : ℤ → ℤ → Bool
int_eq (pos a) (pos b) = nat_beq a b
int_eq (negsuc a) (negsuc b) = nat_beq a b
int_eq _ _ = false

abbrev pub gvk_eq : GroupVersionKind → GroupVersionKind → Bool
gvk_eq g h = g.group == h.group && g.version == h.version && g.kind == h.kind

-- A part of `Match` that returns early on `false` or on an error.
infixr 30 ◌then_also◌
abbrev pub ◌then_also◌ : Result MatchError Bool → Result MatchError Bool → Result MatchError Bool
ok true then_also r = r
ok false then_also r = ok false
err e then_also r = err e

-- The test of a found value.
abbrev pub value_fits : IntOrString → Value → Bool
value_fits (int_val i) v = int_eq v.int i
value_fits (str_val s) v = v.string == s

-- One field of `GetMutatedGVK`.
abbrev pub override_text : String → String → String
override_text new old = if not (new == "") then new else old

module _ (k : Machinery) where
  -- The loop over the label selectors, which ends at the first that matches.
  unfoldable pub labels_found : List LabelSelector → Map String → Result MatchError Bool
  labels_found [] labels = ok false
  labels_found (s ∷ rest) labels = elim (k.as_selector s) [
    | none ↦ err invalid_labels
    | some matches ↦ if matches labels then ok true else labels_found rest labels
  ]

  -- The loop over the annotation selectors, which goes on after a match.
  unfoldable pub annotations_found :
      List AnnotationSelector → Map String → Bool → Result MatchError Bool
  annotations_found [] annotations found = ok found
  annotations_found (s ∷ rest) annotations found = elim (k.as_selector (from_annotations s)) [
    | none ↦ err invalid_annotations
    | some matches ↦
        annotations_found rest annotations (if matches annotations then true else found)
  ]

  unfoldable pub content_fits : List ContentSelector → (String → Option Value) → Bool
  content_fits [] json = true
  content_fits (c ∷ rest) json =
      let later = content_fits rest json in
      elim (json c.key) [
        | none ↦ false
        | some v ↦ if not (value_fits c.value v) then false else later
      ]

  unfoldable pub match_object : SyncRuleMatch → Object → Result MatchError Bool
  unfolding labels_found annotations_found content_fits
  match_object m obj =
      if not (k.accessor obj)
      then err not_an_object
      else ok (m.object_key.name == "" || m.object_key.name == obj.name)
        then_also ok (m.object_key.namespace == "" || m.object_key.namespace == obj.namespace)
        then_also (if not (is_empty m.namespaces) && not (obj.namespace == "")
            then ok (any (λ name. obj.namespace == name) m.namespaces)
            else ok true)
        then_also (if is_empty m.labels then ok true else labels_found m.labels obj.labels)
        then_also (if is_empty m.annotations
            then ok true
            else annotations_found m.annotations obj.annotations false)
        then_also (if is_empty m.content then ok true else elim (k.marshal obj) [
          | none ↦ err not_marshalled
          | some json ↦ ok (content_fits m.content json)
        ])

  -- The loop of `SyncRule.Match`.
  unfoldable pub match_first : List SyncRuleMatch → Object → Result MatchError Bool
  match_first [] obj = ok false
  match_first (m ∷ rest) obj =
      let later = match_first rest obj in
      elim (match_object m obj) [ ok b ↦ if b then ok true else later | err e ↦ err e ]

  unfoldable pub match_rule : SyncRule → Object → Result MatchError Bool
  match_rule r obj = if is_empty r.matches then ok true else match_first r.matches obj

  -- The loop of `ResourceSyncRuleSpec.Match`.
  unfoldable pub match_rules :
      List SyncRule → Object → List SyncRule → Bool × List SyncRule × Option MatchError
  match_rules [] obj matched = (not (is_empty matched), matched, none)
  match_rules (r ∷ rest) obj matched = elim (match_rule r obj) [
    | ok b ↦ match_rules rest obj (if b then matched ++ r ∷ [] else matched)
    | err e ↦ (false, matched, some e)
  ]

  unfoldable pub match_spec :
      ResourceSyncRuleSpec → Object → Bool × List SyncRule × Option MatchError
  match_spec r obj =
      if not (gvk_eq (k.convert_gvk obj.gvk) r.gvk)
      then (false, [], none)
      else match_rules r.rules obj []

  -- `GetMutatedGVK`.
  unfoldable pub get_mutated_gvk : List SyncRule → Bool → GroupVersionKind → Bool × GroupVersionKind
  get_mutated_gvk [] mutated gvk = (mutated, gvk)
  get_mutated_gvk (r ∷ rest) mutated gvk =
      let g = get_gvk r.mutations in
      let empty = k.gvk_empty g in
      get_mutated_gvk rest (if not empty then true else mutated) (
        if not empty
        then record {
          group = override_text g.group gvk.group;
          version = override_text g.version gvk.version;
          kind = override_text g.kind gvk.kind;
        }
        else gvk)

-- The loops of `GetMutationLabels` and `GetMutationAnnotations`.
unfoldable pub collect_mutations :
    (Mutations → MapMutations) → List SyncRule → MapMutations → MapMutations
collect_mutations part [] m = m
collect_mutations part (r ∷ rest) m = collect_mutations part rest (record {
  add = put_all (part r.mutations).add m.add;
  remove = m.remove ++ (part r.mutations).remove;
})

unfoldable pub get_mutation_labels : List SyncRule → MapMutations
unfolding collect_mutations
get_mutation_labels rules = collect_mutations (λ m. get_labels m) rules no_mutations

unfoldable pub get_mutation_annotations : List SyncRule → MapMutations
unfolding collect_mutations
get_mutation_annotations rules = collect_mutations (λ m. get_annotations m) rules no_mutations

unfoldable pub collect_overrides : List SyncRule → List String → List String
collect_overrides [] overrides = overrides
collect_overrides (r ∷ rest) overrides = collect_overrides rest (overrides ++ r.mutations.overrides)

unfoldable pub get_mutation_overrides : List SyncRule → List String
unfolding collect_overrides
get_mutation_overrides rules = collect_overrides rules []

unfoldable pub get_mutation_sync_status : List SyncRule → Bool
get_mutation_sync_status [] = false
get_mutation_sync_status (r ∷ rest) =
    let later = get_mutation_sync_status rest in if r.mutations.sync_status then true else later
