-- ===== src/Clusters/Feature.antt =====
-- pkg/clusters/cluster_features.go: features of a cluster, and what a controller requires of them.
pub mod Matching
use cluster_registry_control.Common.{
  String, Bool, true, false, not, ◌&&◌, ◌==◌, Option, none, some, List, [], ◌∷◌, Map, is_empty,
  if◌then◌else◌,
}
use cluster_registry_control.Api.Selector.{LabelSelectorRequirement, LabelSelector, Selectors}

pub record ClusterFeature : Type 0 where
  pub uid : String
  pub name : String
  pub labels : Map String

pub record ClusterFeatureRequirement : Type 0 where
  pub name : String
  pub match_labels : Map String
  pub match_expressions : List LabelSelectorRequirement

abbrev pub selector : ClusterFeatureRequirement → LabelSelector
selector r = record { match_labels = r.match_labels; match_expressions = r.match_expressions }

-- The loop of `Match` over the features.
unfoldable pub match : Selectors → ClusterFeatureRequirement → Map ClusterFeature → Bool
match s r [] = false
match s r ((k, feature) ∷ features) =
    let rest = match s r features in
    if not (r.name == "") && not (r.name == feature.name)
    then rest
    else if is_empty r.match_labels && is_empty r.match_expressions
    then true
    else elim (s.as_selector (selector r)) [
      | none ↦ false
      | some matches ↦ if matches feature.labels then true else rest
    ]
