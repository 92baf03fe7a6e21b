-- ===== src/Controllers/CoreSyncers/Reach.antt =====
-- Which objects the rules of controllers/core_syncers.go take, and on which clusters they run.
use cluster_registry_control.Common.{
  ℕ, String, ◌≡◌, refl, Bool, true, false, ◌==◌, ◌&&◌, ◌||◌, Option, none, some, [], ◌∷◌, arith,
  Map, any,
}
use cluster_registry_control.Api.Object.{Object, Value, Machinery}
use cluster_registry_control.Api.Selector.{Selectors}
use cluster_registry_control.Api.Rules.{
  ResourceSyncRuleSpec, gvk_eq, content_fits, match_object, match_first, match_rule, match_rules,
  match_spec,
}
use cluster_registry_control.Clusters.Feature.{ClusterFeature, match}
use cluster_registry_control.Clusters.Controller.{
  new_managed_controller, with_required_cluster_features,
}
use cluster_registry_control.Clusters.Cluster.{all_match, check_required_cluster_features}
use cluster_registry_control.Controllers.RuleReconciler.{
  ResourceSyncRule, requirements, rule_controller,
}
use cluster_registry_control.Api.Cluster.{secret_type}
use cluster_registry_control.Controllers.CoreSyncers.{
  core_resources_source_feature_name, source_required, CoreConfig, clusters_sync_spec,
  resource_sync_rules_spec, cluster_secrets_sync_spec,
}

module _ (k : Machinery) (config : CoreConfig) (obj : Object) (json : String → Option Value) where
  -- Whether a spec takes the object, without an error.
  abbrev pub Takes : ResourceSyncRuleSpec → Bool → Type 0
  Takes spec b =
      ((match_spec k spec obj).0 ≡ (gvk_eq (k.convert_gvk obj.gvk) spec.gvk && b))
      × ((match_spec k spec obj).2 ≡ none)

  -- The type of the object, if it has one, is that of the registry's secrets.
  abbrev pub has_registry_type : Bool
  has_registry_type = elim (json "type") [ none ↦ false | some v ↦ v.string == secret_type ]

  -- The rules for clusters and for rules take every object of their kind. The rule for secrets takes
  -- an object of its kind exactly if its namespace is that of the controller or empty and its type
  -- is that of the registry's secrets. The object can be read and marshalled.
  pub core_rules_take :
      k.accessor obj ≡ true
      → k.marshal obj ≡ some json
      → Takes clusters_sync_spec true
        × Takes resource_sync_rules_spec true
        × Takes
            (cluster_secrets_sync_spec config)
            ((obj.namespace == "" || obj.namespace == config.namespace) && has_registry_type)
  unfolding match_spec match_rules match_rule match_first match_object content_fits
      clusters_sync_spec resource_sync_rules_spec cluster_secrets_sync_spec
  core_rules_take a m =
      ((ground arith, ground arith), (ground arith, ground arith), (ground arith, ground arith))

-- A feature with the name of the source.
abbrev pub is_source : String × ClusterFeature → Bool
is_source (uid, feature) = core_resources_source_feature_name == feature.name

match-source :
    (s : Selectors) (fs : Map ClusterFeature)
    → match s
        (record {
          name = core_resources_source_feature_name;
          match_labels = [];
          match_expressions = [];
        })
        fs
      ≡ any is_source fs
unfolding match
match-source s [] = refl
match-source s ((uid, f) ∷ fs) = ground (arith, match-source s fs)

-- A controller for a rule with the requirement of the core rules may run on a cluster exactly if the
-- cluster has a feature with the name of the source.
pub core_rules_need_source :
    (s : Selectors) (handle : ℕ) (rule : ResourceSyncRule) (fs : Map ClusterFeature)
    → rule.spec.cluster_feature_matches ≡ source_required
    → check_required_cluster_features s (rule_controller handle rule) fs ≡ any is_source fs
unfolding check_required_cluster_features rule_controller requirements new_managed_controller
    with_required_cluster_features all_match
core_rules_need_source s handle rule fs h = ground (arith, match-source s fs)
