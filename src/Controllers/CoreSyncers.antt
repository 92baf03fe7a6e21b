-- ===== src/Controllers/CoreSyncers.antt =====
-- controllers/core_syncers.go: the feature and the rules that every local cluster brings along, so
-- that clusters, their secrets and the rules themselves are synced.
pub mod Reach
use cluster_registry_control.Common.{
  String, Bool, true, false, not, Option, none, some, List, [], ◌∷◌, Map, if◌then◌else◌,
}
use cluster_registry_control.Api.Object.{GroupVersionKind}
use cluster_registry_control.Api.Rules.{
  ObjectKey, str_val, ContentSelector, SyncRuleMatch, Mutations, SyncRule, ClusterFeatureMatch,
  ResourceSyncRuleSpec,
}
use cluster_registry_control.Api.Cluster.{secret_type}

abbrev pub core_resources_source_feature_name : String
core_resources_source_feature_name = "cluster-registry-core-resources-source"

abbrev pub core_resource_label_name : String
core_resource_label_name = "cluster-registry-controller.k8s.cisco.com/core-sync-resource"

abbrev pub core_labels : Map String
core_labels = (core_resource_label_name, "true") ∷ []

-- A cluster feature or a sync rule, as the API has it.
pub data CoreObject : Type 0 where
  core_feature : String → Map String → String → CoreObject  -- name, labels, name of the feature
  core_rule : String → Map String → ResourceSyncRuleSpec → CoreObject

pub data DesiredState : Type 0 where
  present absent : DesiredState

-- Of the configuration: the namespace, and whether this cluster is a source of the core resources.
pub record CoreConfig : Type 0 where
  pub namespace : String
  pub core_resources_source_enabled : Bool

abbrev pub registry_kind : String → GroupVersionKind
registry_kind kind = record {
  group = "clusterregistry.k8s.cisco.com";
  version = "v1alpha1";
  kind = kind;
}

abbrev pub no_changes : Mutations
no_changes = record {
  annotations = none;
  gvk = none;
  labels = none;
  overrides = [];
  sync_status = false;
}

abbrev pub source_required : List ClusterFeatureMatch
source_required =
    record {
      feature_name = core_resources_source_feature_name;
      match_labels = [];
      match_expressions = [];
    }
    ∷ []

unfoldable pub core_syncers_cluster_feature : CoreObject
core_syncers_cluster_feature =
    core_feature "cluster-registry-core-resources" core_labels core_resources_source_feature_name

abbrev pub everything_of : GroupVersionKind → ResourceSyncRuleSpec
everything_of gvk = record {
  cluster_feature_matches = source_required;
  gvk = gvk;
  rules = record { matches = []; mutations = no_changes } ∷ [];
}

unfoldable pub clusters_sync_spec : ResourceSyncRuleSpec
clusters_sync_spec = everything_of (registry_kind "Cluster")

unfoldable pub resource_sync_rules_spec : ResourceSyncRuleSpec
resource_sync_rules_spec = everything_of (registry_kind "ResourceSyncRule")

abbrev pub registry_secrets_in : String → SyncRuleMatch
registry_secrets_in namespace = record {
  annotations = [];
  content = record { key = "type"; value = str_val secret_type } ∷ [];
  labels = [];
  namespaces = namespace ∷ [];
  object_key = record { name = ""; namespace = "" };
}

unfoldable pub cluster_secrets_sync_spec : CoreConfig → ResourceSyncRuleSpec
cluster_secrets_sync_spec config = record {
  cluster_feature_matches = source_required;
  gvk = record { group = ""; version = "v1"; kind = "Secret" };
  rules =
      record { matches = registry_secrets_in config.namespace ∷ []; mutations = no_changes } ∷ [];
}

-- The objects and what is wanted of them, in one of the orders of the Go map.
unfoldable pub core_objects : CoreConfig → List (CoreObject × DesiredState)
core_objects config =
    (core_syncers_cluster_feature, if config.core_resources_source_enabled then present else absent)
    ∷ (
      core_rule "cluster-registry-core-resource-clusters-sink" core_labels clusters_sync_spec,
      present,
    )
    ∷ (
      core_rule "cluster-registry-core-resource-cluster-secrets-sink" core_labels
          (cluster_secrets_sync_spec config),
      present,
    )
    ∷ (
      core_rule "cluster-registry-core-resource-syncrules-sink" core_labels
          resource_sync_rules_spec,
      present,
    )
    ∷ []

-- Whether the owner can be set, and whether the library's reconciler succeeds.
pub record CoreEnv : Type 0 where
  pub sets_owner : CoreObject → Bool
  pub reconciles : CoreObject → DesiredState → Bool

-- The loop, which ends at the first error: the objects that were reconciled, and whether all were.
unfoldable pub reconcile_objects :
    CoreEnv → List (CoreObject × DesiredState) → List (CoreObject × DesiredState) × Bool
reconcile_objects e [] = ([], true)
reconcile_objects e ((o, ds) ∷ rest) =
    let (done, all_done) = reconcile_objects e rest in
    if not (e.sets_owner o)
    then ([], false)
    else if not (e.reconciles o ds)
    then ([], false)
    else ((o, ds) ∷ done, all_done)

unfoldable pub reconcile_core_syncers :
    CoreEnv → CoreConfig → List (CoreObject × DesiredState) × Bool
reconcile_core_syncers e config = reconcile_objects e (core_objects config)
