-- ===== src/Controllers/Sync.antt =====
-- controllers/sync_reconciler.go: the reconciler that copies the objects of one rule from a cluster
-- to the local one. This file has its state, the ownership tests and what it lets through.
pub mod Mutate
pub mod Reconcile
pub mod Ownership
pub mod PreCheck
pub mod Setup
use cluster_registry_control.Common.{
  ℕ, String, Bool, true, false, not, ◌&&◌, ◌==◌, Option, none, some, List, [], ◌∷◌, Map, get, has,
  index, if◌then◌else◌, Result, ok, err,
}
use cluster_registry_control.Api.Object.{GroupVersionKind, Object, Machinery}
use cluster_registry_control.Api.Rules.{
  ResourceSyncRuleSpec, SyncRule, match_spec, get_mutated_gvk, gvk_eq,
}
use cluster_registry_control.Clusters.Manager.{Manager, get_alive_clusters_by_id}

abbrev pub ownership_annotation : String
ownership_annotation = "cluster-registry.k8s.cisco.com/resource-owner-cluster-id"

abbrev pub original_gvk_annotation : String
original_gvk_annotation = "cluster-registry.k8s.cisco.com/original-group-version-kind"

abbrev pub cluster_disabled_annotation : String
cluster_disabled_annotation = "cluster-registry.k8s.cisco.com/cluster-disabled"

abbrev pub sync_disabled_annotation : String
sync_disabled_annotation = "cluster-registry.k8s.cisco.com/resource-sync-disabled"

abbrev pub original_name_label : String
original_name_label = "cluster-registry.k8s.cisco.com/original-name"

abbrev pub original_namespace_label : String
original_namespace_label = "cluster-registry.k8s.cisco.com/original-namespace"

pub record SyncReconciler : Type 0 where
  pub gvk : GroupVersionKind
  pub local_gvk : GroupVersionKind
  pub local_cluster_id : String
  pub clusters_manager : Manager
  pub cluster_id : String
  pub rule : ResourceSyncRuleSpec
  pub rule_uid : String
  pub local_informers : Map (Unit {0})
  pub resource_name_mutated : Bool
  pub resource_namespace_mutated : Bool

unfoldable pub new_sync_reconciler :
    Machinery → ResourceSyncRuleSpec → String → String → Manager → SyncReconciler
unfolding get_mutated_gvk
new_sync_reconciler k rule rule_uid cluster_id manager = record {
  gvk = rule.gvk;
  local_gvk = (get_mutated_gvk k rule.rules false rule.gvk).1;
  local_cluster_id = "";
  clusters_manager = manager;
  cluster_id = cluster_id;
  rule = rule;
  rule_uid = rule_uid;
  local_informers = [];
  resource_name_mutated = false;
  resource_namespace_mutated = false;
}

unfoldable pub is_owned_by_another_alive_cluster : SyncReconciler → String → Bool
is_owned_by_another_alive_cluster r owner =
    not (owner == "")
    && has owner (get_alive_clusters_by_id r.clusters_manager)
    && not (owner == r.cluster_id)

unfoldable pub is_owned_by_us : SyncReconciler → Object → Bool
is_owned_by_us r obj = index ownership_annotation obj.annotations == r.local_cluster_id

-- `ShouldCreateFunc` and `ShouldUpdateFunc`; `none` where the object gives no access to metadata.
module _ (k : Machinery) (r : SyncReconciler) where
  unfoldable pub should_create : Object → Option Bool
  unfolding is_owned_by_another_alive_cluster
  should_create desired =
      let owner = index ownership_annotation desired.annotations in
      if not (k.accessor desired)
      then none
      else if has sync_disabled_annotation desired.annotations
      then some false
      else if not (owner == "") && r.local_cluster_id == owner
      then some false
      else if is_owned_by_another_alive_cluster r owner
      then some false
      else some true

  unfoldable pub should_update : Object → Option Bool
  unfolding is_owned_by_another_alive_cluster
  should_update current =
      let owner = index ownership_annotation current.annotations in
      if not (k.accessor current)
      then none
      else if has sync_disabled_annotation current.annotations
      then some false
      else if owner == ""
      then some false
      else if is_owned_by_another_alive_cluster r owner
      then some false
      else some true

  -- `isObjectMatch` of `SetupWithController`: an error counts as no match.
  unfoldable pub is_object_match : Object → GroupVersionKind → Bool
  is_object_match obj gvk =
      let (matched, rules, failed) = match_spec k r.rule (record obj { gvk = gvk }) in
      elim failed [ none ↦ matched | some e ↦ false ]

  -- The events of the watched cluster that are let through. Of an update, `patch` is the result of
  -- comparing the old and the new object with the resource version left out: `none` if that fails,
  -- else whether there is no difference.
  unfoldable pub lets_create : Object → Bool
  unfolding is_object_match is_owned_by_us
  lets_create obj = if is_owned_by_us r obj then false else is_object_match obj r.rule.gvk

  unfoldable pub lets_update : Option Bool → Object → Bool
  unfolding is_object_match is_owned_by_us
  lets_update none new = true
  lets_update (some true) new = false
  lets_update (some false) new =
      if is_owned_by_us r new then false else is_object_match new r.rule.gvk

-- `localPredicate`: the events of the local cluster that are let through.
unfoldable pub lets_local_create : Object → Bool
lets_local_create obj = has ownership_annotation obj.annotations

unfoldable pub lets_local_update : Option Bool → Object → Bool
lets_local_update patch old =
    if not (has ownership_annotation old.annotations)
    then false
    else elim patch [ none ↦ true | some empty ↦ not empty ]

-- The request for an event of a local object: the names that the object had at its source.
unfoldable pub local_request : Object → String × String
local_request obj = (
  elim (get original_namespace_label obj.labels) [ none ↦ obj.namespace | some n ↦ n ],
  elim (get original_name_label obj.labels) [ none ↦ obj.name | some n ↦ n ],
)
