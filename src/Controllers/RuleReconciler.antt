-- ===== src/Controllers/RuleReconciler.antt =====
-- controllers/resource_sync_rule_reconciler.go: which clusters run a sync controller for a rule. A
-- controller's rule is kept by the controller's handle, as a pointer to its reconciler would give it.
pub mod Coverage
pub mod Removal
use cluster_registry_control.Common.{
  ℕ, suc, String, Bool, true, false, not, ◌&&◌, ◌||◌, Option, none, some, List, [], ◌∷◌, Map, get,
  nat_beq, if◌then◌else◌,
}
use cluster_registry_control.Api.Selector.{Selectors}
use cluster_registry_control.Api.Rules.{ClusterFeatureMatch, ResourceSyncRuleSpec, no_gvk}
use cluster_registry_control.Clusters.Feature.{ClusterFeatureRequirement}
use cluster_registry_control.Clusters.Controller.{
  ManagedController, with_required_cluster_features, new_managed_controller,
}
use cluster_registry_control.Clusters.Cluster.{
  Cluster, remove_controller_by_name, remove_controller, add_controller,
}
use cluster_registry_control.Clusters.Manager.{Manager, store}

pub record ResourceSyncRule : Type 0 where
  pub name : String
  pub uid : String
  pub spec : ResourceSyncRuleSpec

-- The registry, the rules of the sync controllers, and the first handle that is not in use. A
-- controller that is no sync controller has no rule.
pub record World : Type 0 where
  pub manager : Manager
  pub rule_of : ℕ → Option ResourceSyncRule
  pub next : ℕ

-- What the code is given: the equality of specs and whether a rate limiter can be made. The context of
-- a controller is set while it runs, and `Stop` leaves it to the goroutine of the run to reset it:
-- which goroutines do so before the wait for their end begins, and which controllers that do not run
-- still have the context of a run that was stopped before.
pub record RuleEnv : Type 0 where
  pub selectors : Selectors
  pub deep_equal : ResourceSyncRuleSpec → ResourceSyncRuleSpec → Bool
  pub makes_rate_limiter : Bool
  pub cleans_up_first : ℕ → Bool
  pub lingers : ℕ → Bool

abbrev pub cluster_at : ℕ → World → Cluster
cluster_at h w = w.manager.heap h

-- A write of the cluster that a pointer points to.
abbrev pub set_cluster : ℕ → Cluster → World → World
set_cluster h c w = record w { manager = record w.manager { heap = store h c w.manager.heap } }

abbrev pub set_rule :
    ℕ → ResourceSyncRule → (ℕ → Option ResourceSyncRule) → ℕ → Option ResourceSyncRule
set_rule h rule f j = if nat_beq h j then some rule else f j

-- The requirements that the feature matches of a rule stand for.
unfoldable pub requirements : List ClusterFeatureMatch → List ClusterFeatureRequirement
requirements [] = []
requirements (m ∷ ms) =
    record {
      name = m.feature_name;
      match_labels = m.match_labels;
      match_expressions = m.match_expressions;
    }
    ∷ requirements ms

unfoldable pub rule_controller : ℕ → ResourceSyncRule → ManagedController
unfolding requirements new_managed_controller with_required_cluster_features
rule_controller handle rule =
    new_managed_controller handle rule.name
      (with_required_cluster_features (requirements rule.spec.cluster_feature_matches) ∷ [])

-- The rule of a controller; an empty one if the reconciler is of another kind.
abbrev pub empty_spec : ResourceSyncRuleSpec
empty_spec = record { cluster_feature_matches = []; gvk = no_gvk; rules = [] }

abbrev pub spec_of : Option ResourceSyncRule → ResourceSyncRuleSpec
spec_of none = empty_spec
spec_of (some rule) = rule.spec

-- The end of `InitNewResourceSyncController`: a new controller is added to the cluster.
unfoldable pub add_rule_controller : Selectors → ResourceSyncRule → ℕ → World → World
add_rule_controller s rule h w =
    record (set_cluster h (add_controller s (rule_controller w.next rule) (cluster_at h w)).0 w) {
      rule_of = set_rule w.next rule w.rule_of;
      next = suc w.next;
    }

module _ (e : RuleEnv) where
  -- `InitNewResourceSyncController`. Its errors are logged by the caller, and nothing is added then.
  unfoldable pub init_new_resource_sync_controller : ResourceSyncRule → ℕ → World → World
  init_new_resource_sync_controller rule h w =
      if e.makes_rate_limiter then add_rule_controller e.selectors rule h w else w

  -- Whether the context is set when `Stopped` reads it, after the controller was removed.
  abbrev pub has_context : Cluster → ManagedController → Bool
  has_context c k =
      c.running k.handle && not (e.cleans_up_first k.handle)
      || not (c.running k.handle) && e.lingers k.handle

  -- `none` is a panic: the wait for the end of a controller reads the context of the controller.
  unfoldable pub sync_cluster_controller : ResourceSyncRule → ℕ → World → Option World
  sync_cluster_controller rule h w = elim (get rule.name (cluster_at h w).controllers) [
    | none ↦ some (init_new_resource_sync_controller rule h w)
    | some k ↦
        if e.deep_equal (spec_of (w.rule_of k.handle)) rule.spec
        then some w
        else if has_context (cluster_at h w) k
        then some (
            init_new_resource_sync_controller rule h
              (set_cluster h (remove_controller k (cluster_at h w)) w))
        else none
  ]

  -- The loop over the clusters.
  unfoldable pub sync_clusters_with : ResourceSyncRule → Map ℕ → World → Option World
  sync_clusters_with rule [] w = some w
  sync_clusters_with rule ((name, h) ∷ clusters) w = elim (sync_cluster_controller rule h w) [
    | none ↦ none
    | some w' ↦ sync_clusters_with rule clusters w'
  ]

unfoldable pub remove_from_clusters : String → Map ℕ → World → World
remove_from_clusters name [] w = w
remove_from_clusters name ((n, h) ∷ clusters) w =
    remove_from_clusters name clusters
      (set_cluster h (remove_controller_by_name name (cluster_at h w)) w)

-- What reading the rule gives.
pub data RuleAnswer : Type 0 where
  rule_found : ResourceSyncRule → RuleAnswer
  rule_not_found rule_failed : RuleAnswer

-- `Reconcile`, for the request of a name: the state afterwards, unless there is a panic, and whether
-- an error is returned.
unfoldable pub reconcile_rule : RuleEnv → String → RuleAnswer → World → Option World × Bool
reconcile_rule e name (rule_found rule) w = (sync_clusters_with e rule w.manager.clusters w, false)
reconcile_rule e name rule_not_found w =
    (some (remove_from_clusters name w.manager.clusters w), false)
reconcile_rule e name rule_failed w = (some w, true)
