-- ===== src/Clusters/Controller.antt =====
-- pkg/clusters/managed_controller.go: a controller that runs on a cluster's manager. A pointer to a
-- controller is its handle; which controllers have a cancel function set is kept by handle, so that
-- two maps that hold the same pointer see the same state.
use cluster_registry_control.Common.{
  ℕ, String, Bool, true, false, Option, none, List, [], ◌∷◌, ◌++◌, nat_beq, if◌then◌else◌,
}
use cluster_registry_control.Clusters.Feature.{ClusterFeatureRequirement}

pub record ManagedController : Type 0 where
  pub handle : ℕ
  pub name : String
  pub required_cluster_features : List ClusterFeatureRequirement

pub data Error : Type 0 where
  no_cluster_id could_not_create_manager could_not_start_controller cluster_not_found : Error

-- `ctrlContextCancel != nil`, by handle.
abbrev pub Running : Type 0
Running = ℕ → Bool

abbrev pub set_running : ℕ → Bool → Running → Running
set_running h b run j = if nat_beq h j then b else run j

-- `WithRequiredClusterFeatures`.
unfoldable pub with_required_cluster_features :
    List ClusterFeatureRequirement → ManagedController → ManagedController
with_required_cluster_features features r = record r {
  required_cluster_features = r.required_cluster_features ++ features;
}

abbrev pub apply_options :
    List (ManagedController → ManagedController) → ManagedController → ManagedController
apply_options [] m = m
apply_options (o ∷ os) m = apply_options os (o m)

unfoldable pub new_managed_controller :
    ℕ → String → List (ManagedController → ManagedController) → ManagedController
new_managed_controller handle name options =
    apply_options options (record { handle = handle; name = name; required_cluster_features = [] })

-- `Start`, up to the goroutine that it leaves behind: the error is always nil.
unfoldable pub start : ManagedController → Running → Running × Option Error
start c run = if run c.handle then (run, none) else (set_running c.handle true run, none)

-- `Stop`.
unfoldable pub stop : ManagedController → Running → Running
stop c run = set_running c.handle false run
