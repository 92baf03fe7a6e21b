-- ===== src/Clusters/Cluster/Access.antt =====
-- The options and the look-ups of pkg/clusters/cluster.go that change nothing else.
use cluster_registry_control.Common.{
  ℕ, String, ◌≡◌, refl, Bool, ◌==◌, eq_iff, Option, none, some, [], ◌∷◌, arith, Map, get,
  if◌then◌else◌,
}
use cluster_registry_control.Api.Object.{GroupVersionKind}
use cluster_registry_control.Clusters.Controller.{ManagedController}
use cluster_registry_control.Clusters.Cluster.{Cluster, add_on_alive_func, add_on_dead_func}

unfoldable pub with_on_alive_func : ℕ → Cluster → Cluster
unfolding add_on_alive_func
with_on_alive_func f c = add_on_alive_func f c

unfoldable pub with_on_dead_func : ℕ → Cluster → Cluster
unfolding add_on_dead_func
with_on_dead_func f c = add_on_dead_func f c

unfoldable pub is_alive : Cluster → Bool
is_alive c = c.alive

unfoldable pub get_cluster_id : Cluster → String
get_cluster_id c = c.cluster_id

unfoldable pub get_secret_id : Cluster → Option String
get_secret_id c = c.secret_id

unfoldable pub get_kubeconfig : Cluster → String
get_kubeconfig c = c.kubeconfig

unfoldable pub get_pending_controllers : Cluster → Map ManagedController
get_pending_controllers c = c.pending_controllers

unfoldable pub get_controllers : Cluster → Map ManagedController
get_controllers c = c.controllers

unfoldable pub get_controller : String → Cluster → Option ManagedController
get_controller name c = get name c.controllers

-- The loop: the name of the controller is compared with the group of the kind.
unfoldable pub find_by_group : GroupVersionKind → Map ManagedController → Option ManagedController
find_by_group gvk [] = none
find_by_group gvk ((name, k) ∷ m) = if name == gvk.group then some k else find_by_group gvk m

unfoldable pub get_controller_by_gvk : GroupVersionKind → Cluster → Option ManagedController
unfolding find_by_group
get_controller_by_gvk gvk c = find_by_group gvk c.controllers

-- So the controller that is found for a kind is the one that is named like its group, and the kind and
-- the version do not matter.
pub get_controller_by_gvk_lem :
    (gvk : GroupVersionKind) (c : Cluster)
    → get_controller_by_gvk gvk c ≡ get_controller gvk.group c
unfolding get_controller_by_gvk get_controller get
get_controller_by_gvk_lem gvk c = by_group c.controllers
  where
    by_group : (m : Map ManagedController) → find_by_group gvk m ≡ get gvk.group m
    by_group [] = refl
    by_group ((name, k) ∷ m) = ground (arith, eq_iff name gvk.group, by_group m)
